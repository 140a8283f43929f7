-- ===== src/ProfileApi/Listing/Tests.antt =====
-- Listings of small tables.
use api_free_demo.Base.{◌≡◌, refl, true, false, none, List, [], ◌∷◌, ℕ, codes}
use api_free_demo.Base.Outcome.{ok}
use api_free_demo.Strings
use api_free_demo.Strings.{to_lower, contains}
use api_free_demo.Profile
use api_free_demo.Profile.{Profile, Filter}
use api_free_demo.Db
use api_free_demo.Db.{Db, profile_repository, matches}
use api_free_demo.Db.Search.{matches-contains}
use api_free_demo.ProfileApi.Sample.{driver, validator, policy, person, tables}
use api_free_demo.ProfileApi.Listing.{IsListing, list_pages}

-- A profile of the first user, created at a time
abbrev made : ℕ → ℕ → Profile
made id time = record (person id 1) { created_at = time }

abbrev many : Db
many = record tables { profiles = made 10 5 ∷ person 20 2 ∷ made 11 7 ∷ made 12 6 ∷ [] }

abbrev ad : Filter
ad = record {
  search = codes "aD";
  limit = 2;
  offset = 1;
  cursor = [];
  cursor_time = none;
  user_id = 1;
}

list-run :
    Profile.list (profile_repository driver) validator policy ad many
    ≡ ok (made 12 6 ∷ made 10 5 ∷ [], 3) many
unfolding Profile.list Db.list_profiles Db.statement Db.selected Db.matches Db.like Db.order_by
    Db.insert_sorted Strings.to_lower Strings.lower_rune
list-run = refl

list_pages_example :
    (rows : List Profile) × (total : ℕ) × (Profile.list
        (profile_repository driver)
        validator
        policy
        ad
        many
      ≡ ok (rows, total) many)
    × IsListing ad many.profiles rows total
list_pages_example = list_pages driver validator policy ad many refl refl

matches-contains_example :
    matches (codes "aD") (codes "Ada") ≡ contains (to_lower (codes "Ada")) (to_lower (codes "aD"))
matches-contains_example = matches-contains (codes "aD") (codes "Ada") refl

-- With a wildcard the two differ.
matches-wild : matches (codes "_") (codes "Ada") ≡ true
unfolding matches Db.like Strings.to_lower Strings.lower_rune
matches-wild = refl

contains-wild : contains (to_lower (codes "Ada")) (to_lower (codes "_")) ≡ false
unfolding contains Strings.has_prefix Strings.to_lower Strings.lower_rune
contains-wild = refl
