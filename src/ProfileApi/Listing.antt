-- ===== src/ProfileApi/Listing.antt =====
-- `Service.List`: the page of a listing.
mod Tests
use Prim.Native.Nat.{min}
use api_free_demo.Base.{
  ℕ, ◌≡◌, ◌-◌, refl, sym, ap, ◌∙◌, Bool, true, false, ◌&&◌, ◌||◌, List, [], ◌∷◌, ◌==◌, filter, take,
  drop, length, length-take, length-drop, Bool-cases, inl, inr, if◌then◌else◌,
}
use mathlib.Core.List.{Perm}
use api_free_demo.Base.Outcome.{ok, resume}
use api_free_demo.Strings.{to_lower, contains}
use api_free_demo.Validation.{Validator, non_empty}
use api_free_demo.Profile
use api_free_demo.Profile.{Profile, Filter, Policy}
use api_free_demo.Db.{
  Db, Driver, profile_repository, selected, matches, is_null, before_cursor, newer, order_by,
  list_profiles, statement_runs,
}
use api_free_demo.Db.Search.{IsPlain, matches-contains}
use api_free_demo.Db.Order.{order_by-perm, IsDescending, order_by-IsDescending, length-order_by}

-- What a listing asks for: the live rows of its user whose first or last name contains the search
-- text, whatever the case of the letters, and that were created before the cursor.
abbrev pub wanted : Filter → Profile → Bool
wanted f row =
    row.user_id == f.user_id
    && is_null row.deleted_at
    && (if non_empty f.search
        then contains (to_lower row.first_name) (to_lower f.search)
          || contains (to_lower row.last_name) (to_lower f.search)
        else true)
    && before_cursor f.cursor_time row

-- The rows are a page of the wanted rows, the latest first, and the total is the number of all of
-- them.
pub record IsListing (f : Filter) (profiles rows : List Profile) (total : ℕ) : Type 0 where
  pub ordered : List Profile
  pub permutes : Perm ordered (filter (wanted f) profiles)
  pub descends : IsDescending ordered
  pub is_page : rows ≡ take f.limit (drop f.offset ordered)
  pub counts : total ≡ length (filter (wanted f) profiles)
  pub has_size : length rows ≡ min f.limit (total - f.offset)

filter-ext :
    {A : Type 0} (p q : A → Bool) (xs : List A) → ((x : A) → p x ≡ q x) → filter p xs ≡ filter q xs
filter-ext p q [] h = refl
filter-ext p q (x ∷ xs) h = rw (h x, filter-ext p q xs h) refl

selected-wanted : (f : Filter) (row : Profile) → IsPlain f.search → selected f row ≡ wanted f row
unfolding selected
selected-wanted f row h =
    rw (matches-contains f.search row.first_name h, matches-contains f.search row.last_name h) refl

list_profiles_answers :
    (f : Filter) (db : Db)
    → db.faults ≡ []
    → list_profiles f db
      ≡ ok
          (
            take f.limit (drop f.offset (order_by newer (filter (selected f) db.profiles))),
            length (filter (selected f) db.profiles),
          )
          db
unfolding list_profiles
list_profiles_answers f db h = rw (statement_runs _ db h) (rw (statement_runs _ db h) refl)

-- If the database answers, and the search text has none of `%`, `_` and `\`, `List` succeeds and
-- changes nothing: its rows are the page at the offset and of the limit of the filter, from the
-- live rows of the user whose first or last name contains the search text (whatever the case of
-- the letters; every row where it is empty) and that were created before the cursor, if there is
-- one, ordered from the latest to the earliest; the total counts all of these.
pub list_pages :
    (d : Driver) (v : Validator) (policy : Policy) (f : Filter) (db : Db)
    → db.faults ≡ []
    → IsPlain f.search
    → (rows : List Profile) × (total : ℕ) × (Profile.list (profile_repository d) v policy f db
        ≡ ok (rows, total) db)
      × IsListing f db.profiles rows total
unfolding Profile.list
list_pages d v policy f db answers plain = (
  take f.limit (drop f.offset (order_by newer (filter (wanted f) db.profiles))),
  length (filter (wanted f) db.profiles),
  list_profiles_answers f db answers
      ∙ ap (λ rows. ok (take f.limit (drop f.offset (order_by newer rows)), length rows) db)
          (filter-ext (selected f) (wanted f) db.profiles λ row. selected-wanted f row plain),
  record {
    ordered = order_by newer (filter (wanted f) db.profiles);
    permutes = order_by-perm newer (filter (wanted f) db.profiles);
    descends = order_by-IsDescending (filter (wanted f) db.profiles);
    is_page = refl;
    counts = refl;
    has_size =
        length-take f.limit (drop f.offset (order_by newer (filter (wanted f) db.profiles)))
        ∙ ap (min f.limit) (
            length-drop f.offset (order_by newer (filter (wanted f) db.profiles))
            ∙ ap (λ n. n - f.offset) (length-order_by newer (filter (wanted f) db.profiles)));
  },
)
