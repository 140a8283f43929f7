-- ===== src/ProfileApi/Isolation.antt =====
-- Users cannot reach one another's profiles, and identifiers stay unique.
use api_free_demo.Base.{◌≡◌, ◌≢◌, refl, ◌∙◌, List, [], ◌∷◌, arith, All, filter, ◌==◌}
use api_free_demo.Validation.{Validator}
use api_free_demo.Profile.{Uuid, Profile, Policy}
use api_free_demo.Db.{Db, Driver}
use api_free_demo.Db.Steps.{others, HasUniqueIds, Steps-others, Steps-HasUniqueIds}
use api_free_demo.ProfileApi.{Readings, Call, perform, perform_all}
use api_free_demo.ProfileApi.Effects.{perform-Acts}

-- The rows of one user
abbrev pub rows_of : Uuid → List Profile → List Profile
rows_of w rows = filter (λ (p : Profile). p.user_id == w) rows

rows_of-others :
    (u w : Uuid) (rows : List Profile) → u ≢ w → rows_of w (others u rows) ≡ rows_of w rows
rows_of-others u w [] h = refl
rows_of-others u w (p ∷ rows) h = ground (arith, rows_of-others u w rows h)

pub rows_of-eq :
    (u w : Uuid) (ps qs : List Profile)
    → u ≢ w
    → others u qs ≡ others u ps
    → rows_of w qs ≡ rows_of w ps
rows_of-eq u w ps qs h e = cc (rows_of-others u w ps h, rows_of-others u w qs h, e)

abbrev pub caller : Readings × Uuid × Call → Uuid
caller (r, u, c) = u

module _ (d : Driver) (v : Validator) (policy : Policy) where
  -- Any sequence of calls of the profile service by users other than `w`, whatever they return
  -- and whatever statements fail, leaves the rows of `w` as they are, in their order, and leaves
  -- the table of users alone.
  pub perform_all_isolates :
      (w : Uuid) (calls : List (Readings × Uuid × Call)) (db : Db)
      → All (λ c. caller c ≢ w) calls
      → (rows_of w (perform_all d v policy calls db).profiles ≡ rows_of w db.profiles)
        × ((perform_all d v policy calls db).users ≡ db.users)
  unfolding perform_all
  perform_all_isolates w [] db h = (refl, refl)
  perform_all_isolates w ((r, u, c) ∷ calls) db h =
      let a = perform-Acts u d v policy r c db in
      let rest = perform_all_isolates w calls (perform d v policy r u c db) h.1 in
      (rest.0 ∙ rows_of-eq u w db.profiles _ h.0 (Steps-others u a.steps), rest.1 ∙ a.same_users)

  -- If the identifiers of the profiles are pairwise different, they still are after any sequence
  -- of calls of any users.
  pub perform_all-HasUniqueIds :
      (calls : List (Readings × Uuid × Call)) (db : Db)
      → HasUniqueIds db.profiles
      → HasUniqueIds (perform_all d v policy calls db).profiles
  unfolding perform_all
  perform_all-HasUniqueIds [] db h = h
  perform_all-HasUniqueIds ((r, u, c) ∷ calls) db h =
      perform_all-HasUniqueIds calls (perform d v policy r u c db)
        (Steps-HasUniqueIds u (perform-Acts u d v policy r c db).steps h)
