-- ===== src/ProfileApi/Patches.antt =====
-- `Service.Patch` under a version that the row does not have.
use api_free_demo.Base.{
  Bool, ℕ, ◌≡◌, refl, sym, ◌∙◌, ap, ◌∷◌, not, Option, none, some, List, [], ℤ, ◌==◌,
}
use api_free_demo.Base.Outcome.{Error, fail_if}
use api_free_demo.Base.Triple.{Ends, Triple, then_call}
use api_free_demo.Time.{Time}
use api_free_demo.Validation.{Validator, non_empty}
use api_free_demo.Profile
use api_free_demo.Profile.{
  Uuid, Profile, Policy, PatchRequest, Fields, validate_patch, no_fields, fields_of, patch_update,
}
use api_free_demo.Db
use api_free_demo.Db.{
  Db, Driver, profile_repository, owned_version, affected, try_update, try_update_rows, store_rows,
  bind, bound, column, assignments, Assignment, patch_row,
}
use api_free_demo.ProfileApi.Contracts.{
  SameTables, Unchanged, Given, check-Triple, fail_if-Triple, statement-Triple,
}
use api_free_demo.ProfileApi.Deletes.{try_update_none}

-- The call does not succeed.
abbrev pub Never : {A : Type 0} → A → Db → Type 0
Never a s = ⊥

module _ (db : Db) where
  -- No row is met: the tables stay, and the count is 0.
  abbrev Missed : ℕ → Db → Type 0
  Missed count t = (count ≡ 0) × SameTables db t

  store_rows-Ends :
      (d : Driver) (test : Profile → Bool) (f : Assignment) (s : Db) (o : Option (List Profile))
      → affected test db.profiles ≡ 0
      → try_update test f db.profiles ≡ o
      → SameTables db s
      → Ends Missed (Unchanged db) (store_rows d (affected test s.profiles) o s)
  store_rows-Ends d test f s none h e r = r
  store_rows-Ends d test f s (some rows) h e r =
      (ap (affected test) r.0 ∙ h, (try_update_none test f db.profiles rows h e, r.1))

  conflict-Triple :
      (x : Error) (count : ℕ) → Triple (Missed count) (fail_if (count == 0) x) Never (Unchanged db)
  conflict-Triple x count = record { ends = λ t c. rw c.0 c.1 }

  module _ {F : Type 0} where
    bound-Triple :
        (d : Driver) (o : Option (Option Assignment))
        → Triple (Given db F) (bound d o) (λ _. Given db F) (Unchanged db)
    bound-Triple d none = record { ends = λ s r. r.1 }
    bound-Triple d (some none) = record { ends = λ s r. r.1 }
    bound-Triple d (some (some a)) = record { ends = λ s r. r }

    bind-Triple :
        (d : Driver) (fields : Fields)
        → Triple (Given db F) (bind d fields) (λ _. Given db F) (Unchanged db)
    unfolding bind
    bind-Triple d [] = record { ends = λ s r. r }
    bind-Triple d ((k, v) ∷ fields) =
        then_call (bound-Triple d (column k (assignments d v)))
          λ a. then_call (bind-Triple d fields) λ rest. record { ends = λ s r. r }

    miss-Triple :
        (d : Driver) (test : Profile → Bool) (f : Assignment)
        → affected test db.profiles ≡ 0
        → Triple (Given db F) (try_update_rows d test f) Missed (Unchanged db)
    unfolding try_update_rows
    miss-Triple d test f h = record {
      ends = λ s r.
          store_rows-Ends d test f s (try_update test f s.profiles) h
            (ap (try_update test f) (sym r.1.0)) r.1;
    }

    patch-Triple :
        (d : Driver) (now : Time) (id u : Uuid) (fields : Fields) (version : ℤ)
        → affected (owned_version id u version) db.profiles ≡ 0
        → Triple (Given db F) (Db.patch d now id u fields version) Never (Unchanged db)
    unfolding Db.patch
    patch-Triple d now id u fields version h =
        then_call
          (statement-Triple db (
            then_call (bind-Triple d fields) λ sets.
              miss-Triple d (owned_version id u version) (patch_row (d.kept_time now) sets) h))
          λ count.
            then_call (conflict-Triple Error.version_conflict count)
              λ _. record { ends = λ s k. absurd k }

-- A Patch whose version no row with that identifier and owner has never succeeds, whatever its
-- fields and whatever the database meets, and leaves both tables as they were.
pub stale_patch :
    (d : Driver) (v : Validator) (policy : Policy) (now : Time) (id u : Uuid) (req : PatchRequest)
    (db : Db)
    → affected (owned_version id u req.version) db.profiles ≡ 0
    → Ends Never (Unchanged db) (Profile.patch (profile_repository d) v policy now id u req db)
unfolding Profile.patch
stale_patch d v policy now id u req db h =
    (then_call (check-Triple db (validate_patch req)) λ _.
        then_call
          (fail_if-Triple db (not (non_empty (patch_update policy (fields_of req.fields))))
            no_fields)
          λ _.
            patch-Triple db d now id u (patch_update policy (fields_of req.fields)) req.version
              h).ends
      db (tt, (refl, refl))
