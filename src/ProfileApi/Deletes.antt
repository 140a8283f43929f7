-- ===== src/ProfileApi/Deletes.antt =====
-- `Service.Delete`: what it removes or marks.
use api_free_demo.Base.{
  ℕ, ◌≡◌, refl, sym, ◌∙◌, ap, Bool, true, false, not, Option, none, some, List, [], ◌∷◌, arith, ℤ,
  eq_ℤ, ◌==◌, suc, zero, Bool-cases, inl, inr, map, filter, increment, ◌&&◌, Option-cases,
  if◌then◌else◌,
}
use mathlib.Core.Path.{ap₂}
use api_free_demo.Base.Outcome.{Error, fail_if}
use api_free_demo.Base.Triple.{Ends, Triple, then_call, weaken}
use api_free_demo.Time.{Time}
use api_free_demo.Validation.{Validator}
use api_free_demo.Profile
use api_free_demo.Profile.{Uuid, Profile, Policy}
use api_free_demo.Db
use api_free_demo.Db.{
  Db, Driver, profile_repository, first, live, owned_version, delete_where, delete_rows, affected,
  try_update, try_update_rows, mark_deleted, store_rows, push,
}
use api_free_demo.ProfileApi.Updates.{version_equal}
use api_free_demo.ProfileApi.Contracts.{
  Unchanged, Given, get_by_id-Triple, found-Triple, fail_if-Triple, statement-Triple, suc-eq_zero,
}

-- The row that a deletion is about
abbrev pub chosen : Uuid → Uuid → ℤ → Profile → Bool
chosen id u version row = (row.id == id && row.user_id == u) && eq_ℤ row.version version

-- What a deletion leaves of the rows, by the time as its column keeps it: the chosen rows are gone,
-- or they are marked with the time and their version is counted up.
abbrev pub Left : Bool → Time → (Profile → Bool) → Db → Db → Type 0
Left true now test db after = after.profiles ≡ filter (λ row. not (test row)) db.profiles
Left false now test db after =
    after.profiles
    ≡ map
        (λ (row : Profile).
          if test row
          then record row { deleted_at = some now; version = increment row.version }
          else row)
        db.profiles

-- A successful deletion
pub record IsDeletion (d : Driver) (now : Time) (id u : Uuid) (hard : Bool) (version : ℤ)
    (db after : Db) : Type 0 where
  pub read : Profile
  pub was_live : first (live id u) db.profiles ≡ some read
  pub version_matched : read.version ≡ version
  pub left : Left hard (d.kept_time now) (chosen id u version) db after
  pub same_users : after.users ≡ db.users

delete_where_none :
    (test : Profile → Bool) (rows : List Profile)
    → affected test rows ≡ 0
    → delete_where test rows ≡ rows
delete_where_none test [] e = refl
delete_where_none test (row ∷ rows) e = ground (arith, delete_where_none test rows)

pushed :
    (row : Profile) (o : Option (List Profile)) (after : List Profile)
    → push (some row) o ≡ some after
    → (rest : List Profile) × (o ≡ some rest) × (after ≡ row ∷ rest)
pushed row none after e = cc
pushed row (some rest) after e = (rest, refl, cc)

nonzero : {n : ℕ} → suc n ≡ 0 → ⊥
nonzero e = omega arith

pub try_update_none :
    (test : Profile → Bool) (f : Profile → Option Profile) (rows after : List Profile)
    → affected test rows ≡ 0
    → try_update test f rows ≡ some after
    → after ≡ rows
unfolding try_update
try_update_none test f [] after e h = cc
try_update_none test f (row ∷ rows) after e h = elim (Bool-cases (test row)) [
  | inl picked ↦ absurd (nonzero (rw picked at e))
  | inr left ↦
      let (rest, made, same) = pushed row (try_update test f rows) after (rw left at h) in
      same ∙ ap (λ xs. row ∷ xs) (try_update_none test f rows rest (rw left at e) made)
]

marked :
    (now : Time) (test : Profile → Bool) (row row' : Profile)
    → test row ≡ true
    → mark_deleted now row ≡ some row'
    → row' ≡ record row { deleted_at = some now; version = increment row.version }
unfolding mark_deleted
marked now test row row' picked e = ground arith

-- An UPDATE that no row refuses marks every chosen row.
try_update-marked :
    (now : Time) (test : Profile → Bool) (rows after : List Profile)
    → try_update test (mark_deleted now) rows ≡ some after
    → after
      ≡ map
          (λ (row : Profile).
            if test row
            then record row { deleted_at = some now; version = increment row.version }
            else row)
          rows
unfolding try_update
try_update-marked now test [] after h = cc
try_update-marked now test (row ∷ rows) after h = elim (Bool-cases (test row)) [
  | inl picked ↦ elim (Option-cases (mark_deleted now row)) [
    | inl refused ↦ let broken : ⊥ = ground arith in absurd broken
    | inr (row', made) ↦
        let (rest, more, same) =
          pushed row' (try_update test (mark_deleted now) rows) after
            (rw made at (rw picked at h)) in
        rw picked (
          same
          ∙ ap₂ (λ x xs. x ∷ xs) (marked now test row row' picked made)
              (try_update-marked now test rows rest more))
  ]
  | inr left ↦
      let (rest, more, same) =
        pushed row (try_update test (mark_deleted now) rows) after (rw left at h) in
      rw left (same ∙ ap (λ xs. row ∷ xs) (try_update-marked now test rows rest more))
]

map_none :
    (test : Profile → Bool) (f : Profile → Profile) (rows : List Profile)
    → affected test rows ≡ 0
    → map (λ row. if test row then f row else row) rows ≡ rows
map_none test f [] e = refl
map_none test f (row ∷ rows) e = elim (Bool-cases (test row)) [
  | inl picked ↦ absurd (nonzero (rw picked at e))
  | inr left ↦ rw left (ap (λ xs. row ∷ xs) (map_none test f rows (rw left at e)))
]

Left-none :
    (hard : Bool) (now : Time) (test : Profile → Bool) (db after : Db)
    → affected test db.profiles ≡ 0
    → Left hard now test db after
    → after.profiles ≡ db.profiles
Left-none true now test db after e h = h ∙ delete_where_none test db.profiles e
Left-none false now test db after e h = h ∙ map_none test _ db.profiles e

module _ (db : Db) (F : Type 0) where
  -- The rows after the statement, the facts before it, and the number that it counts
  abbrev Ran : Bool → Time → (Profile → Bool) → ℕ → Db → Type 0
  Ran hard now test count t =
      F × Left hard now test db t × (t.users ≡ db.users) × (count ≡ affected test db.profiles)

  delete_rows-Triple :
      (now : Time) (test : Profile → Bool)
      → Triple (Given db F) (delete_rows test) (Ran true now test) (Unchanged db)
  delete_rows-Triple now test = record {
    ends = λ s r. (r.0, ap (delete_where test) r.1.0, r.1.1, ap (affected test) r.1.0);
  }

  store_rows-Ends :
      (d : Driver) (now : Time) (test : Profile → Bool) (s : Db) (o : Option (List Profile))
      → try_update test (mark_deleted now) db.profiles ≡ o
      → Given db F s
      → Ends (Ran false now test) (Unchanged db) (store_rows d (affected test s.profiles) o s)
  store_rows-Ends d now test s none e r = r.1
  store_rows-Ends d now test s (some rows) e r =
      (r.0, try_update-marked now test db.profiles rows e, r.1.1, ap (affected test) r.1.0)

  mark_rows-Triple :
      (d : Driver) (now : Time) (test : Profile → Bool)
      → Triple
          (Given db F)
          (try_update_rows d test (mark_deleted now))
          (Ran false now test)
          (Unchanged db)
  unfolding try_update_rows
  mark_rows-Triple d now test = record {
    ends = λ s r.
        store_rows-Ends d now test s (try_update test (mark_deleted now) s.profiles)
          (ap (try_update test (mark_deleted now)) (sym r.1.0)) r;
  }

  settle-Triple :
      (hard : Bool) (now : Time) (test : Profile → Bool) (x : Error) (count : ℕ)
      → Triple
          (Ran hard now test count)
          (fail_if (count == 0) x)
          (λ _ t. F × Left hard now test db t × (t.users ≡ db.users))
          (Unchanged db)
  settle-Triple hard now test x zero = record {
    ends = λ t c. (Left-none hard now test db t (sym c.3) c.1, c.2);
  }
  settle-Triple hard now test x (suc n) = record {
    ends = λ t c. rw (suc-eq_zero n) (c.0, c.1, c.2);
  }

  delete-Triple :
      (d : Driver) (now : Time) (id u : Uuid) (hard : Bool) (version : ℤ)
      → Triple
          (Given db F)
          (Db.delete d now id u hard version)
          (λ _ t. F × Left hard (d.kept_time now) (chosen id u version) db t × (t.users ≡ db.users))
          (Unchanged db)
  unfolding Db.delete
  delete-Triple d now id u true version =
      then_call
        (statement-Triple db (delete_rows-Triple (d.kept_time now) (owned_version id u version)))
        (settle-Triple true (d.kept_time now) (owned_version id u version) Error.profile_not_found)
  delete-Triple d now id u false version =
      then_call
        (statement-Triple db (mark_rows-Triple d (d.kept_time now) (owned_version id u version)))
        (settle-Triple false (d.kept_time now) (owned_version id u version) Error.version_conflict)

-- Whatever the database meets, a deletion that fails leaves both tables as they were. One that
-- succeeds had read a live row of the user with the given version; then exactly the rows with that
-- identifier, owner and version are gone (hard), or are marked with the time of the call, as
-- its column keeps it, and counted up (soft), and every other row is as it was.
pub delete_contract :
    (d : Driver) (v : Validator) (policy : Policy) (now : Time) (id u : Uuid) (hard : Bool)
    (version : ℤ) (db : Db)
    → Ends
        (λ _. IsDeletion d now id u hard version db)
        (Unchanged db)
        (Profile.delete (profile_repository d) v policy now id u hard version db)
unfolding Profile.delete
delete_contract d v policy now id u hard version db =
    (then_call (get_by_id-Triple db id u) λ read. then_call (found-Triple db read) λ p.
        then_call (fail_if-Triple db (not (eq_ℤ p.version version)) Error.version_conflict) λ _.
          weaken (λ s r. r)
            (λ _ s k. record {
              read = p;
              was_live = k.0.1.1.0 ∙ k.0.1.0;
              version_matched = version_equal p.version version k.0.0;
              left = k.1;
              same_users = k.2;
            })
            (λ _ _ k. k) (delete-Triple db _ d now id u hard version)).ends
      db (tt, (refl, refl))
