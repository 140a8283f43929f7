-- ===== src/ProfileApi/Updates.antt =====
-- `Service.Update`: optimistic locking, and what a later read sees.
use api_free_demo.Base.{
  ◌≡◌, ◌≢◌, refl, ◌∙◌, false, none, some, List, [], ◌∷◌, arith, ℤ, eq_ℤ, eq_ℤ_iff, eq_ℤ_ne,
  increment, not, ap, sym, pos, negsuc, suc, zero, Bool-cases, inl, inr, ◌+◌, ◌^◌, ◌==◌,
}
use mathlib.Core.Option
use api_free_demo.Base.Outcome.{Error, ok, err}
use api_free_demo.Base.Triple.{Ends, Triple, then_call, ends_ok}
use api_free_demo.Time.{Time}
use api_free_demo.Validation.{Validator}
use api_free_demo.Profile
use api_free_demo.Profile.{
  Uuid, Profile, UpdateRequest, Policy, updated, validate_update, assign_optional_fields,
}
use api_free_demo.Db.{Db, Driver, profile_repository, first, live, owned, update_where, set_columns}
use api_free_demo.Db
use api_free_demo.ProfileApi.Reads.{get_live}
use api_free_demo.ProfileApi.Contracts.{
  Unchanged, Given, check-Triple, get_by_id-Triple, found-Triple, fail_if-Triple,
  or_bad_date-Triple, update-Triple,
}

-- A successful update: the request was valid, the row that was read is live and has the version
-- of the request, and the stored row is what the update made of it.
pub record IsUpdate (d : Driver) (v : Validator) (policy : Policy) (now : Time) (id u : Uuid)
    (req : UpdateRequest) (db : Db) (q : Profile) (after : Db) : Type 0 where
  pub valid : validate_update v req ≡ none
  pub read : Profile
  pub was_live : first (live id u) db.profiles ≡ some read
  pub version_matched : read.version ≡ req.version
  pub computed : updated policy now req read ≡ some q
  pub stored : after.profiles ≡ update_where (owned q.id q.user_id) (set_columns d q) db.profiles
  pub same_users : after.users ≡ db.users

pub version_equal : (a b : ℤ) → not (eq_ℤ a b) ≡ false → a ≡ b
version_equal a b h = (eq_ℤ_iff a b).0 (ground arith)

module _ (d : Driver) (v : Validator) (policy : Policy) (now : Time) (id u : Uuid)
    (req : UpdateRequest) (db : Db) where
  update-Triple_of :
      Triple
        (Given db (Unit {0}))
        (Profile.update (profile_repository d) v policy now id u req)
        (IsUpdate d v policy now id u req db)
        (Unchanged db)
  unfolding Profile.update
  update-Triple_of = then_call (check-Triple db (validate_update v req)) λ _.
      then_call (get_by_id-Triple db id u) λ read. then_call (found-Triple db read) λ p.
        then_call (fail_if-Triple db (not (eq_ℤ p.version req.version)) Error.version_conflict) λ _.
          then_call (or_bad_date-Triple db (updated policy now req p)) λ q.
            then_call (update-Triple db _ d q) λ _. record {
              ends = λ s k. record {
                valid = k.0.1.1.1.1.1.0;
                read = p;
                was_live = k.0.1.1.1.1.0 ∙ k.0.1.1.1.0;
                version_matched = version_equal p.version req.version k.0.1.1.0;
                computed = k.0.1.0;
                stored = k.2;
                same_users = k.3;
              };
            }

  -- Whatever the database meets, an update that fails leaves both tables as they were, and an
  -- update that succeeds was valid, had read a live row of the user whose version is the version
  -- of the request, and has stored over that row what it made of it, the time of the call as its
  -- column keeps it.
  pub update_contract :
      Ends
        (IsUpdate d v policy now id u req db)
        (Unchanged db)
        (Profile.update (profile_repository d) v policy now id u req db)
  update_contract = update-Triple_of.ends db (tt, (refl, refl))

-- What an update keeps of the row and what it renews
pub updated-fields :
    (policy : Policy) (now : Time) (req : UpdateRequest) (p q : Profile)
    → updated policy now req p ≡ some q
    → (q.version ≡ increment p.version)
      × (q.id ≡ p.id)
      × (q.user_id ≡ p.user_id)
      × (q.created_at ≡ p.created_at)
      × (q.deleted_at ≡ p.deleted_at)
      × (q.updated_at ≡ now)
unfolding updated assign_optional_fields
updated-fields policy now req p q e = ground arith

-- The live row is still the first after a change of the owner's row that keeps what the query
-- reads.
first-update_where :
    (id u : Uuid) (f : Profile → Profile) (rows : List Profile)
    → ((row : Profile) → live id u (f row) ≡ live id u row)
    → first (live id u) (update_where (owned id u) f rows) ≡ Option.map f (first (live id u) rows)
first-update_where id u f [] h = refl
first-update_where id u f (row ∷ rows) h = ground (arith, h row, first-update_where id u f rows h)

set_columns-live :
    (d : Driver) (id u : Uuid) (q row : Profile) → live id u (set_columns d q row) ≡ live id u row
set_columns-live d id u q row = refl

first-live-owned :
    (id u : Uuid) (rows : List Profile) (p : Profile)
    → first (live id u) rows ≡ some p
    → (p.id ≡ id) × (p.user_id ≡ u)
first-live-owned id u [] p e = cc
first-live-owned id u (row ∷ rows) p e = ground (arith, first-live-owned id u rows p)

-- The columns of an update written over the row that was read give the update.
set_columns-updated :
    (d : Driver) (policy : Policy) (now : Time) (req : UpdateRequest) (p q : Profile)
    → updated policy now req p ≡ some q
    → set_columns d q p ≡ record q { updated_at = d.kept_time now }
unfolding updated assign_optional_fields
set_columns-updated d policy now req p q e = ground arith

-- After a successful update, a read by the same user finds the live row as the update has
-- returned it, with the time of the call as its column keeps it: its version is the next one, its time of update is the time of the call.
pub update_read_back :
    (d : Driver) (v : Validator) (policy : Policy) (now : Time) (id u : Uuid) (req : UpdateRequest)
    (db after : Db) (q : Profile)
    → IsUpdate d v policy now id u req db q after
    → (first (live id u) after.profiles ≡ some (record q { updated_at = d.kept_time now }))
      × (q.version ≡ increment req.version)
      × (q.updated_at ≡ now)
update_read_back d v policy now id u req db after q h =
    let fields = updated-fields policy now req h.read q h.computed in
    let own = first-live-owned id u db.profiles h.read h.was_live in
    let same_id : q.id ≡ id = fields.1 ∙ own.0 in
    let same_user : q.user_id ≡ u = fields.2 ∙ own.1 in
    let stored : after.profiles ≡ update_where (owned id u) (set_columns d q) db.profiles =
      rw (← same_id, ← same_user) h.stored in
    (
      ap (first (live id u)) stored
          ∙ first-update_where id u (set_columns d q) db.profiles (set_columns-live d id u q)
          ∙ ap (Option.map (set_columns d q)) h.was_live
          ∙ ap some (set_columns-updated d policy now req h.read q h.computed),
      fields.0 ∙ ap increment h.version_matched,
      fields.5,
    )

module _ (d : Driver) (v : Validator) (policy : Policy) (now : Time) (id u : Uuid)
    (req : UpdateRequest) (db : Db) where
  -- After an update that returned `q`, whatever else is in the table, a read by the same user
  -- returns, if the database answers, `q` with the time of the call as its column keeps it; `q`
  -- carries the version after the one of the request, and the time of the call.
  pub get-update :
      (q : Profile) (after : Db)
      → Profile.update (profile_repository d) v policy now id u req db ≡ ok q after
      → after.faults ≡ []
      → (Profile.get (profile_repository d) v policy id u after
          ≡ ok (record q { updated_at = d.kept_time now }) after)
        × (q.version ≡ increment req.version)
        × (q.updated_at ≡ now)
  get-update q after e answers =
      let done = ends_ok _ _ e (update_contract d v policy now id u req db) in
      let (read, version, time) = update_read_back d v policy now id u req db after q done in
      (get_live d v policy id u after answers _ read, version, time)

  -- A valid update of a live row of another version
  stale_update :
      (p : Profile)
      → db.faults ≡ []
      → validate_update v req ≡ none
      → first (live id u) db.profiles ≡ some p
      → p.version ≢ req.version
      → Profile.update (profile_repository d) v policy now id u req db
        ≡ err Error.version_conflict db
  unfolding Profile.update
  stale_update p answers valid alive stale =
      rw (valid, Db.get_by_id_answers id u db (some p) answers alive)
        (rw (eq_ℤ_ne p.version req.version stale) refl)

increment-ne : (z : ℤ) → increment z ≢ z
unfolding increment
increment-ne (pos n) e = elim (Bool-cases (n + 1 == 2 ^ 63)) [
  | inl last ↦ let broken : ⊥ = ground arith in absurd broken
  | inr more ↦ let broken : ⊥ = ground arith in absurd broken
]
increment-ne (negsuc zero) e = ground arith
increment-ne (negsuc (suc n)) e = ground arith

-- After an update that succeeded, every further valid update of the same profile by the same user
-- whose request carries the version of the first is refused with `ErrVersionConflict` if the
-- database answers, and changes nothing: of updates made one after the other with
-- one version only the first goes through.
pub second_update_refused :
    (d : Driver) (v : Validator) (policy : Policy) (now later : Time) (id u : Uuid)
    (req next : UpdateRequest) (db after : Db) (q : Profile)
    → Profile.update (profile_repository d) v policy now id u req db ≡ ok q after
    → after.faults ≡ []
    → validate_update v next ≡ none
    → next.version ≡ req.version
    → Profile.update (profile_repository d) v policy later id u next after
      ≡ err Error.version_conflict after
second_update_refused d v policy now later id u req next db after q e answers valid same =
    let done = ends_ok _ _ e (update_contract d v policy now id u req db) in
    let (read, version, _) = update_read_back d v policy now id u req db after q done in
    stale_update d v policy later id u next after _ answers valid read
      λ stuck. increment-ne req.version (sym version ∙ stuck ∙ same)
