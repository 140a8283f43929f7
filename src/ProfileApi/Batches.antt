-- ===== src/ProfileApi/Batches.antt =====
-- `Service.BulkCreate` and the transaction below it.
use mathlib.Core.List.{append-nil, append_assoc}
use api_free_demo.Base.{
  ℕ, suc, ◌+◌, ◌≡◌, refl, sym, ◌∙◌, ◌⊎◌, inl, inr, Option, none, some, List, [], ◌∷◌, ◌++◌, map,
  arith, Text, length,
}
use api_free_demo.Base.Outcome.{Error, Outcome, ok, err, pure, state_of}
use api_free_demo.Base.Triple.{Ends, Triple, then_call, weaken}
use api_free_demo.Time.{Time}
use api_free_demo.Validation.{Validator}
use api_free_demo.Profile
use api_free_demo.Profile.{
  Uuid, Profile, CreateRequest, BulkCreateRequest, Policy, bulk_items, bulk_item, add_item,
  store_items,
}
use api_free_demo.Db
use api_free_demo.Db.{
  Db, Driver, profile_repository, insert, inserted, insert_all, transaction, rollback, statement,
  statement_fails,
}
use api_free_demo.ProfileApi.Contracts.{SameTables, Given, statement-Triple, pure-Triple}
use api_free_demo.ProfileApi.Creates.{insert-Triple}

-- The table of profiles with some rows more at its end
abbrev pub Extended : Driver → Db → List Profile → Db → Type 0
Extended d db ps t = (t.profiles ≡ db.profiles ++ map (inserted d) ps) × (t.users ≡ db.users)

abbrev Anything : Error → Db → Type 0
Anything e s = Unit

abbrev with_row : Driver → Db → Profile → Db
with_row d db p = record db { profiles = db.profiles ++ inserted d p ∷ [] }

insert_all-Triple :
    (d : Driver) (ps : List Profile) (db : Db)
    → Triple (Given db (Unit {0})) (insert_all d ps) (λ _. Extended d db ps) Anything
unfolding insert_all
insert_all-Triple d [] db = record { ends = λ s g. (g.1.0 ∙ sym (append-nil db.profiles), g.1.1) }
insert_all-Triple d (p ∷ ps) db =
    then_call
      (weaken (λ s g. g) (λ _ s k. (tt, (k.2, k.3))) (λ e s k. tt)
        (statement-Triple db (insert-Triple db (Unit {0}) d p)))
      λ _.
        weaken (λ s g. g)
          (λ _ s k. (k.0 ∙ append_assoc db.profiles (inserted d p ∷ []) (map (inserted d) ps), k.1))
          (λ e s k. k) (insert_all-Triple d ps (with_row d db p))

commit-Triple :
    (d : Driver) (ps : List Profile) (db : Db)
    → Triple (Extended d db ps) (statement (pure tt)) (λ _. Extended d db ps) Anything
commit-Triple d ps db =
    let whole : Db = record db { profiles = db.profiles ++ map (inserted d) ps } in
    weaken (λ s g. (tt, g)) (λ _ s k. k.1) (λ e s k. tt)
      (statement-Triple whole {F = Unit {0}} (pure-Triple whole tt))

transaction-Triple :
    (d : Driver) (ps : List Profile) (db : Db)
    → Triple (Given db (Unit {0})) (transaction d ps) (λ _. Extended d db ps) Anything
unfolding transaction
transaction-Triple d ps db =
    then_call
      (weaken (λ s g. g) (λ _ s k. (tt, k.1)) (λ e s k. tt)
        (statement-Triple db (pure-Triple db tt)))
      λ _. then_call (insert_all-Triple d ps db) λ _. commit-Triple d ps db

begin_fails :
    (d : Driver) (ps : List Profile) (db : Db) (e : Text) (rest : List (Option Text))
    → db.faults ≡ some e ∷ rest
    → transaction d ps db ≡ err (Error.message e) (record db { faults = rest })
unfolding transaction
begin_fails d ps db e rest lost = rw (statement_fails (pure tt) db e rest lost) refl

-- All rows or none
abbrev pub AllOrNone : Driver → Db → List Profile → Db → Type 0
AllOrNone d db ps t = Extended d db ps t ⊎ SameTables db t

rollback-AllOrNone :
    (d : Driver) (db : Db) (ps : List Profile) (o : Outcome Db (Unit {0}))
    → Ends (λ _. Extended d db ps) Anything o
    → AllOrNone d db ps (state_of (rollback db o))
rollback-AllOrNone d db ps (ok a t) h = inl h
rollback-AllOrNone d db ps (err e t) h = inr (refl, refl)

bulk_create-AllOrNone :
    (d : Driver) (p : Profile) (ps : List Profile) (db : Db)
    → AllOrNone d db (p ∷ ps) (state_of (Db.bulk_create d (p ∷ ps) db))
unfolding Db.bulk_create
bulk_create-AllOrNone d p ps db =
    rollback-AllOrNone d db (p ∷ ps) (transaction d (p ∷ ps) db)
      ((transaction-Triple d (p ∷ ps) db).ends db (tt, (refl, refl)))

module _ (d : Driver) (v : Validator) (policy : Policy) (now : ℕ → Time) (id : ℕ → Uuid) (u : Uuid)
    (req : BulkCreateRequest) (db : Db) where
  -- What a batch reports does not depend on the database: it is made from the payloads alone.
  -- The database takes all of the reported profiles, in their order at the end of the table, or
  -- none of them, and the report is the same either way.
  pub bulk_create_contract :
      ((Profile.bulk_create (profile_repository d) v policy now id u req db).0
        ≡ bulk_items v policy now id u 0 req.profiles)
      × AllOrNone d db
          (bulk_items v policy now id u 0 req.profiles).0
          (Profile.bulk_create (profile_repository d) v policy now id u req db).1
  unfolding Profile.bulk_create
  bulk_create_contract = go (bulk_items v policy now id u 0 req.profiles)
    where
      go :
          (made : List Profile × List (Option Error))
          → ((store_items (profile_repository d) made db).0 ≡ made)
            × AllOrNone d db made.0 (store_items (profile_repository d) made db).1
      go ([], errs) = (refl, inr (refl, refl))
      go (p ∷ ps, errs) = (refl, bulk_create-AllOrNone d p ps db)

  -- If the database does not even begin the transaction, the batch still reports every profile
  -- that it made, with no error in its place, and none of them is stored.
  pub bulk_create_hides_failure :
      (e : Text) (rest : List (Option Text))
      → db.faults ≡ some e ∷ rest
      → ((Profile.bulk_create (profile_repository d) v policy now id u req db).0
          ≡ bulk_items v policy now id u 0 req.profiles)
        × SameTables db (Profile.bulk_create (profile_repository d) v policy now id u req db).1
  unfolding Profile.bulk_create Db.bulk_create
  bulk_create_hides_failure e rest lost = go (bulk_items v policy now id u 0 req.profiles)
    where
      go :
          (made : List Profile × List (Option Error))
          → ((store_items (profile_repository d) made db).0 ≡ made)
            × SameTables db (store_items (profile_repository d) made db).1
      go ([], errs) = (refl, (refl, refl))
      go (p ∷ ps, errs) = (refl, rw (begin_fails d (p ∷ ps) db e rest lost) (refl, refl))

-- The number of errors in a report
abbrev pub errors : List (Option Error) → ℕ
errors [] = 0
errors (none ∷ es) = errors es
errors (some e ∷ es) = suc (errors es)

-- Every payload of a batch has its own place in the report, and is either made or reported with
-- an error: the profiles and the errors together are as many as the payloads.
pub bulk_items_accounted :
    (v : Validator) (policy : Policy) (now : ℕ → Time) (id : ℕ → Uuid) (u : Uuid) (i : ℕ)
    (reqs : List CreateRequest)
    → let (made, errs) = bulk_items v policy now id u i reqs in
      (length errs ≡ length reqs) × (length made + errors errs ≡ length reqs)
unfolding bulk_items
bulk_items_accounted v policy now id u i [] = (refl, omega arith)
bulk_items_accounted v policy now id u i (req ∷ reqs) =
    go (bulk_item v policy (now i) (id i) u req)
      (bulk_items_accounted v policy now id u (suc i) reqs)
  where
    go :
        (o : Profile ⊎ Error)
        → (let (made, errs) = bulk_items v policy now id u (suc i) reqs in
            (length errs ≡ length reqs) × (length made + errors errs ≡ length reqs))
        → let (made, errs) = add_item o (bulk_items v policy now id u (suc i) reqs) in
          (length errs ≡ suc (length reqs)) × (length made + errors errs ≡ suc (length reqs))
    go (inl p) h = omega arith
    go (inr e) h = omega arith
