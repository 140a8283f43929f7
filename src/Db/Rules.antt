-- ===== src/Db/Rules.antt =====
-- A call whose effect on the profiles is a sequence of steps of one user, and which leaves the
-- users alone, whatever it returns: a rule for each way to build such a call.
use api_free_demo.Base.{
  ◌≡◌, refl, ◌∙◌, Bool, true, false, Option, none, some, List, [], ◌∷◌, Text, arith,
}
use api_free_demo.Base.Outcome.{
  Error, Outcome, ok, err, M, state_of, pure, Returns, resume, check, fail_if,
}
use api_free_demo.Profile.{Uuid, Profile}
use api_free_demo.Db.Tables.{Db, Driver, meet, statement}
use api_free_demo.Db.Assignments.{push}
use api_free_demo.Db.Profiles.{has_profile, insert_refusal}
use api_free_demo.Db.Steps.{Steps, here, Steps-trans}

-- From one state to the next
pub record Acts (u : Uuid) (before after : Db) : Type 0 where
  pub same_users : after.users ≡ before.users
  pub steps : Steps u before.profiles after.profiles

-- From every state the call acts as steps of the user.
pub record Always {A : Type 0} (u : Uuid) (m : M Db A) : Type 0 where
  pub acts : (db : Db) → Acts u db (state_of (m db))

pub Acts-refl : (u : Uuid) (db : Db) → Acts u db db
Acts-refl u db = record { same_users = refl; steps = here }

pub Acts-trans : {u : Uuid} {a b c : Db} → Acts u a b → Acts u b c → Acts u a c
Acts-trans {u} s t = record {
  same_users = t.same_users ∙ s.same_users;
  steps = Steps-trans u s.steps t.steps;
}

pub push-eq-some :
    (o : Option Profile) (rows : Option (List Profile)) (result : List Profile)
    → push o rows ≡ some result
    → (row : Profile) × (rest : List Profile) × (o ≡ some row)
      × (rows ≡ some rest)
      × (row ∷ rest ≡ result)
push-eq-some none rows result e = cc
push-eq-some (some row) none result e = cc
push-eq-some (some row) (some rest) result e = (row, rest, refl, refl, cc)

-- A row that the table takes has a new identifier.
pub insert_refusal-has_profile :
    (d : Driver) (p : Profile) (db : Db)
    → insert_refusal d p db ≡ none
    → has_profile p.id db.profiles ≡ false
unfolding insert_refusal
insert_refusal-has_profile d p db h = ground arith

module _ (u : Uuid) where
  pub pure-Always : {A : Type 0} (a : A) → Always u (pure a)
  pure-Always a = record { acts = λ db. Acts-refl u db }

  -- A call that hands the state back
  pub query-Always : {A : Type 0} (m : M Db A) → ((db : Db) → state_of (m db) ≡ db) → Always u m
  query-Always m h = record { acts = λ db. rw (h db) (Acts-refl u db) }

  pub fail_if-Always : (b : Bool) (e : Error) → Always u (fail_if b e)
  fail_if-Always true e = record { acts = λ db. Acts-refl u db }
  fail_if-Always false e = record { acts = λ db. Acts-refl u db }

  pub check-Always : (o : Option Error) → Always u (check o)
  check-Always none = record { acts = λ db. Acts-refl u db }
  check-Always (some e) = record { acts = λ db. Acts-refl u db }

  resume-Acts :
      {A B : Type 0} {db : Db} (o : Outcome Db A) (f : A → M Db B)
      → Acts u db (state_of o)
      → ((a : A) → Always u (f a))
      → Acts u db (state_of (resume f o))
  resume-Acts (ok a s) f h k = Acts-trans h ((k a).acts s)
  resume-Acts (err e s) f h k = h

  pub >>=-Always :
      {A B : Type 0} (m : M Db A) (f : A → M Db B)
      → Always u m
      → ((a : A) → Always u (f a))
      → Always u (λ db. resume f (m db))
  >>=-Always m f h k = record { acts = λ db. resume-Acts (m db) f (h.acts db) k }

  resume-Acts_of {ℓ} :
      {A B : Type 0} {db : Db} (P : A → Type ℓ) (o : Outcome Db A) (f : A → M Db B)
      → Acts u db (state_of o)
      → Returns P o
      → ((a : A) → P a → Always u (f a))
      → Acts u db (state_of (resume f o))
  resume-Acts_of P (ok a s) f h r k = Acts-trans h ((k a r).acts s)
  resume-Acts_of P (err e s) f h r k = h

  -- The same, where the rest rests on a property of what the first call returns.
  pub >>=-Always_of {ℓ} :
      {A B : Type 0} (P : A → Type ℓ) (m : M Db A) (f : A → M Db B)
      → Always u m
      → ((db : Db) → Returns P (m db))
      → ((a : A) → P a → Always u (f a))
      → Always u (λ db. resume f (m db))
  >>=-Always_of P m f h r k = record { acts = λ db. resume-Acts_of P (m db) f (h.acts db) (r db) k }

  meet-Acts :
      {A : Type 0} (faults : List (Option Text)) (m : M Db A) (db : Db)
      → Always u m
      → Acts u db (state_of (meet faults m db))
  meet-Acts [] m db h = h.acts db
  meet-Acts (none ∷ rest) m db h =
      let a = h.acts (record db { faults = rest }) in
      record { same_users = a.same_users; steps = a.steps }
  meet-Acts (some e ∷ rest) m db h = record { same_users = refl; steps = here }

  pub statement-Always : {A : Type 0} (m : M Db A) → Always u m → Always u (statement m)
  unfolding statement
  statement-Always m h = record { acts = λ db. meet-Acts db.faults m db h }
