-- ===== src/UserApi/Keeps.antt =====
-- What every call of the user service keeps: a property of the rows of `users` that an insertion
-- and an update keep, and the rows of `profiles`.
use api_free_demo.Base.{◌≡◌, Bool, true, false, Option, none, some, List, [], ◌∷◌, ◌++◌, Text, ◌==◌}
use api_free_demo.Base.Outcome.{
  Error, Outcome, ok, err, M, state_of, resume, or_else, check, fail_if,
}
use api_free_demo.User.{User, attempt, ignore, or_nil}
use api_free_demo.Db.{Db, Driver, update_where, clashes, inserted_user, set_user}

-- A predicate on tables that an account's insertion and its update keep
pub record Stable (I : Db → Type 0) : Type 0 where
  pub with_faults : (db : Db) (rest : List (Option Text)) → I db → I (record db { faults = rest })
  pub with_user :
      (d : Driver) (db : Db) (u : User)
      → I db
      → clashes u db.users ≡ false
      → I (record db { users = db.users ++ inserted_user d u ∷ [] })
  pub with_edit :
      (d : Driver) (db : Db) (u : User)
      → I db
      → I (record db { users = update_where (λ row. row.id == u.id) (set_user d u) db.users })

-- A call keeps the predicate, whether it fails or not.
pub record Keeps {S A : Type 0} (J : S → Type 0) (m : M S A) : Type 0 where
  pub keeps : (s : S) → J s → J (state_of (m s))

or_else-state :
    {S A : Type 0} (J : S → Type 0) (e : Error) (o : Outcome S A)
    → J (state_of o)
    → J (state_of (elim o [ ok a s ↦ ok a s | err _ s ↦ err e s ]))
or_else-state J e (ok a s) j = j
or_else-state J e (err x s) j = j

attempt-state :
    {S A : Type 0} (J : S → Type 0) (o : Outcome S (Option A))
    → J (state_of o)
    → J (state_of (elim o [ ok a s ↦ ok a s | err _ s ↦ ok none s ]))
attempt-state J (ok a s) j = j
attempt-state J (err x s) j = j

ignore-state :
    {S : Type 0} (J : S → Type 0) (o : Outcome S (Unit {0}))
    → J (state_of o)
    → J (state_of (elim o [ ok _ s ↦ ok tt s | err _ s ↦ ok tt s ]))
ignore-state J (ok a s) j = j
ignore-state J (err x s) j = j

module _ {S : Type 0} {J : S → Type 0} where
  resume-keeps :
      {A B : Type 0} (f : A → M S B) (o : Outcome S A)
      → ((a : A) → Keeps J (f a))
      → J (state_of o)
      → J (state_of (resume f o))
  resume-keeps f (ok a s) k j = (k a).keeps s j
  resume-keeps f (err e s) k j = j

  pub then-Keeps :
      {A B : Type 0} {m : M S A} {f : A → M S B}
      → Keeps J m
      → ((a : A) → Keeps J (f a))
      → Keeps J (λ s. resume f (m s))
  then-Keeps {m} {f} h k = record { keeps = λ s j. resume-keeps f (m s) k (h.keeps s j) }

  pub check-Keeps : (o : Option Error) → Keeps J (check o)
  check-Keeps none = record { keeps = λ s j. j }
  check-Keeps (some e) = record { keeps = λ s j. j }

  pub fail_if-Keeps : (b : Bool) (e : Error) → Keeps J (fail_if b e)
  fail_if-Keeps true e = record { keeps = λ s j. j }
  fail_if-Keeps false e = record { keeps = λ s j. j }

  pub or_nil-Keeps : {A : Type 0} (e : Error) (o : Option A) → Keeps J (or_nil e o)
  or_nil-Keeps e none = record { keeps = λ s j. j }
  or_nil-Keeps e (some a) = record { keeps = λ s j. j }

  pub or_else-Keeps : {A : Type 0} {m : M S A} (e : Error) → Keeps J m → Keeps J (or_else m e)
  or_else-Keeps {m} e h = record { keeps = λ s j. or_else-state J e (m s) (h.keeps s j) }

  pub attempt-Keeps : {A : Type 0} {m : M S (Option A)} → Keeps J m → Keeps J (attempt m)
  attempt-Keeps {m} h = record { keeps = λ s j. attempt-state J (m s) (h.keeps s j) }

  pub ignore-Keeps : {m : M S (Unit {0})} → Keeps J m → Keeps J (ignore m)
  ignore-Keeps {m} h = record { keeps = λ s j. ignore-state J (m s) (h.keeps s j) }
