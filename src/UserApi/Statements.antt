-- ===== src/UserApi/Statements.antt =====
-- What the statements of the user repository keep.
use api_free_demo.Base.{
  ◌≡◌, refl, Bool, true, false, not, Option, none, some, List, [], ◌∷◌, Text, if◌then◌else◌,
  fits_int4,
}
use api_free_demo.Base.Outcome.{Error, Outcome, ok, err, M, state_of, resume}
use api_free_demo.User
use api_free_demo.User.{Uuid, User, TokenManager, Bcrypt, attempt, ignore, or_nil}
use api_free_demo.Db.{
  Db, Driver, UserRow, scan, statement, meet, clashes, user_refusal, insert_user,
  insert_user_unless, create_user, named, update_user, update_user_if, get_by_email, get_user,
  nil_or_user, user_or_not_found, list_users, or_null_scan,
}
use api_free_demo.UserApi.Keeps.{Stable, Keeps, then-Keeps}

-- The statements of the repository
module _ {I : Db → Type 0} (stable : Stable I) where
  meet-keeps :
      {A : Type 0} {m : M Db A} (faults : List (Option Text)) (db : Db)
      → Keeps I m
      → I db
      → I (state_of (meet faults m db))
  meet-keeps [] db h i = h.keeps db i
  meet-keeps (none ∷ rest) db h i =
      h.keeps (record db { faults = rest }) (stable.with_faults db rest i)
  meet-keeps (some e ∷ rest) db h i = stable.with_faults db rest i

  pub statement-Keeps : {A : Type 0} {m : M Db A} → Keeps I m → Keeps I (statement m)
  unfolding statement
  statement-Keeps h = record { keeps = λ db i. meet-keeps db.faults db h i }

  insert_user-Keeps : (d : Driver) (u : User) → Keeps I (insert_user d u)
  unfolding insert_user user_refusal
  insert_user-Keeps d u = record { keeps = go }
    where
      by_clash :
          (db : Db) (b : Bool)
          → clashes u db.users ≡ b
          → I db
          → I (
              state_of (
                insert_user_unless d
                  (if b then some (Error.message d.unique_violation) else none)
                  u
                  db))
      by_clash db true e i = i
      by_clash db false e i = stable.with_user d db u i e

      by_range :
          (db : Db) (b : Bool)
          → I db
          → I (
              state_of (
                insert_user_unless d
                  (if b
                    then some (Error.message d.out_of_range)
                    else if clashes u db.users
                    then some (Error.message d.unique_violation)
                    else none)
                  u
                  db))
      by_range db true i = i
      by_range db false i = by_clash db (clashes u db.users) refl i

      go : (db : Db) → I db → I (state_of (insert_user d u db))
      go db i = by_range db (not (fits_int4 u.refresh_version)) i

  named-state : {A : Type 0} (o : Outcome Db A) → I (state_of o) → I (state_of (named o))
  named-state (ok a db) i = i
  named-state (err e db) i = i

  pub create_user-Keeps : (d : Driver) (u : User) → Keeps I (create_user d u)
  unfolding create_user
  create_user-Keeps d u = record {
    keeps = λ db i.
        named-state (statement (insert_user d u) db)
          ((statement-Keeps (insert_user-Keeps d u)).keeps db i);
  }

  update_user_if-Keeps : (b : Bool) (d : Driver) (u : User) → Keeps I (update_user_if b d u)
  update_user_if-Keeps true d u = record { keeps = λ db i. stable.with_edit d db u i }
  update_user_if-Keeps false d u = record { keeps = λ db i. i }

  pub update_user-Keeps : (d : Driver) (u : User) → Keeps I (update_user d u)
  unfolding update_user
  update_user-Keeps d u = statement-Keeps (update_user_if-Keeps (fits_int4 u.refresh_version) d u)

  or_null_scan-state :
      {A : Type 0} (d : Driver) (o : Option A) (db : Db) → I db → I (state_of (or_null_scan d o db))
  or_null_scan-state d none db i = i
  or_null_scan-state d (some a) db i = i

  read_row-state :
      (d : Driver) (o : Option User) (db : Db)
      → I db
      → I (state_of (resume (λ u s. ok (some u) s) (or_null_scan d o db)))
  read_row-state d none db i = i
  read_row-state d (some u) db i = i

  nil_or_user-state :
      (d : Driver) (o : Option UserRow) (db : Db) → I db → I (state_of (nil_or_user d o db))
  nil_or_user-state d none db i = i
  nil_or_user-state d (some row) db i = read_row-state d (scan row) db i

  user_or_not_found-state :
      (d : Driver) (o : Option UserRow) (db : Db) → I db → I (state_of (user_or_not_found d o db))
  user_or_not_found-state d none db i = i
  user_or_not_found-state d (some row) db i = read_row-state d (scan row) db i

  pub get_by_email-Keeps : (d : Driver) (email : Text) → Keeps I (get_by_email d email)
  unfolding get_by_email
  get_by_email-Keeps d email =
      statement-Keeps (record { keeps = λ db i. nil_or_user-state d _ db i })

  pub get_user-Keeps : (d : Driver) (id : Uuid) → Keeps I (get_user d id)
  unfolding get_user
  get_user-Keeps d id =
      statement-Keeps (record { keeps = λ db i. user_or_not_found-state d _ db i })

  pub list_users-Keeps : (d : Driver) (f : User.UserFilter) → Keeps I (list_users d f)
  unfolding list_users
  list_users-Keeps d f =
      then-Keeps (statement-Keeps (record { keeps = λ db i. or_null_scan-state d _ db i })) λ rows.
        then-Keeps (statement-Keeps (record { keeps = λ db i. i }))
          λ total. record { keeps = λ db i. i }
