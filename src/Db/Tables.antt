-- ===== src/Db/Tables.antt =====
-- The two tables of migrations/postgres/001_init.up.sql, and the statements that the repositories
-- send, read as functions on lists of rows. Each statement may also fail for a reason of its own
-- (a lost connection, a timeout): `faults` lists what the coming statements meet.
use api_free_demo.Base.{
  ℕ, Bool, true, false, not, Option, none, some, List, [], ◌∷◌, Text, ℤ, filter, length,
  if◌then◌else◌,
}
use mathlib.Core.Path.{◌≡◌, ap}
use api_free_demo.Base.Outcome.{Error, err, M}
use api_free_demo.Time.{Time}
use api_free_demo.User.{User}
use api_free_demo.Profile.{Uuid, Profile, Value}

-- A row of `users`. The column `last_password_hash` may be NULL.
pub record UserRow : Type 0 where
  pub id : Uuid
  pub email : Text
  pub name : Text
  pub password_hash : Text
  pub profile_image : Option Text
  pub role : Text
  pub refresh_version : ℤ
  pub last_login_at : Option Time
  pub password_reset_at : Option Time
  pub last_password_hash : Option Text
  pub created_at : Time
  pub updated_at : Time
  pub deleted_at : Option Time

-- How sqlx reads a row into `user.User`: a NULL does not fit a `string` field.
abbrev pub scanned : UserRow → Option Text → Option User
scanned r none = none
scanned r (some last) = some (record {
  id = r.id;
  email = r.email;
  name = r.name;
  password_hash = r.password_hash;
  profile_image = r.profile_image;
  role = r.role;
  refresh_version = r.refresh_version;
  last_login_at = r.last_login_at;
  password_reset_at = r.password_reset_at;
  last_password_hash = last;
  created_at = r.created_at;
  updated_at = r.updated_at;
  deleted_at = r.deleted_at;
})

unfoldable pub scan : UserRow → Option User
scan r = scanned r r.last_password_hash

pub record Db : Type 0 where
  pub users : List UserRow
  pub profiles : List Profile
  pub faults : List (Option Text)

-- What the database and its driver decide: the messages of the refusals, and how a bound value
-- is read for a column of each type (`none`: it is refused).
pub record Driver : Type 0 where
  pub unique_violation : Text
  pub foreign_key_violation : Text
  pub not_null_violation : Text
  pub out_of_range : Text
  pub unknown_column : Text
  pub bad_argument : Text
  pub null_scan : Text
  pub text_of : Value → Option (Option Text)
  pub time_of : Value → Option (Option Time)
  pub uuid_of : Value → Option (Option Uuid)
  pub int_of : Value → Option (Option ℤ)
  -- What a column for a time keeps of it, in its precision
  pub kept_time : Time → Time

-- A statement meets the head of the list of faults, or it runs.
abbrev pub meet : {A : Type 0} → List (Option Text) → M Db A → M Db A
meet [] run db = run db
meet (none ∷ rest) run db = run (record db { faults = rest })
meet (some e ∷ rest) run db = err (Error.message e) (record db { faults = rest })

unfoldable pub statement : {A : Type 0} → M Db A → M Db A
statement run db = meet db.faults run db

-- With no fault ahead a statement runs.
pub statement_runs :
    {A : Type 0} (run : M Db A) (db : Db) → db.faults ≡ [] → statement run db ≡ run db
unfolding statement
statement_runs run db h = ap (λ faults. meet faults run db) h

pub statement_fails :
    {A : Type 0} (run : M Db A) (db : Db) (e : Text) (rest : List (Option Text))
    → db.faults ≡ some e ∷ rest
    → statement run db ≡ err (Error.message e) (record db { faults = rest })
unfolding statement
statement_fails run db e rest h = ap (λ faults. meet faults run db) h

-- `UPDATE … SET … WHERE test`
abbrev pub update_where {ℓ} : {A : Type ℓ} → (A → Bool) → (A → A) → List A → List A
update_where test f [] = []
update_where test f (x ∷ xs) = (if test x then f x else x) ∷ update_where test f xs

-- `DELETE … WHERE test`
abbrev pub delete_where {ℓ} : {A : Type ℓ} → (A → Bool) → List A → List A
delete_where test rows = filter (λ x. not (test x)) rows

-- `RowsAffected` of a statement with this `WHERE`
abbrev pub affected {ℓ} : {A : Type ℓ} → (A → Bool) → List A → ℕ
affected test rows = length (filter test rows)

-- The row that a query for one row returns
abbrev pub first {ℓ} : {A : Type ℓ} → (A → Bool) → List A → Option A
first test [] = none
first test (x ∷ xs) = if test x then some x else first test xs

abbrev pub is_null {ℓ} : {A : Type ℓ} → Option A → Bool
is_null none = true
is_null (some _) = false
