-- ===== src/Db/Users.antt =====
-- internal/infrastructure/db/user_repository.go: each statement from its SQL text.
use api_free_demo.Base.{
  Bool, true, false, not, ◌&&◌, ◌||◌, Option, none, some, List, [], ◌∷◌, ◌++◌, Text, codes, text_eq,
  fits_int4, any, ◌==◌, if◌then◌else◌,
}
use mathlib.Core.Option
use api_free_demo.Base.Outcome.{Error, Outcome, ok, err, M, pure, ◌>>=◌}
use api_free_demo.Strings.{to_lower, contains}
use api_free_demo.User.{Uuid, User, Repository}
use api_free_demo.Db.Tables.{Db, Driver, UserRow, scan, statement, update_where, first, is_null}
use api_free_demo.Db.Query.{list_users, or_null_scan}

-- `LOWER(email) = LOWER(?)`, which is also how CITEXT compares
abbrev pub same_email : Text → UserRow → Bool
same_email email row = text_eq (to_lower row.email) (to_lower email)

-- The row that the INSERT stores: four columns are not in its list.
abbrev pub inserted_user : Driver → User → UserRow
inserted_user d u = record {
  id = u.id;
  email = u.email;
  name = u.name;
  password_hash = u.password_hash;
  profile_image = u.profile_image;
  role = u.role;
  refresh_version = u.refresh_version;
  last_login_at = none;
  password_reset_at = none;
  last_password_hash = none;
  created_at = d.kept_time u.created_at;
  updated_at = d.kept_time u.updated_at;
  deleted_at = none;
}

-- Whether the table already holds the identifier or the address
unfoldable pub clashes : User → List UserRow → Bool
clashes u rows = any (λ row. row.id == u.id || same_email u.email row) rows

-- Why the table refuses a row
unfoldable pub user_refusal : Driver → User → List UserRow → Option Error
user_refusal d u rows =
    if not (fits_int4 u.refresh_version)
    then some (Error.message d.out_of_range)
    else if clashes u rows
    then some (Error.message d.unique_violation)
    else none

abbrev pub insert_user_unless : Driver → Option Error → User → M Db (Unit {0})
insert_user_unless d (some e) u db = err e db
insert_user_unless d none u db = ok tt (record db { users = db.users ++ inserted_user d u ∷ [] })

-- `INSERT INTO users …`
unfoldable pub insert_user : Driver → User → M Db (Unit {0})
insert_user d u db = insert_user_unless d (user_refusal d u db.users) u db

-- `isDuplicate`, of a message of the driver
unfoldable pub is_duplicate : Text → Bool
is_duplicate m = contains (to_lower m) (codes "duplicate") || contains (to_lower m) (codes "unique")

abbrev pub or_duplicate : Error → Error
or_duplicate (Error.message m) = if is_duplicate m then Error.duplicate_email else Error.message m
or_duplicate e = e

abbrev pub named : {A : Type 0} → Outcome Db A → Outcome Db A
named (ok a db) = ok a db
named (err e db) = err (or_duplicate e) db

-- `UserRepository.Create`
unfoldable pub create_user : Driver → User → M Db (Unit {0})
create_user d u db = named (statement (insert_user d u) db)

-- The SET list of `Update`
abbrev pub set_user : Driver → User → UserRow → UserRow
set_user d u row = record row {
  name = u.name;
  profile_image = u.profile_image;
  password_hash = u.password_hash;
  refresh_version = u.refresh_version;
  updated_at = d.kept_time u.updated_at;
  last_login_at = Option.map d.kept_time u.last_login_at;
}

abbrev pub update_user_if : Bool → Driver → User → M Db (Unit {0})
update_user_if false d u db = err (Error.message d.out_of_range) db
update_user_if true d u db =
    ok tt (record db { users = update_where (λ row. row.id == u.id) (set_user d u) db.users })

-- `UserRepository.Update`: a row that is not there is no error.
unfoldable pub update_user : Driver → User → M Db (Unit {0})
update_user d u = statement (update_user_if (fits_int4 u.refresh_version) d u)

abbrev pub read_row : Driver → UserRow → M Db (Option User)
read_row d row = or_null_scan d (scan row) >>= λ u. pure (some u)

abbrev pub nil_or_user : Driver → Option UserRow → M Db (Option User)
nil_or_user d none db = ok none db
nil_or_user d (some row) db = read_row d row db

-- `UserRepository.GetByEmail`: no row is `nil` without an error.
unfoldable pub get_by_email : Driver → Text → M Db (Option User)
get_by_email d email =
    statement λ db.
      nil_or_user d (first (λ row. same_email email row && is_null row.deleted_at) db.users) db

abbrev pub user_or_not_found : Driver → Option UserRow → M Db (Option User)
user_or_not_found d none db = err Error.user_not_found db
user_or_not_found d (some row) db = read_row d row db

-- `UserRepository.GetByID`
unfoldable pub get_user : Driver → Uuid → M Db (Option User)
get_user d id =
    statement
      λ db. user_or_not_found d (first (λ row. row.id == id && is_null row.deleted_at) db.users) db

abbrev pub user_repository : Driver → Repository Db
user_repository d = record {
  create = create_user d;
  update = update_user d;
  get_by_email = get_by_email d;
  get_by_id = get_user d;
  list = list_users d;
}
