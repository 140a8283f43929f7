-- ===== src/ProfileApi/Sample.antt =====
-- Two small tables, and what the service takes as parameters.
use api_free_demo.Base.{◌*◌, ◌/◌, ℕ, true, none, some, [], ◌∷◌, codes, pos}
use api_free_demo.Validation.{Validator}
use api_free_demo.Profile.{Profile, CreateRequest, Policy}
use api_free_demo.Db.{Db, Driver, UserRow}

abbrev pub driver : Driver
driver = record {
  unique_violation = codes "duplicate key value violates unique constraint";
  foreign_key_violation = codes "violates foreign key constraint";
  not_null_violation = codes "null value in column";
  out_of_range = codes "integer out of range";
  unknown_column = codes "column does not exist";
  bad_argument = codes "invalid input";
  null_scan = codes "converting NULL to string is unsupported";
  text_of = λ v. some none;
  time_of = λ v. some none;
  uuid_of = λ v. none;
  int_of = λ v. none;
  kept_time = λ t. t / 1000 * 1000;
}

abbrev pub validator : Validator
validator = record { email = λ s. true; url = λ s. true }

abbrev pub policy : Policy
policy s = s

abbrev pub person : ℕ → ℕ → Profile
person id user = record {
  id = id;
  user_id = user;
  first_name = codes "Ada";
  last_name = codes "L";
  bio = none;
  profile_image = none;
  cover_image = none;
  date_of_birth = none;
  phone = none;
  website = none;
  location = none;
  created_at = 5;
  updated_at = 5;
  deleted_at = none;
  version = pos 1;
}

abbrev pub account : ℕ → UserRow
account id = record {
  id = id;
  email = codes "a";
  name = codes "Ada";
  password_hash = codes "h";
  profile_image = none;
  role = codes "user";
  refresh_version = pos 1;
  last_login_at = none;
  password_reset_at = none;
  last_password_hash = none;
  created_at = 5;
  updated_at = 5;
  deleted_at = none;
}

abbrev pub tables : Db
tables = record {
  users = account 1 ∷ account 2 ∷ [];
  profiles = person 10 1 ∷ person 20 2 ∷ [];
  faults = [];
}

abbrev pub names : CreateRequest
names = record {
  first_name = codes "Bea";
  last_name = codes "M";
  bio = none;
  profile_image = none;
  cover_image = none;
  date_of_birth = none;
  phone = none;
  website = none;
  location = none;
}
