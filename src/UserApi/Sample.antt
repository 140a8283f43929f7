-- ===== src/UserApi/Sample.antt =====
-- A small table of users, a toy signature and a toy hash, and calls of the user service.
use api_free_demo.Base.{◌*◌, ◌/◌, ℕ, true, none, some, List, [], ◌∷◌, ◌++◌, Text, codes, pos}
use api_free_demo.Validation.{Validator}
use api_free_demo.User.{Bcrypt, RegisterRequest, LoginRequest, UpdateUserRequest}
use api_free_demo.Auth.{AuthConfig, Jwt}
use api_free_demo.Db.{Driver, UserRow}
use api_free_demo.UserApi.{Server, Moment, Call}

abbrev pub driver : Driver
driver = record {
  unique_violation = codes "duplicate key value violates unique constraint";
  foreign_key_violation = codes "violates foreign key constraint";
  not_null_violation = codes "null value in column";
  out_of_range = codes "integer out of range";
  unknown_column = codes "column does not exist";
  bad_argument = codes "invalid input";
  null_scan = codes "converting NULL to string is unsupported";
  text_of = λ v. some none;
  time_of = λ v. some none;
  uuid_of = λ v. none;
  int_of = λ v. none;
  kept_time = λ t. t / 1000 * 1000;
}

abbrev pub validator : Validator
validator = record { email = λ s. true; url = λ s. true }

abbrev pub sanitize : Text → Text
sanitize s = s

abbrev pub bcrypt : Bcrypt
bcrypt = record {
  generate = λ salt password. some (salt ++ password);
  compare = λ hash password. true;
}

abbrev pub cfg : AuthConfig
cfg = record {
  access_secret = codes "k";
  refresh_secret = codes "l";
  access_token_ttl = 900000000000;
  refresh_token_ttl = 604800000000000;
  token_issuer = codes "api";
  secret_version = codes "v1";
}

abbrev pub toy : Jwt
toy = record {
  sign = λ k c. some (k ++ c.id);
  is_hmac = λ t. true;
  verified = λ t k now. none;
  uuid_text = λ u. u ∷ [];
}

abbrev pub moment : Moment
moment = (
  0,
  record { access_time = 0; access_id = codes "a1"; refresh_time = 0; refresh_id = codes "r1" },
)

abbrev pub account : ℕ → Text → UserRow
account id email = record {
  id = id;
  email = email;
  name = codes "Ada";
  password_hash = codes "h";
  profile_image = none;
  role = codes "user";
  refresh_version = pos 1;
  last_login_at = none;
  password_reset_at = none;
  last_password_hash = none;
  created_at = 5;
  updated_at = 5;
  deleted_at = none;
}

abbrev pub server : List UserRow → Server (Unit {0})
server rows = record {
  db = record { users = rows; profiles = []; faults = [] };
  tokens = record { memory_tokens = []; remote = tt };
}

abbrev pub two : Server (Unit {0})
two = server (account 1 (codes "ada@x.org") ∷ account 2 (codes "bea@x.org") ∷ [])

abbrev pub sign_up : Text → RegisterRequest
sign_up email = record {
  email = email;
  password = codes "correct horse";
  name = codes "Cy";
  profile_image = [];
}

abbrev pub log_in : LoginRequest
log_in = record { email = codes "cy@x.org"; password = codes "correct horse" }

abbrev pub rename : UpdateUserRequest
rename = record { name = codes "Cyn"; profile_image = none }

-- A new address, one that is there in other letters, and a login
abbrev pub calls : List Call
calls =
    Call.register moment 9 3 (codes "s") (sign_up (codes " Cy@x.org"))
    ∷ Call.register moment 9 4 (codes "s") (sign_up (codes "ADA@x.org"))
    ∷ Call.login moment 10 log_in
    ∷ []
