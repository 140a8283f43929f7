-- ===== src/UserApi/Logins/Tests.antt =====
-- A login on a table with one readable account, with the toy signature that satisfies the laws.
use api_free_demo.Base.{◌≡◌, refl, ◌<◌, some, [], ◌∷◌, ◌++◌, codes, arith}
use api_free_demo.Base
use api_free_demo.Base.Outcome.{ok}
use api_free_demo.Strings
use api_free_demo.User
use api_free_demo.User.{User, AuthResponse}
use api_free_demo.Auth.{Claims, memory, parse_access_token, access_claims}
use api_free_demo.Auth.Sample.{cfg, toy, toy-JwtLaws}
use api_free_demo.Db
use api_free_demo.Db.{UserRow}
use api_free_demo.UserApi.{Server, users, jwt_manager}
use api_free_demo.UserApi.Sample.{
  driver, validator, sanitize, bcrypt, moment, account, log_in, server,
}
use api_free_demo.UserApi.Logins.{Signs, stored, row_of, login_authenticates}

abbrev readable : UserRow
readable = record (account 3 (codes "cy@x.org")) { last_password_hash = some (codes "") }

abbrev cy : User
cy = record {
  id = 3;
  email = codes "cy@x.org";
  name = codes "Ada";
  password_hash = codes "h";
  profile_image = Base.none;
  role = codes "user";
  refresh_version = Base.pos 1;
  last_login_at = Base.none;
  password_reset_at = Base.none;
  last_password_hash = codes "";
  created_at = 5;
  updated_at = 5;
  deleted_at = Base.none;
}

abbrev before : Server (Unit {0})
before = server (account 1 (codes "ada@x.org") ∷ readable ∷ [])

readable-scan : Db.scan readable ≡ some cy
unfolding Db.scan
readable-scan = refl

readable-found :
    row_of (Strings.to_lower (Strings.trim_space log_in.email)) before.db ≡ some readable
unfolding Strings.to_lower Strings.lower_rune Strings.trim_space Strings.trim_left
    Strings.trim_right Strings.is_space Base.text_eq
readable-found = refl

log_in-valid :
    User.validate_login validator (
      User.clean_login
        (users {R = Unit {0}} driver)
        (jwt_manager cfg toy memory)
        validator
        sanitize
        bcrypt
        log_in)
    ≡ Base.none
unfolding User.validate_login User.clean_login Strings.trim_space Strings.trim_left
    Strings.trim_right Strings.is_space
log_in-valid = refl

signs : Signs toy
signs k c = (_, refl)

early : 12 < (access_claims cfg toy moment.1 cy).expires_at
unfolding access_claims
early = omega arith

login_authenticates_example :
    (a : AuthResponse) × (after : Server (Unit {0})) × (claims : Claims) × (User.login
        (users driver)
        (jwt_manager cfg toy memory)
        validator
        sanitize
        bcrypt
        moment
        11
        log_in
        before
      ≡ ok a after)
    × (after.db ≡ stored driver 11 cy before.db)
    × (parse_access_token cfg toy 12 a.tokens.access_token after ≡ ok claims after)
    × (claims.user_id ≡ 3)
    × (claims.role ≡ codes "user")
login_authenticates_example =
    login_authenticates driver cfg toy toy-JwtLaws signs validator sanitize bcrypt moment 11 12
      log_in before readable cy log_in-valid refl readable-found readable-scan refl refl early
