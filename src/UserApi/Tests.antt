-- ===== src/UserApi/Tests.antt =====
-- Runs of the user service on a small table of users, with a toy signature and a toy hash.
use api_free_demo.Base.{
  ℕ, ◌≡◌, ◌≢◌, refl, Bool, true, false, Option, none, some, List, [], ◌∷◌, ◌++◌, Text, codes, pos,
}
use api_free_demo.Base
use api_free_demo.Base.Outcome.{Error, err}
use api_free_demo.Strings
use api_free_demo.User
use api_free_demo.User.{Bcrypt, RegisterRequest, LoginRequest, UpdateUserRequest, UserFilter}
use api_free_demo.Auth
use api_free_demo.Auth.{AuthConfig, Jwt, Backend, memory, Tokens}
use api_free_demo.Db
use api_free_demo.Db.{Db, Driver, UserRow}
use api_free_demo.UserApi.{Server, users, jwt_manager, perform_all}
use api_free_demo.UserApi.Accounts.{HasUniqueAccounts, perform_all_keeps_accounts}
use api_free_demo.UserApi.Taken.{register_taken}
use api_free_demo.UserApi.Sessions.{Fails, registered_users_locked_out}
use api_free_demo.UserApi.Sample.{
  driver, validator, sanitize, bcrypt, cfg, toy, moment, server, two, sign_up, log_in, rename,
  calls,
}

two_unique : HasUniqueAccounts two.db.users
unfolding Strings.to_lower Strings.lower_rune Base.text_eq
two_unique = (refl, (refl, tt))

perform_all_keeps_accounts_example :
    (after : Server (Unit {0})) × (after
      ≡ perform_all driver (jwt_manager cfg toy memory) validator sanitize bcrypt true calls two)
    × HasUniqueAccounts after.db.users
    × (after.db.profiles ≡ [])
perform_all_keeps_accounts_example =
    perform_all_keeps_accounts driver cfg toy memory validator sanitize bcrypt true calls two
      two_unique

registered_users_locked_out_example :
    (s : Server (Unit {0})) × (s
      ≡ perform_all driver
          (jwt_manager cfg toy memory)
          validator
          sanitize
          bcrypt
          true
          calls
          (server []))
    × Fails (
        User.login
          (users driver)
          (jwt_manager cfg toy memory)
          validator
          sanitize
          bcrypt
          moment
          11
          log_in
          s)
    × Fails (
        User.refresh
          (users driver)
          (jwt_manager cfg toy memory)
          validator
          sanitize
          bcrypt
          moment
          (codes "lr1")
          s)
    × Fails (
        User.update_me
          (users driver)
          (jwt_manager cfg toy memory)
          validator
          sanitize
          bcrypt
          11
          3
          rename
          s)
registered_users_locked_out_example =
    registered_users_locked_out driver cfg toy memory validator sanitize bcrypt true calls
      (server []) moment 11 log_in (codes "lr1") 3 rename refl

-- The registrations among these calls succeed.
accounts-run :
    Base.map {B = ℕ × Text}
      (λ (row : UserRow). (row.id, row.email))
      (perform_all driver
        (jwt_manager cfg toy memory)
        validator
        sanitize
        bcrypt
        true
        calls
        (server [])).db.users
    ≡ (3, codes "cy@x.org") ∷ (4, codes "ada@x.org") ∷ []
unfolding perform_all User.register User.sign_up User.clean_register User.new_user User.login
    User.clean_login User.validate_register User.validate_login User.open_session Db.create_user
    Db.insert_user Db.user_refusal Db.clashes Db.get_by_email Db.statement Db.scan Base.text_eq
    Strings.to_lower Strings.lower_rune Strings.trim_space Strings.trim_left Strings.trim_right
    Strings.is_space Auth.issue_tokens Auth.issue_access Auth.issue_refresh Auth.persist_refresh
    Auth.put Auth.store Auth.access_claims Auth.refresh_claims
accounts-run = refl

abbrev shouted : RegisterRequest
shouted = sign_up (codes " ADA@x.org")

shouted-valid :
    User.validate_register validator (
      User.clean_register
        (users {R = Unit {0}} driver)
        (jwt_manager cfg toy memory)
        validator
        sanitize
        bcrypt
        shouted)
    ≡ none
unfolding User.validate_register User.clean_register Strings.trim_space Strings.trim_left
    Strings.trim_right Strings.is_space
shouted-valid = refl

unique-named : Db.is_duplicate driver.unique_violation ≡ true
unfolding Db.is_duplicate Strings.to_lower Strings.lower_rune Strings.contains Strings.has_prefix
unique-named = refl

shouted-taken :
    Base.any (Db.same_email (Strings.to_lower (Strings.trim_space shouted.email))) two.db.users
    ≡ true
unfolding Strings.to_lower Strings.lower_rune Strings.trim_space Strings.trim_left
    Strings.trim_right Strings.is_space Base.text_eq
shouted-taken = refl

register_taken_example :
    User.register
      (users driver)
      (jwt_manager cfg toy memory)
      validator
      sanitize
      bcrypt
      true
      moment
      9
      3
      (codes "s")
      shouted
      two
    ≡ err Error.duplicate_email two
register_taken_example =
    register_taken driver (jwt_manager cfg toy memory) validator sanitize bcrypt moment 9 3
      (codes "s") (codes "s" ++ Strings.trim_space shouted.password) shouted two shouted-valid refl
      refl unique-named shouted-taken
