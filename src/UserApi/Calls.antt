-- ===== src/UserApi/Calls.antt =====
-- What every call of the user service keeps.
use api_free_demo.Base.{Bool, not, List, [], ◌∷◌, Text, codes}
use api_free_demo.Base.Outcome.{Error, Outcome, ok, err, M, state_of}
use api_free_demo.Strings.{trim_space}
use api_free_demo.Time.{Time}
use api_free_demo.Validation.{Validator}
use api_free_demo.User
use api_free_demo.User.{Uuid, User, TokenManager, Bcrypt, attempt, ignore, or_nil}
use api_free_demo.Db.{Db, Driver}
use api_free_demo.Auth
use api_free_demo.Auth.{AuthConfig, Jwt, Backend, Tokens}
use api_free_demo.UserApi.{
  jwt_manager, Server, on_db, with_db, on_tokens, with_tokens, users, Moment, Call, register, login,
  refresh, get_me, update_me, list, perform, perform_all,
}
use api_free_demo.UserApi.Keeps.{
  Stable, Keeps, then-Keeps, check-Keeps, fail_if-Keeps, or_nil-Keeps, or_else-Keeps, attempt-Keeps,
  ignore-Keeps,
}
use api_free_demo.UserApi.Statements.{
  create_user-Keeps, update_user-Keeps, get_by_email-Keeps, get_user-Keeps, list_users-Keeps,
}

-- The service, on the tables and the store of tokens
module _ {I : Db → Type 0} (stable : Stable I) where
  abbrev Holds : {R : Type 0} → Server R → Type 0
  Holds s = I s.db

  with_db-state :
      {R A : Type 0} (s : Server R) (o : Outcome Db A)
      → I (state_of o)
      → Holds (state_of (with_db s o))
  with_db-state s (ok a db) i = i
  with_db-state s (err e db) i = i

  on_db-Keeps : {R A : Type 0} {m : M Db A} → Keeps I m → Keeps (Holds {R = R}) (on_db m)
  on_db-Keeps {m} h = record { keeps = λ s i. with_db-state s (m s.db) (h.keeps s.db i) }

  with_tokens-state :
      {R A : Type 0} (s : Server R) (o : Outcome (Tokens R) A)
      → Holds s
      → Holds (state_of (with_tokens s o))
  with_tokens-state s (ok a t) i = i
  with_tokens-state s (err e t) i = i

  on_tokens-Keeps : {R A : Type 0} (m : M (Tokens R) A) → Keeps (Holds {R = R}) (on_tokens m)
  on_tokens-Keeps m = record { keeps = λ s i. with_tokens-state s (m s.tokens) i }

  module _ {R : Type 0} (d : Driver) (cfg : AuthConfig) (jwt : Jwt) (backend : Backend R)
      (v : Validator) (sanitize : Text → Text) (bcrypt : Bcrypt) where
    abbrev t : TokenManager Moment (Server R)
    t = jwt_manager cfg jwt backend

    issue_tokens-Keeps : (m : Moment) (u : User.User) → Keeps (Holds {R = R}) (t.issue_tokens m u)
    issue_tokens-Keeps m u = on_tokens-Keeps (Auth.issue_tokens cfg jwt backend m.1 u)

    refresh_tokens-Keeps :
        (m : Moment) (u : User.User) (token : Text)
        → Keeps (Holds {R = R}) (t.refresh_tokens m u token)
    refresh_tokens-Keeps m u token =
        on_tokens-Keeps (Auth.refresh_tokens cfg jwt backend m.0 m.1 u token)

    pub extract_user_id-Keeps :
        (m : Moment) (token : Text) → Keeps (Holds {R = R}) (t.extract_user_id m token)
    extract_user_id-Keeps m token = on_tokens-Keeps (Auth.extract_user_id cfg jwt m.0 token)

    sign_up-Keeps :
        (m : Moment) (now : Time) (id : Uuid) (salt : Text) (req : User.RegisterRequest)
        → Keeps (Holds {R = R}) (User.sign_up (users d) t v sanitize bcrypt m now id salt req)
    unfolding User.sign_up
    sign_up-Keeps m now id salt req = then-Keeps (check-Keeps (User.validate_register v req)) λ _.
        then-Keeps (attempt-Keeps (on_db-Keeps (get_by_email-Keeps stable d _))) λ existing.
          then-Keeps (fail_if-Keeps (User.is_taken existing) Error.duplicate_email) λ _.
            then-Keeps
              (or_nil-Keeps (Error.message (codes "bcrypt")) (bcrypt.generate salt req.password))
              λ hash. then-Keeps (on_db-Keeps (create_user-Keeps stable d _)) λ _.
                then-Keeps (issue_tokens-Keeps m (User.new_user now id hash req))
                  λ pair. record { keeps = λ s i. i }

    register-Keeps :
        (allow : Bool) (m : Moment) (now : Time) (id : Uuid) (salt : Text)
        (req : User.RegisterRequest)
        → Keeps
            (Holds {R = R})
            (User.register (users d) t v sanitize bcrypt allow m now id salt req)
    unfolding User.register
    register-Keeps allow m now id salt req =
        then-Keeps (fail_if-Keeps (not allow) Error.registration_disabled)
          λ _. sign_up-Keeps m now id salt _

    login-Keeps :
        (m : Moment) (now : Time) (req : User.LoginRequest)
        → Keeps (Holds {R = R}) (User.login (users d) t v sanitize bcrypt m now req)
    unfolding User.login User.open_session
    login-Keeps m now req =
        then-Keeps
          (check-Keeps
            (User.validate_login v (User.clean_login (users {R = R} d) t v sanitize bcrypt req)))
          λ _. then-Keeps (or_else-Keeps _ (on_db-Keeps (get_by_email-Keeps stable d _))) λ found.
            then-Keeps (or_nil-Keeps Error.invalid_creds found) λ user.
              then-Keeps
                (fail_if-Keeps (not (bcrypt.compare user.password_hash (trim_space req.password)))
                  Error.invalid_creds)
                λ _. then-Keeps (ignore-Keeps (on_db-Keeps (update_user-Keeps stable d _))) λ _.
                  then-Keeps
                    (issue_tokens-Keeps m
                      (User.logged_in (users {R = R} d) t v sanitize bcrypt now user))
                    λ pair. record { keeps = λ s i. i }

    refresh-Keeps :
        (m : Moment) (token : Text)
        → Keeps (Holds {R = R}) (User.refresh (users d) t v sanitize bcrypt m token)
    unfolding User.refresh
    refresh-Keeps m token =
        then-Keeps (or_else-Keeps Error.invalid_token (extract_user_id-Keeps m token)) λ user_id.
          then-Keeps (or_else-Keeps _ (on_db-Keeps (get_user-Keeps stable d _))) λ found.
            then-Keeps (or_nil-Keeps Error.invalid_token found) λ user.
              then-Keeps (or_else-Keeps Error.invalid_token (refresh_tokens-Keeps m user token))
                λ pair. record { keeps = λ s i. i }

    update_me-Keeps :
        (now : Time) (id : Uuid) (req : User.UpdateUserRequest)
        → Keeps (Holds {R = R}) (User.update_me (users d) t v sanitize bcrypt now id req)
    unfolding User.update_me
    update_me-Keeps now id req = then-Keeps (check-Keeps (User.validate_update v req)) λ _.
        then-Keeps (or_else-Keeps _ (on_db-Keeps (get_user-Keeps stable d _))) λ found.
          then-Keeps (or_nil-Keeps (Error.message (codes "nil pointer dereference")) found) λ user.
            then-Keeps (on_db-Keeps (update_user-Keeps stable d _)) λ _. record { keeps = λ s i. i }

    pub perform-keeps :
        (allow : Bool) (c : Call) (s : Server R)
        → Holds s
        → Holds (perform d t v sanitize bcrypt allow c s)
    unfolding perform User.get_me User.list
    perform-keeps allow (register m now id salt req) s i =
        (register-Keeps allow m now id salt req).keeps s i
    perform-keeps allow (login m now req) s i = (login-Keeps m now req).keeps s i
    perform-keeps allow (refresh m token) s i = (refresh-Keeps m token).keeps s i
    perform-keeps allow (get_me id) s i =
        (or_else-Keeps Error.user_not_found
            (on_db-Keeps {R = R} (get_user-Keeps stable d id))).keeps
          s i
    perform-keeps allow (update_me now id req) s i = (update_me-Keeps now id req).keeps s i
    perform-keeps allow (list f) s i = (on_db-Keeps {R = R} (list_users-Keeps stable d f)).keeps s i

    pub perform_all-keeps :
        (allow : Bool) (calls : List Call) (s : Server R)
        → Holds s
        → Holds (perform_all d t v sanitize bcrypt allow calls s)
    unfolding perform_all
    perform_all-keeps allow [] s i = i
    perform_all-keeps allow (c ∷ calls) s i =
        perform_all-keeps allow calls (perform d t v sanitize bcrypt allow c s)
          (perform-keeps allow c s i)
