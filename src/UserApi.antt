-- ===== src/UserApi.antt =====
-- The user service on the sqlx repository and the JWT manager, as cmd/api/main.go wires them.
pub mod Keeps
pub mod Statements
pub mod Calls
pub mod Accounts
pub mod Insertions
pub mod Register
pub mod Sessions
pub mod Taken
pub mod Logins
pub mod Sample
mod Tests
use api_free_demo.Base.{ℕ, Bool, List, [], ◌∷◌, Text}
use api_free_demo.Base.Outcome.{Outcome, ok, err, M, state_of}
use api_free_demo.Time.{Time}
use api_free_demo.Validation.{Validator}
use api_free_demo.User
use api_free_demo.User.{
  Uuid, RegisterRequest, LoginRequest, UpdateUserRequest, UserFilter, Repository, TokenManager,
  Bcrypt,
}
use api_free_demo.Db.{Db, Driver, user_repository}
use api_free_demo.Auth
use api_free_demo.Auth.{AuthConfig, Jwt, Backend, Tokens}

-- The state behind the service: the tables, and the store of refresh tokens
pub record Server (R : Type 0) : Type 0 where
  pub db : Db
  pub tokens : Tokens R

abbrev pub with_db : {R A : Type 0} → Server R → Outcome Db A → Outcome (Server R) A
with_db s (ok a db) = ok a (record s { db = db })
with_db s (err e db) = err e (record s { db = db })

abbrev pub on_db : {R A : Type 0} → M Db A → M (Server R) A
on_db m s = with_db s (m s.db)

abbrev pub with_tokens : {R A : Type 0} → Server R → Outcome (Tokens R) A → Outcome (Server R) A
with_tokens s (ok a t) = ok a (record s { tokens = t })
with_tokens s (err e t) = err e (record s { tokens = t })

abbrev pub on_tokens : {R A : Type 0} → M (Tokens R) A → M (Server R) A
on_tokens m s = with_tokens s (m s.tokens)

abbrev pub on_server : {R : Type 0} → Repository Db → Repository (Server R)
on_server repo = record {
  create = λ u. on_db (repo.create u);
  update = λ u. on_db (repo.update u);
  get_by_email = λ email. on_db (repo.get_by_email email);
  get_by_id = λ id. on_db (repo.get_by_id id);
  list = λ f. on_db (repo.list f);
}

abbrev pub users : {R : Type 0} → Driver → Repository (Server R)
users d = on_server (user_repository d)

-- What the token manager reads in a call: the time of the check, and the readings of the pair
abbrev pub Moment : Type 0
Moment = Time × Auth.Readings

abbrev pub jwt_manager :
    {R : Type 0} → AuthConfig → Jwt → Backend R → TokenManager Moment (Server R)
jwt_manager cfg jwt backend = record {
  issue_tokens = λ m u. on_tokens (Auth.issue_tokens cfg jwt backend m.1 u);
  refresh_tokens = λ m u token. on_tokens (Auth.refresh_tokens cfg jwt backend m.0 m.1 u token);
  extract_user_id = λ m token. on_tokens (Auth.extract_user_id cfg jwt m.0 token);
}

-- A call of the service, with what it reads
pub data Call : Type 0 where
  register : Moment → Time → Uuid → Text → RegisterRequest → Call
  login : Moment → Time → LoginRequest → Call
  refresh : Moment → Text → Call
  get_me : Uuid → Call
  update_me : Time → Uuid → UpdateUserRequest → Call
  list : UserFilter → Call

module _ {R : Type 0} (d : Driver) (tokens : TokenManager Moment (Server R)) (v : Validator)
    (sanitize : Text → Text) (bcrypt : Bcrypt) (allow_signup : Bool) where
  -- The state after a call, whatever the call returns
  unfoldable pub perform : Call → Server R → Server R
  perform (register m now id salt req) s =
      state_of (User.register (users d) tokens v sanitize bcrypt allow_signup m now id salt req s)
  perform (login m now req) s = state_of (User.login (users d) tokens v sanitize bcrypt m now req s)
  perform (refresh m token) s = state_of (User.refresh (users d) tokens v sanitize bcrypt m token s)
  perform (get_me id) s = state_of (User.get_me (users d) tokens v sanitize bcrypt id s)
  perform (update_me now id req) s =
      state_of (User.update_me (users d) tokens v sanitize bcrypt now id req s)
  perform (list f) s = state_of (User.list (users d) tokens v sanitize bcrypt f s)

  unfoldable pub perform_all : List Call → Server R → Server R
  unfolding perform
  perform_all [] s = s
  perform_all (c ∷ calls) s = perform_all calls (perform c s)
