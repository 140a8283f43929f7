-- ===== src/Site/Model.antt =====
-- Requests, what the server is made of, and its state.
use api_free_demo.Base.{Bool, Option, Text}
use api_free_demo.Base.Outcome.{Error}
use api_free_demo.Time.{Time}
use api_free_demo.Validation.{Validator}
use api_free_demo.Profile.{Uuid, Policy}
use api_free_demo.User.{Bcrypt}
use api_free_demo.Db.{Driver}
use api_free_demo.Auth.{AuthConfig, Jwt, Backend}
use api_free_demo.UserApi.{Server, Moment}
use api_free_demo.Config.{Config}
use api_free_demo.Http.{Allow}
use api_free_demo.Http.Answer.{Answer}
use api_free_demo.Http.Middleware.{Headers, Journal}
use api_free_demo.Http.ProfileHandler.{Uuids, Sources}
use api_free_demo.Site.Routes.{Endpoint}

pub record Request : Type 0 where
  pub method : Text
  pub path : Text
  pub client_ip : Text
  pub authorization : Text
  pub origin : Text
  pub request_id : Text
  pub endpoint : Option Endpoint

-- What serving a request reads of the clock and of random sources
pub record Reads : Type 0 where
  pub fresh_request_id : Text
  pub noted_at : Time
  pub ip_at : Time
  pub user_at : Time
  pub guarded_at : Time
  pub logged_at : Time
  pub sources : Sources
  pub moment : Moment
  pub user_now : Time
  pub user_id : Uuid
  pub salt : Text

-- What `main` and `NewRouter` are given. The manager is that of `RouterDeps`, which may be `nil`;
-- `auth`, `jwt` and `backend` are those of the token manager of the user service. A limiter reads
-- the time of its call.
pub record App (F R L : Type 0) : Type 0 where
  pub config : Option (Config F)
  pub manager : Option (AuthConfig × Jwt)
  pub ip_limiter : Option (Time → Allow L)
  pub user_limiter : Option (Time → Allow L)
  pub driver : Driver
  pub validator : Validator
  pub policy : Policy
  pub sanitize : Text → Text
  pub bcrypt : Bcrypt
  pub allow_signup : Bool
  pub auth : AuthConfig
  pub jwt : Jwt
  pub backend : Backend R
  pub uuids : Uuids
  pub message_of : Error → Text

-- The state of the server: the tables and the tokens, what the limiters keep, and the journal
pub record Site (R L : Type 0) : Type 0 where
  pub server : Server R
  pub limiters : L
  pub journal : Journal

pub record Response : Type 0 where
  pub answer : Answer
  pub headers : Headers
