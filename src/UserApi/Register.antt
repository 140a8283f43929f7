-- ===== src/UserApi/Register.antt =====
-- What `Register` stores, and when it refuses.
use api_free_demo.Base.{◌≡◌, ◌⊎◌, some, Text, codes, pos}
use api_free_demo.Base.Outcome.{Error, Outcome}
use api_free_demo.Base.Triple.{Triple}
use api_free_demo.Strings.{trim_space, to_lower}
use api_free_demo.Time.{Time}
use api_free_demo.Validation.{Validator}
use api_free_demo.User
use api_free_demo.User.{
  Uuid, User, RegisterRequest, AuthResponse, TokenManager, Bcrypt, clean_register,
}
use api_free_demo.Auth
use api_free_demo.Auth.{AuthConfig, Jwt, Backend}
use api_free_demo.Db.{Db, Driver}
use api_free_demo.UserApi.{Server, Moment, users, jwt_manager}
use api_free_demo.UserApi.Insertions.{SameRows, Added}

-- The account that a registration asks for: the address in lower case, the plain role, the hash
-- of the trimmed password, and the first version.
pub record IsAccountOf (bcrypt : Bcrypt) (salt : Text) (id : Uuid) (req : RegisterRequest)
    (u : User) : Type 0 where
  pub same_id : u.id ≡ id
  pub lower_email : u.email ≡ to_lower (trim_space req.email)
  pub plain_role : u.role ≡ codes "user"
  pub first_version : u.refresh_version ≡ pos 1
  pub hashed : bcrypt.generate salt (trim_space req.password) ≡ some u.password_hash

module _ {R : Type 0} (start : Server R) where
  abbrev Same : Server R → Type 0
  Same s = SameRows start.db s.db

  module _ (d : Driver) (cfg : AuthConfig) (jwt : Jwt) (backend : Backend R) (v : Validator)
      (sanitize : Text → Text) (bcrypt : Bcrypt) (salt : Text) (id : Uuid)
      (req : RegisterRequest) where
    abbrev t : TokenManager Moment (Server R)
    t = jwt_manager cfg jwt backend

    -- The account stands in the table.
    abbrev pub Stored : User → Server R → Type 0
    Stored u s = IsAccountOf bcrypt salt id req u × Added start.db d u s.db

    -- After an error nothing is stored, unless the issuing of tokens failed behind the insertion.
    abbrev pub Left : Error → Server R → Type 0
    Left e s = Same s ⊎ ((u : User) × Stored u s)

    abbrev cleaned : RegisterRequest
    cleaned = clean_register (users {R = R} d) t v sanitize bcrypt req
