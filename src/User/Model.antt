-- ===== src/User/Model.antt =====
-- The data of internal/domain/user/model.go, with the validation tags as a function of each
-- request.
use api_free_demo.Base.{ℕ, Option, ◌++◌, Text, codes, ℤ}
use api_free_demo.Base.Outcome.{Error}
use api_free_demo.Time.{Time}
use api_free_demo.Validation.{
  Validator, required_email, required_min, optional_url, pointer_url, verdict,
}

-- `uuid.UUID`; `uuid.Nil` is 0.
abbrev pub Uuid : Type 0
Uuid = ℕ

pub record User : Type 0 where
  pub id : Uuid
  pub email : Text
  pub name : Text
  pub password_hash : Text
  pub profile_image : Option Text
  pub role : Text
  pub refresh_version : ℤ
  pub last_login_at : Option Time
  pub password_reset_at : Option Time
  pub last_password_hash : Text
  pub created_at : Time
  pub updated_at : Time
  pub deleted_at : Option Time

pub record RegisterRequest : Type 0 where
  pub email : Text
  pub password : Text
  pub name : Text
  pub profile_image : Text

pub record LoginRequest : Type 0 where
  pub email : Text
  pub password : Text

pub record UpdateUserRequest : Type 0 where
  pub name : Text
  pub profile_image : Option Text

pub record UserFilter : Type 0 where
  pub search : Text
  pub limit : ℕ
  pub offset : ℕ
  pub sort : Text
  pub tenant_id : Uuid

pub record AuthTokens : Type 0 where
  pub access_token : Text
  pub refresh_token : Text
  pub expires_in : ℕ
  pub token_type : Text

pub record AuthResponse : Type 0 where
  pub user : User
  pub tokens : AuthTokens

-- The tags of `RegisterRequest`
unfoldable pub validate_register : Validator → RegisterRequest → Option Error
validate_register v r = verdict (
    required_email v (codes "Email") r.email
    ++ required_min (codes "Password") 8 r.password
    ++ required_min (codes "Name") 2 r.name
    ++ optional_url v (codes "ProfileImage") r.profile_image)

-- The tags of `LoginRequest`
unfoldable pub validate_login : Validator → LoginRequest → Option Error
validate_login v r =
    verdict
      (required_email v (codes "Email") r.email ++ required_min (codes "Password") 8 r.password)

-- The tags of `UpdateUserRequest`
unfoldable pub validate_update : Validator → UpdateUserRequest → Option Error
validate_update v r =
    verdict
      (required_min (codes "Name") 2 r.name ++ pointer_url v (codes "ProfileImage") r.profile_image)
