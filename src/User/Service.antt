-- ===== src/User/Service.antt =====
-- internal/domain/user/service.go. A call takes the time, the identifier and the salt that it
-- reads.
use api_free_demo.Base.{
  ℕ, Bool, true, false, not, Option, none, some, List, Text, codes, pos, if◌then◌else◌,
}
use api_free_demo.Base.Outcome.{Error, ok, err, M, pure, fail, ◌>>=◌, ◌>>◌, check, fail_if, or_else}
use api_free_demo.Strings.{trim_space, to_lower}
use api_free_demo.Time.{Time}
use api_free_demo.Validation.{Validator, non_empty}
use api_free_demo.User.Model.{
  Uuid, User, RegisterRequest, LoginRequest, UpdateUserRequest, UserFilter, AuthTokens,
  AuthResponse, validate_register, validate_login, validate_update,
}
use api_free_demo.User.Interface.{Repository, TokenManager, Bcrypt}

-- `x, err := f()` where the error is looked at later
abbrev pub attempt : {S A : Type 0} → M S (Option A) → M S (Option A)
attempt m s = elim (m s) [ ok a s' ↦ ok a s' | err _ s' ↦ ok none s' ]

-- `_ = f()`
abbrev pub ignore : {S : Type 0} → M S (Unit {0}) → M S (Unit {0})
ignore m s = elim (m s) [ ok _ s' ↦ ok tt s' | err _ s' ↦ ok tt s' ]

-- `user == nil` is an error
abbrev pub or_nil : {S A : Type 0} → Error → Option A → M S A
or_nil e none = fail e
or_nil e (some a) = pure a

-- The dereference of a pointer
abbrev pub deref : {S A : Type 0} → Option A → M S A
deref = or_nil (Error.message (codes "nil pointer dereference"))

-- `existing != nil`
abbrev pub is_taken : {A : Type 0} → Option A → Bool
is_taken none = false
is_taken (some _) = true

abbrev pub image_of : Text → Option Text
image_of image = if non_empty image then some image else none

abbrev pub or_kept : {A : Type 0} → Option A → Option A → Option A
or_kept none old = old
or_kept (some a) old = some a

abbrev pub respond : User → AuthTokens → AuthResponse
respond u t = record { user = u; tokens = t }

-- The account of a registration
unfoldable pub new_user : Time → Uuid → Text → RegisterRequest → User
new_user now id hash req = record {
  id = id;
  email = to_lower req.email;
  name = req.name;
  password_hash = hash;
  profile_image = image_of req.profile_image;
  role = codes "user";
  refresh_version = pos 1;
  last_login_at = none;
  password_reset_at = none;
  last_password_hash = codes "";
  created_at = now;
  updated_at = now;
  deleted_at = none;
}

module _ {Moment S : Type 0} (repo : Repository S) (tokens : TokenManager Moment S) (v : Validator)
    (sanitize : Text → Text) (bcrypt : Bcrypt) where
  unfoldable pub clean_register : RegisterRequest → RegisterRequest
  clean_register req = record {
    email = trim_space req.email;
    password = trim_space req.password;
    name = trim_space (sanitize req.name);
    profile_image = req.profile_image;
  }

  -- `Register` after the switch and the cleaning of the request
  unfoldable pub sign_up : Moment → Time → Uuid → Text → RegisterRequest → M S AuthResponse
  sign_up m now id salt req = do
    check (validate_register v req)
    existing ← attempt (repo.get_by_email (to_lower req.email))
    fail_if (is_taken existing) Error.duplicate_email
    hash ← or_nil (Error.message (codes "bcrypt")) (bcrypt.generate salt req.password)
    repo.create (new_user now id hash req)
    pair ← tokens.issue_tokens m (new_user now id hash req)
    pure (respond (new_user now id hash req) pair)

  -- `Register`
  unfoldable pub register : Bool → Moment → Time → Uuid → Text → RegisterRequest → M S AuthResponse
  register allow_signup m now id salt req = do
    fail_if (not allow_signup) Error.registration_disabled
    sign_up m now id salt (clean_register req)

  unfoldable pub clean_login : LoginRequest → LoginRequest
  clean_login req = record { email = trim_space req.email; password = trim_space req.password }

  unfoldable pub logged_in : Time → User → User
  logged_in now u = record u { last_login_at = some now; updated_at = now }

  -- The end of `Login`: an error of the update is dropped.
  unfoldable pub open_session : Moment → Time → User → M S AuthResponse
  open_session m now u = do
    ignore (repo.update (logged_in now u))
    pair ← tokens.issue_tokens m (logged_in now u)
    pure (respond (logged_in now u) pair)

  -- `Login`
  unfoldable pub login : Moment → Time → LoginRequest → M S AuthResponse
  login m now req = do
    check (validate_login v (clean_login req))
    found ← or_else (repo.get_by_email (to_lower (trim_space req.email))) Error.invalid_creds
    user ← or_nil Error.invalid_creds found
    fail_if (not (bcrypt.compare user.password_hash (trim_space req.password))) Error.invalid_creds
    open_session m now user

  -- `Refresh`
  unfoldable pub refresh : Moment → Text → M S AuthResponse
  refresh m token = do
    user_id ← or_else (tokens.extract_user_id m token) Error.invalid_token
    found ← or_else (repo.get_by_id user_id) Error.invalid_token
    user ← or_nil Error.invalid_token found
    pair ← or_else (tokens.refresh_tokens m user token) Error.invalid_token
    pure (respond user pair)

  -- `GetMe`
  unfoldable pub get_me : Uuid → M S (Option User)
  get_me user_id = or_else (repo.get_by_id user_id) Error.user_not_found

  unfoldable pub edited : Time → UpdateUserRequest → User → User
  edited now req u = record u {
    name = trim_space (sanitize req.name);
    profile_image = or_kept req.profile_image u.profile_image;
    updated_at = now;
  }

  -- `UpdateMe`
  unfoldable pub update_me : Time → Uuid → UpdateUserRequest → M S User
  update_me now user_id req = do
    check (validate_update v req)
    found ← or_else (repo.get_by_id user_id) Error.user_not_found
    user ← deref found
    repo.update (edited now req user)
    pure (edited now req user)

  -- `List`
  unfoldable pub list : UserFilter → M S (List User × ℕ)
  list f = repo.list f
