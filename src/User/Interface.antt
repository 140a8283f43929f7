-- ===== src/User/Interface.antt =====
-- What the user service asks for: the repository of internal/domain/user/repository.go and the
-- token manager of internal/domain/user/service.go, and the password hashes of bcrypt.
use api_free_demo.Base.{ℕ, Bool, Option, List, Text}
use api_free_demo.Base.Outcome.{M}
use api_free_demo.User.Model.{Uuid, User, UserFilter, AuthTokens}

-- A pointer that may be nil is an option.
pub record Repository (S : Type 0) : Type 0 where
  pub create : User → M S (Unit {0})
  pub update : User → M S (Unit {0})
  pub get_by_email : Text → M S (Option User)
  pub get_by_id : Uuid → M S (Option User)
  pub list : UserFilter → M S (List User × ℕ)

-- `Moment` is what the implementation reads of clocks and random numbers.
pub record TokenManager (Moment S : Type 0) : Type 0 where
  pub issue_tokens : Moment → User → M S AuthTokens
  pub refresh_tokens : Moment → User → Text → M S AuthTokens
  pub extract_user_id : Moment → Text → M S Uuid

-- `GenerateFromPassword` at the default cost with a salt (`none`: it refuses the password), and
-- whether `CompareHashAndPassword` accepts
pub record Bcrypt : Type 0 where
  pub generate : Text → Text → Option Text
  pub compare : Text → Text → Bool
