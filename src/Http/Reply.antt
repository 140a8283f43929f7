-- ===== src/Http/Reply.antt =====
-- The answers of pkg/response/response.go, and the tables from errors to answers of the two
-- handlers.
use api_free_demo.Base.{ℕ, Option, none, some, List, [], ◌∷◌, ◌++◌, Text, codes, map}
use api_free_demo.Base.Outcome.{Error}
use api_free_demo.Strings.{to_lower}

-- `ErrorResponse` with its status; the details are a map of fields to rules.
pub record Reply : Type 0 where
  pub status : ℕ
  pub error : Text
  pub message : Text
  pub details : Option (List (Text × Text))

abbrev pub reply : ℕ → Text → Text → Reply
reply status error message = record {
  status = status;
  error = error;
  message = message;
  details = none;
}

-- `ValidationError`: the details only for an error of the validator
unfoldable pub validation_error : Error → Reply
validation_error (Error.validation fields) = record {
  status = 400;
  error = codes "validation_error";
  message = codes "invalid request";
  details = some (map {A = Text × Text} {B = Text × Text} (λ f. (to_lower f.0, f.1)) fields);
}
validation_error _ = reply 400 (codes "validation_error") (codes "invalid request")

-- `Unauthorized`
abbrev pub unauthorized : Text → Reply
unauthorized message = reply 401 (codes "unauthorized") message

-- `Forbidden`
abbrev pub forbidden_reply : Text → Reply
forbidden_reply message = reply 403 (codes "forbidden") message

-- `NotFound`
abbrev pub not_found : Text → Reply
not_found [] = reply 404 (codes "not_found") (codes "resource not found")
not_found (c ∷ s) = reply 404 (codes "not_found") ((c ∷ s) ++ codes " not found")

-- `Conflict`
abbrev pub conflict : Text → Text → Reply
conflict code message = reply 409 code message

-- `TooManyRequests`
abbrev pub too_many_requests : Reply
too_many_requests = reply 429 (codes "rate_limited") (codes "slow down")

-- `InternalServerError`
abbrev pub internal_server_error : Reply
internal_server_error = reply 500 (codes "internal_error") (codes "unexpected error")

-- `handleError` of the user handler
unfoldable pub user_error : Error → Reply
user_error Error.duplicate_email =
    conflict (codes "duplicate_email") (codes "email already registered")
user_error Error.invalid_creds = unauthorized (codes "invalid credentials")
user_error Error.registration_disabled = forbidden_reply (codes "registration disabled")
user_error Error.forbidden = forbidden_reply (codes "forbidden")
user_error Error.user_not_found = not_found (codes "user")
user_error Error.invalid_token = unauthorized (codes "invalid token")
user_error _ = internal_server_error

-- `handleError` of the profile handler
unfoldable pub profile_error : Error → Reply
profile_error Error.profile_not_found = not_found (codes "profile")
profile_error Error.profile_forbidden = forbidden_reply (codes "forbidden")
profile_error Error.version_conflict =
    conflict (codes "version_conflict") (codes "profile updated elsewhere")
profile_error _ = internal_server_error

-- `SerializeErrors`: `none` is the `nil` list; `message_of` is `err.Error()`.
unfoldable pub serialize_errors : (Error → Text) → List (Option Error) → Option (List Text)
serialize_errors message_of [] = none
serialize_errors message_of (e ∷ es) = some (map text (e ∷ es))
  where
    text : Option Error → Text
    text none = []
    text (some x) = message_of x
