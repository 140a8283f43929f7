-- ===== src/Http/Guards.antt =====
-- The middleware of internal/app/middleware: bearer tokens, the admin guard and the rate limits.
-- A guard passes a request on with its context, or answers it and aborts.
use api_free_demo.Base.{
  Bool, true, false, Option, none, some, [], ◌∷◌, ◌++◌, Text, codes, text_eq, ◌==◌, if◌then◌else◌,
}
use api_free_demo.Base.Outcome.{Outcome, ok, err, M}
use api_free_demo.Strings.{trim_space, to_lower}
use api_free_demo.Time.{Time}
use api_free_demo.User.{Uuid}
use api_free_demo.Auth.{Claims, AuthConfig, Jwt, parse_access_token}
use api_free_demo.RateLimit.{RateLimitInfo}
use api_free_demo.Http.Reply.{Reply, unauthorized, forbidden_reply, too_many_requests}

-- `user_id` and `user_role` of the gin context
pub record Context : Type 0 where
  pub user_id : Option Uuid
  pub user_role : Option Text

pub data Passage : Type 0 where
  next : Context → Passage
  stop : Reply → Passage

-- `strings.SplitN(header, " ", 2)`: `none` where there is no space
unfoldable pub split_space : Text → Option (Text × Text)
split_space [] = none
split_space (c ∷ s) =
    if c == b' '
    then some ([], s)
    else elim (split_space s) [ none ↦ none | some p ↦ some (c ∷ p.0, p.1) ]

abbrev pub bearer_of : Option (Text × Text) → Text
bearer_of none = []
bearer_of (some (scheme, rest)) =
    if text_eq (to_lower scheme) (codes "bearer") then trim_space rest else []

-- `extractBearer`
unfoldable pub extract_bearer : Text → Text
unfolding split_space
extract_bearer header = bearer_of (split_space header)

abbrev pub with_claims : Context → Claims → Context
with_claims c claims = record c { user_id = some claims.user_id; user_role = some claims.role }

abbrev pub admitted : Context → Outcome (Unit {0}) Claims → Passage
admitted c (ok claims s) = next (with_claims c claims)
admitted c (err e s) = stop (unauthorized (codes "invalid token"))

abbrev pub noted : Context → Outcome (Unit {0}) Claims → Passage
noted c (ok claims s) = next (with_claims c claims)
noted c (err e s) = next c

module _ (cfg : AuthConfig) (jwt : Jwt) where
  abbrev pub authenticate : Time → Text → Context → Passage
  authenticate now [] c = stop (unauthorized (codes "missing bearer token"))
  authenticate now (t ∷ token) c = admitted c (parse_access_token cfg jwt now (t ∷ token) tt)

  -- `AuthMiddleware`
  unfoldable pub auth_middleware : Time → Text → Context → Passage
  unfolding extract_bearer
  auth_middleware now header c = authenticate now (extract_bearer header) c

  abbrev pub note : Time → Text → Context → Passage
  note now [] c = next c
  note now (t ∷ token) c = noted c (parse_access_token cfg jwt now (t ∷ token) tt)

  -- `OptionalAuth`
  unfoldable pub optional_auth : Time → Text → Context → Passage
  unfolding extract_bearer
  optional_auth now header c = note now (extract_bearer header) c

abbrev pub has_role : Text → Option Text → Bool
has_role role none = false
has_role role (some r) = text_eq r role

-- `AdminOnly`
unfoldable pub admin_only : Context → Passage
admin_only c =
    if has_role (codes "admin") c.user_role
    then next c
    else stop (forbidden_reply (codes "admin only"))

-- One guard after another
abbrev pub then_guard : Passage → (Context → Passage) → Passage
then_guard (next c) guard = guard c
then_guard (stop r) guard = stop r

-- `MustUserID`: the identifier of the request, or `uuid.Nil` and an answer
unfoldable pub must_user_id : Context → Uuid × Option Reply
must_user_id c = elim c.user_id [
  | none ↦ (0, some (unauthorized (codes "missing user context")))
  | some id ↦ (id, none)
]

-- `UserIDFromContext`, with the text of an identifier
unfoldable pub user_id_from_context : (Uuid → Text) → Context → Text
user_id_from_context text c = elim c.user_id [ none ↦ [] | some id ↦ text id ]

-- A limiter over a state: `Limiter`
abbrev pub Allow : Type 0 → Type 0
Allow S = Text → M S RateLimitInfo

-- Whether a limiter lets the request pass: only a denial stops it, an error does not.
abbrev pub verdict_of : {S : Type 0} → Outcome S RateLimitInfo → Bool × S
verdict_of (ok info s) = (info.allowed, s)
verdict_of (err e s) = (true, s)

-- A limiter that may be missing, asked for a key that may be empty
abbrev pub ask : {S : Type 0} → Option (Allow S) → Text → Text → S → Bool × S
ask none label name s = (true, s)
ask (some allow) label [] s = (true, s)
ask (some allow) label (c ∷ name) s = verdict_of (allow (label ++ c ∷ name) s)

abbrev pub ask_ip : {S : Type 0} → Option (Allow S) → Text → S → Bool × S
ask_ip none name s = (true, s)
ask_ip (some allow) name s = verdict_of (allow (codes "ip:" ++ name) s)

abbrev pub limited : {S : Type 0} → Context → Bool × S → Passage × S
limited c (true, s) = (next c, s)
limited c (false, s) = (stop too_many_requests, s)

abbrev pub and_then : {S : Type 0} → Bool × S → (S → Bool × S) → Bool × S
and_then (true, s) f = f s
and_then (false, s) f = (false, s)

-- `RateLimit`: the limiter of the address, then that of the user
unfoldable pub rate_limit :
    {S : Type 0}
    → (Uuid → Text)
    → Option (Allow S)
    → Option (Allow S)
    → Text
    → Context
    → S
    → Passage × S
unfolding user_id_from_context
rate_limit text ip_limiter user_limiter client_ip c s = limited c (
    and_then (ask_ip ip_limiter client_ip s)
      (ask user_limiter (codes "user:") (user_id_from_context text c)))
