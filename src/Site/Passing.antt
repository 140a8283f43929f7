-- ===== src/Site/Passing.antt =====
-- What the guards in front of a handler let pass.
use api_free_demo.Base.{
  ◌≡◌, ◌≢◌, refl, sym, ap, ◌∙◌, ◌⊎◌, inl, inr, Bool, true, false, ◌&&◌, Option, none, some, [], ◌∷◌,
  Text, arith,
}
use api_free_demo.Base
use api_free_demo.Base.Outcome.{Outcome, ok, err}
use api_free_demo.Time.{Time}
use api_free_demo.Auth.{AuthConfig, Jwt, Claims, parse_access_token}
use api_free_demo.Http.{
  Context, Passage, next, stop, then_guard, extract_bearer, auth_middleware, authenticate, admitted,
  with_claims, noted, note, optional_auth, too_many_requests, unauthorized, rate_limit, admin_only,
}
use api_free_demo.Http.Reply.{Reply}
use api_free_demo.Http.Limits.{denied, rate_limit_stops}
use api_free_demo.Site.{
  App, Request, Reads, note_caller, require_caller, guard, user, admin, ask_limits, limits, timed,
}

pub reply_of : (reply : Reply) → stop reply ≡ stop too_many_requests → reply ≡ too_many_requests
reply_of reply e = cc

-- `OptionalAuth` stops no request.
optional_auth-passes :
    (cfg : AuthConfig) (jwt : Jwt) (now : Time) (header : Text) (c : Context)
    → (c' : Context) × (optional_auth cfg jwt now header c ≡ next c')
unfolding optional_auth
optional_auth-passes cfg jwt now header c = by_token (extract_bearer header)
  where
    by_outcome : (o : Outcome (Unit {0}) Claims) → (c' : Context) × (noted c o ≡ next c')
    by_outcome (ok claims s) = (with_claims c claims, refl)
    by_outcome (err e s) = (c, refl)

    by_token : (t : Text) → (c' : Context) × (note cfg jwt now t c ≡ next c')
    by_token [] = (c, refl)
    by_token (t ∷ token) = by_outcome (parse_access_token cfg jwt now (t ∷ token) tt)

pub note_caller-passes :
    (m : Option (AuthConfig × Jwt)) (now : Time) (header : Text) (c : Context)
    → (c' : Context) × (note_caller m now header c ≡ next c')
note_caller-passes none now header c = (c, refl)
note_caller-passes (some (cfg, jwt)) now header c = optional_auth-passes cfg jwt now header c

-- The claims that a manager reads from the bearer token of a header
abbrev pub Bears : AuthConfig → Jwt → Time → Text → Claims → Type 0
Bears cfg jwt now header claims =
    parse_access_token cfg jwt now (extract_bearer header) tt ≡ ok claims tt

-- Behind `AuthMiddleware` the context is that of the claims of the token; a request without a good
-- token is answered 401.
pub data Checked (cfg : AuthConfig) (jwt : Jwt) (now : Time) (header : Text) (c : Context)
    : Passage → Type 0 where
  passes :
      (claims : Claims)
      → Bears cfg jwt now header claims
      → Checked cfg jwt now header c (next (with_claims c claims))
  stops : (message : Text) → Checked cfg jwt now header c (stop (unauthorized message))

pub auth_middleware-Checked :
    (cfg : AuthConfig) (jwt : Jwt) (now : Time) (header : Text) (c : Context)
    → Checked cfg jwt now header c (auth_middleware cfg jwt now header c)
unfolding auth_middleware
auth_middleware-Checked cfg jwt now header c = by_token (extract_bearer header) refl
  where
    by_outcome :
        (o : Outcome (Unit {0}) Claims)
        → parse_access_token cfg jwt now (extract_bearer header) tt ≡ o
        → Checked cfg jwt now header c (admitted c o)
    by_outcome (ok claims s) e = passes claims e
    by_outcome (err x s) e = stops _

    by_token :
        (t : Text)
        → extract_bearer header ≡ t
        → Checked cfg jwt now header c (authenticate cfg jwt now t c)
    by_token [] e = stops _
    by_token (t ∷ token) e =
        by_outcome (parse_access_token cfg jwt now (t ∷ token) tt)
          (ap (λ b. parse_access_token cfg jwt now b tt) e)

module _ {F R L : Type 0} (a : App F R L) where
  -- Whether the limits, if they are on, deny the request of a caller
  abbrev pub over_limit : Reads → Request → Context → L → Bool
  over_limit r req c l =
      limits a.config
      && denied a.uuids.text (timed r.ip_at a.ip_limiter) (timed r.user_at a.user_limiter)
          req.client_ip c l

  -- The limits stop a request that they deny, with the answer 429, and no other.
  pub ask_limits-stops :
      (r : Reads) (req : Request) (c : Context) (l : L)
      → ((over_limit r req c l ≡ false) × ((ask_limits a r req c l).0 ≡ next c))
        ⊎ ((over_limit r req c l ≡ true) × ((ask_limits a r req c l).0 ≡ stop too_many_requests))
  ask_limits-stops r req c l = by_switch (limits a.config)
    where
      limiting : Passage × L
      limiting =
          rate_limit a.uuids.text (timed r.ip_at a.ip_limiter) (timed r.user_at a.user_limiter)
            req.client_ip c l

      deny : Bool
      deny =
          denied a.uuids.text (timed r.ip_at a.ip_limiter) (timed r.user_at a.user_limiter)
            req.client_ip c l

      by_switch :
          (b : Bool)
          → (((b && deny) ≡ false) × ((Base.if◌then◌else◌ b limiting (next c, l)).0 ≡ next c))
            ⊎ (((b && deny) ≡ true)
                × ((Base.if◌then◌else◌ b limiting (next c, l)).0 ≡ stop too_many_requests))
      by_switch false = inl (refl, refl)
      by_switch true =
          rate_limit_stops a.uuids.text (timed r.ip_at a.ip_limiter)
            (timed r.user_at a.user_limiter) req.client_ip c l

  -- The guards of the routes of users and of admins, where there is a manager
  module _ (cfg : AuthConfig) (jwt : Jwt) (managed : a.manager ≡ some (cfg, jwt)) (r : Reads)
      (header : Text) (c : Context) where
    pub guard-user : guard a r header user c ≡ auth_middleware cfg jwt r.guarded_at header c
    unfolding guard
    guard-user = ap (λ m. require_caller m r.guarded_at header c) managed

    pub guard-admin :
        guard a r header admin c
        ≡ then_guard (auth_middleware cfg jwt r.guarded_at header c) admin_only
    unfolding guard
    guard-admin = ap (λ m. then_guard (require_caller m r.guarded_at header c) admin_only) managed
