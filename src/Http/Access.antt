-- ===== src/Http/Access.antt =====
-- Who passes the guards of the routes.
use api_free_demo.Base.{
  ◌≡◌, refl, sym, ap, Bool, true, false, not, Option, none, some, Text, codes, text_eq, text_eq_iff,
  if◌then◌else◌, [], ◌∷◌,
}
use api_free_demo.Base.Outcome.{Error, Outcome, ok, err, resume, fail_if}
use api_free_demo.Base.Triple.{Ends}
use api_free_demo.Time.{Time}
use api_free_demo.Auth.{Claims, AuthConfig, Jwt, parse, parse_access_token, verified_claims}
use api_free_demo.Auth.Checks.{IsAccepted}
use api_free_demo.Http.{
  Context, next, stop, extract_bearer, with_claims, admitted, authenticate, auth_middleware,
  admin_only, then_guard, forbidden_reply,
}

-- A token that the manager accepts for access
abbrev pub Accepts : AuthConfig → Jwt → Time → Text → Claims → Type 0
Accepts cfg jwt now token claims = IsAccepted cfg jwt now token cfg.access_secret claims

module _ (cfg : AuthConfig) (jwt : Jwt) (now : Time) (token : Text) where
  parse-IsAccepted :
      (secret : Text)
      → Ends
          (λ claims s. IsAccepted cfg jwt now token secret claims)
          (λ e s. Unit {0})
          (parse cfg jwt now token secret tt)
  unfolding parse
  parse-IsAccepted secret = by_header (jwt.is_hmac token) refl (jwt.verified token secret now) refl
    where
      Read : Claims → Unit {0} → Type 0
      Read claims s = IsAccepted cfg jwt now token secret claims

      by_version :
          (claims : Claims) (b : Bool)
          → text_eq claims.secret_ver cfg.secret_version ≡ b
          → jwt.is_hmac token ≡ true
          → jwt.verified token secret now ≡ some claims
          → Ends Read
              (λ e s. Unit {0})
              (resume
                (λ _ s. ok claims s)
                (fail_if (not b) (Error.message (codes "token version mismatch")) tt))
      by_version claims true e h k = record {
        hmac = h;
        verified = k;
        current = (text_eq_iff _ _).0 e;
      }
      by_version claims false e h k = tt

      by_header :
          (b : Bool)
          → jwt.is_hmac token ≡ b
          → (o : Option Claims) → jwt.verified token secret now ≡ o
          → Ends Read
              (λ e s. Unit {0})
              (resume
                (λ _ s.
                  resume
                    (λ claims s'.
                      resume
                        (λ _ s''. ok claims s'')
                        (fail_if
                          (not (text_eq claims.secret_ver cfg.secret_version))
                          (Error.message (codes "token version mismatch"))
                          s'))
                    (verified_claims o s))
                (fail_if (not b) (Error.message (codes "unexpected signing method")) tt))
      by_header false h o k = tt
      by_header true h none k = tt
      by_header true h (some claims) k = by_version claims _ refl h k

IsGrant : AuthConfig → Jwt → Time → Text → Context → Context → Type 0
IsGrant cfg jwt now token c c' =
    (claims : Claims) × Accepts cfg jwt now token claims
    × (claims.role ≡ codes "admin")
    × (c' ≡ with_claims c claims)

next-eq : (a b : Context) → next a ≡ next b → a ≡ b
next-eq a b e = ap (λ p. elim p [ next x ↦ x | stop r ↦ a ]) e

stop-next : (r : _) (c : Context) → stop r ≡ next c → ⊥
stop-next r c e = cc

admin_passes :
    (cfg : AuthConfig) (jwt : Jwt) (now : Time) (token : Text) (c c' : Context)
    (o : Outcome (Unit {0}) Claims)
    → Ends (λ claims s. Accepts cfg jwt now token claims) (λ e s. Unit {0}) o
    → then_guard (admitted c o) admin_only ≡ next c'
    → IsGrant cfg jwt now token c c'
unfolding admin_only IsGrant
admin_passes cfg jwt now token c c' (err e s) h k = absurd (stop-next _ c' k)
admin_passes cfg jwt now token c c' (ok claims s) h k =
    go (text_eq claims.role (codes "admin")) refl k
  where
    go :
        (b : Bool)
        → text_eq claims.role (codes "admin") ≡ b
        → (if b then next (with_claims c claims) else stop (forbidden_reply (codes "admin only")))
          ≡ next c'
        → (claims : Claims) × Accepts cfg jwt now token claims
          × (claims.role ≡ codes "admin")
          × (c' ≡ with_claims c claims)
    go true e p = (claims, h, (text_eq_iff _ _).0 e, sym (next-eq _ _ p))
    go false e p = absurd (stop-next _ c' p)

-- A request passes the guards of the admin routes only with a bearer token whose signature under
-- the access secret, header, times and secret version are good, and whose claims have the role
-- `admin`; then the context has the user and the role of those claims.
pub admin_route_guarded :
    (cfg : AuthConfig) (jwt : Jwt) (now : Time) (header : Text) (c c' : Context)
    → then_guard (auth_middleware cfg jwt now header c) admin_only ≡ next c'
    → (claims : Claims) × Accepts cfg jwt now (extract_bearer header) claims
      × (claims.role ≡ codes "admin")
      × (c' ≡ with_claims c claims)
unfolding auth_middleware parse_access_token IsGrant
admin_route_guarded cfg jwt now header c c' e = go (extract_bearer header) e
  where
    go :
        (token : Text)
        → then_guard (authenticate cfg jwt now token c) admin_only ≡ next c'
        → (claims : Claims) × Accepts cfg jwt now token claims
          × (claims.role ≡ codes "admin")
          × (c' ≡ with_claims c claims)
    go [] k = absurd (stop-next _ c' k)
    go (t ∷ token) k =
        admin_passes cfg jwt now (t ∷ token) c c' _
          (parse-IsAccepted cfg jwt now (t ∷ token) cfg.access_secret) k
