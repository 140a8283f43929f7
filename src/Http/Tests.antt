-- ===== src/Http/Tests.antt =====
-- Requests at the guards.
use api_free_demo.Base.{
  ℕ, ◌≡◌, ◌≤◌, ◌<◌, ◌*◌, ◌/◌, ◌⊎◌, refl, Bool, true, false, Option, none, some, List, [], ◌∷◌, ◌++◌,
  Text, codes, text_eq, arith, if◌then◌else◌, pos,
}
use api_free_demo.Base
use api_free_demo.Strings
use api_free_demo.Base.Outcome.{ok}
use api_free_demo.Auth
use api_free_demo.Auth.{Claims, AuthConfig, Jwt}
use api_free_demo.Http
use api_free_demo.Http.{
  Context, next, stop, Allow, extract_bearer, auth_middleware, admin_only, then_guard, with_claims,
  get_limit, rate_limit, too_many_requests,
}
use api_free_demo.Http.Access.{Accepts, admin_route_guarded}
use api_free_demo.Time.{second}
use api_free_demo.Profile.{Profile}
use api_free_demo.Db.{selected}
use api_free_demo.ProfileApi.Sample.{person}
use api_free_demo.Http.ProfileHandler.{Query, filter_of, next_cursor}
use api_free_demo.Http.Cursor.{next_page_skips_second}
use api_free_demo.Http.Limits.{denied, get_limit_bounds, rate_limit_stops}

abbrev cfg : AuthConfig
cfg = record {
  access_secret = codes "k";
  refresh_secret = codes "l";
  access_token_ttl = 900000000000;
  refresh_token_ttl = 604800000000000;
  token_issuer = codes "api";
  secret_version = codes "v1";
}

abbrev root : Claims
root = record {
  user_id = 1;
  role = codes "admin";
  secret_ver = codes "v1";
  token_type = codes "access";
  issuer = codes "api";
  subject = codes "1";
  expires_at = 100;
  issued_at = 0;
  id = codes "a1";
}

-- One token is good.
abbrev toy : Jwt
toy = record {
  sign = λ k c. none;
  is_hmac = λ t. true;
  verified = λ t k now. if text_eq t (codes "root") then some root else none;
  uuid_text = λ u. u ∷ [];
}

abbrev anonymous : Context
anonymous = record { user_id = none; user_role = none }

admin-run :
    then_guard (auth_middleware cfg toy 5 (codes "bearer root") anonymous) admin_only
    ≡ next (with_claims anonymous root)
unfolding auth_middleware extract_bearer Http.split_space admin_only Auth.parse_access_token
    Auth.parse Base.text_eq Strings.to_lower Strings.lower_rune Strings.trim_space Strings.trim_left
    Strings.trim_right Strings.is_space
admin-run = refl

admin_route_guarded_example :
    (claims : Claims) × Accepts cfg toy 5 (extract_bearer (codes "bearer root")) claims
    × (claims.role ≡ codes "admin")
    × (with_claims anonymous root ≡ with_claims anonymous claims)
admin_route_guarded_example =
    admin_route_guarded cfg toy 5 (codes "bearer root") anonymous (with_claims anonymous root)
      admin-run

get_limit_bounds_example :
    (1 ≤ get_limit 20 100 (codes "1000")) × (get_limit 20 100 (codes "1000") ≤ 100)
get_limit_bounds_example = get_limit_bounds 20 100 (codes "1000") (omega arith) (omega arith)

-- It admits as many requests as its state tells.
abbrev counter : Allow ℕ
counter key Base.zero =
    ok (record { allowed = false; limit = pos 2; remaining = pos 0; reset = 60 }) 0
counter key (Base.suc n) =
    ok (record { allowed = true; limit = pos 2; remaining = pos n; reset = 60 }) n

rate_limit_stops_example :
    ((denied (λ u. codes "u") (some counter) none (codes "::1") anonymous 0 ≡ false)
      × ((rate_limit (λ u. codes "u") (some counter) none (codes "::1") anonymous 0).0
          ≡ next anonymous))
    ⊎ ((denied (λ u. codes "u") (some counter) none (codes "::1") anonymous 0 ≡ true)
        × ((rate_limit (λ u. codes "u") (some counter) none (codes "::1") anonymous 0).0
            ≡ stop too_many_requests))
rate_limit_stops_example =
    rate_limit_stops (λ u. codes "u") (some counter) none (codes "::1") anonymous 0

-- A row that was created within the second of the last one, and the query for the next page
abbrev second_page : Query
second_page = record {
  search = [];
  limit = [];
  offset = [];
  cursor = next_cursor (person 10 1 ∷ []);
  hard = [];
  version = [];
  sort = none;
}

next_page_skips_second_example :
    ((filter_of 1 second_page).cursor_time ≡ some ((person 10 1).created_at / second * second))
    × ((row : Profile)
        → selected (filter_of 1 second_page) row ≡ true
        → row.created_at < (person 10 1).created_at / second * second)
next_page_skips_second_example =
    next_page_skips_second 1 second_page [] (person 10 1) (omega arith) refl
