-- ===== src/Site/Tests.antt =====
-- Requests to a small server.
use api_free_demo.Base.{
  ℕ, zero, suc, ◌≡◌, ◌≢◌, refl, ap, inl, inr, Bool, true, false, Option, none, some, List, [], ◌∷◌,
  ◌++◌, Text, codes, text_eq, pos, if◌then◌else◌, arith,
}
use api_free_demo.Base
use api_free_demo.Base.Outcome.{Outcome, ok, err}
use api_free_demo.Strings
use api_free_demo.Profile
use api_free_demo.User.{Bcrypt}
use api_free_demo.Db
use api_free_demo.Auth
use api_free_demo.Auth.{AuthConfig, Jwt, Claims, memory, parse_access_token}
use api_free_demo.ProfileApi.Sample.{driver, validator, policy, person, tables, names}
use api_free_demo.ProfileApi.Isolation.{rows_of}
use api_free_demo.Config
use api_free_demo.Config.{Config, read_config}
use api_free_demo.Diagnostics
use api_free_demo.Http
use api_free_demo.Http.{Allow, extract_bearer}
use api_free_demo.Http.Answer
use api_free_demo.Http.Answer.{Answer, status_of}
use api_free_demo.Http.ProfileHandler
use api_free_demo.Http.ProfileHandler.{Uuids}
use api_free_demo.Site
use api_free_demo.Site.{
  App, Site, Request, Reads, Endpoint, serve, serve_all, create, delete, get_me, health,
}
use api_free_demo.Site.Isolation.{serve_all_isolates}
use api_free_demo.Site.Anonymous.{IsRefusal, tokenless_refused}

abbrev cfg : AuthConfig
cfg = record {
  access_secret = codes "k";
  refresh_secret = codes "l";
  access_token_ttl = 900000000000;
  refresh_token_ttl = 604800000000000;
  token_issuer = codes "api";
  secret_version = codes "v1";
}

abbrev ada : Claims
ada = record {
  user_id = 1;
  role = codes "user";
  secret_ver = codes "v1";
  token_type = codes "access";
  issuer = codes "api";
  subject = codes "1";
  expires_at = 100;
  issued_at = 0;
  id = codes "a1";
}

-- One token is good.
abbrev toy : Jwt
toy = record {
  sign = λ k c. none;
  is_hmac = λ t. true;
  verified = λ t k now. if text_eq t (codes "ada") then some ada else none;
  uuid_text = λ u. u ∷ [];
}

abbrev bcrypt : Bcrypt
bcrypt = record {
  generate = λ salt password. some (salt ++ password);
  compare = λ hash password. true;
}

-- An identifier is written as one letter.
abbrev uuids : Uuids
uuids = record { parse = λ s. elim s [ [] ↦ none | c ∷ rest ↦ some c ]; text = λ u. u ∷ [] }

-- It admits as many requests as its state tells.
abbrev counter : Allow ℕ
counter key zero =
    ok (record { allowed = false; limit = Base.pos 2; remaining = pos 0; reset = 60 }) 0
counter key (suc n) =
    ok (record { allowed = true; limit = Base.pos 2; remaining = pos n; reset = 60 }) n

abbrev config : Config (Unit {0})
config = read_config (λ s. none) tt (λ k. [])

abbrev app : App (Unit {0}) (Unit {0}) ℕ
app = record {
  config = some config;
  manager = some (cfg, toy);
  ip_limiter = some (λ now. counter);
  user_limiter = none;
  driver = driver;
  validator = validator;
  policy = policy;
  sanitize = λ s. s;
  bcrypt = bcrypt;
  allow_signup = true;
  auth = cfg;
  jwt = toy;
  backend = memory;
  uuids = uuids;
  message_of = λ e. codes "error";
}

abbrev site : Site (Unit {0}) ℕ
site = record {
  server = record { db = tables; tokens = record { memory_tokens = []; remote = tt } };
  limiters = 2;
  journal = record { lines = []; buffer = Diagnostics.new_log_buffer (pos 2); observed = [] };
}

abbrev reads : Reads
reads = record {
  fresh_request_id = codes "r1";
  noted_at = 5;
  ip_at = 5;
  user_at = 5;
  guarded_at = 5;
  logged_at = 5;
  sources = record { now = λ n. 9; new_id = λ n. 30 };
  moment = (5, record { access_time = 5; access_id = []; refresh_time = 5; refresh_id = [] });
  user_now = 5;
  user_id = 3;
  salt = [];
}

abbrev request : Text → Text → Option Endpoint → Request
request method authorization endpoint = record {
  method = method;
  path = codes "/api/v1/profiles";
  client_ip = codes "::1";
  authorization = authorization;
  origin = [];
  request_id = [];
  endpoint = endpoint;
}

abbrev creation : Request
creation = request (codes "POST") (codes "Bearer ada") (some (create (inl names)))

abbrev preflight : Request
preflight = request (codes "OPTIONS") [] none

abbrev nameless : Request
nameless = request (codes "POST") (codes "Bearer eve") (some (create (inl names)))

abbrev created : Profile.Profile
created = record (person 30 1) {
  first_name = codes "Bea";
  last_name = codes "M";
  created_at = 9;
  updated_at = 9;
}

creation-status : status_of (serve app reads creation site).0.answer ≡ 201
unfolding serve read_config Config.rate_limit_config Config.get_bool Http.optional_auth
    Http.auth_middleware Http.rate_limit Http.user_id_from_context Http.must_user_id
    Auth.parse_access_token Auth.parse ProfileHandler.create Profile.create Profile.validate_create
    Profile.create_failures Profile.assign_optional_fields Profile.new_profile
    Profile.sanitize_field Db.create Db.statement Db.insert_refusal Http.Answer.answered
    Base.text_eq Strings.trim_space Strings.trim_left Strings.trim_right Strings.is_space
    Strings.to_lower Strings.lower_rune
creation-status = refl

preflight-status : status_of (serve app reads preflight site).0.answer ≡ 204
unfolding serve Base.text_eq
preflight-status = refl

health-path : Site.full_path health ≡ codes "/api/v1/health"
unfolding Site.full_path
health-path = refl

accepted_by : Outcome (Unit {0}) Claims → Option ℕ
accepted_by (ok claims s) = some claims.user_id
accepted_by (err e s) = none

ada_accepted :
    accepted_by (parse_access_token cfg toy 5 (extract_bearer (codes "Bearer ada")) tt) ≡ some 1
unfolding accepted_by Auth.parse_access_token Auth.parse extract_bearer Base.text_eq
    Strings.trim_space Strings.trim_left Strings.trim_right Strings.is_space Strings.to_lower
    Strings.lower_rune
ada_accepted = refl

eve_refused :
    accepted_by (parse_access_token cfg toy 5 (extract_bearer (codes "Bearer eve")) tt) ≡ none
unfolding accepted_by Auth.parse_access_token Auth.parse extract_bearer Base.text_eq
    Strings.trim_space Strings.trim_left Strings.trim_right Strings.is_space Strings.to_lower
    Strings.lower_rune
eve_refused = refl

ada_other :
    (claims : Claims)
    → parse_access_token cfg toy 5 (extract_bearer (codes "Bearer ada")) tt ≡ ok claims tt
    → claims.user_id ≢ 2
unfolding accepted_by
ada_other claims e = ground (arith, ada_accepted, ap accepted_by e)

eve_tokenless :
    (claims : Claims)
    → ¬ (parse_access_token cfg toy 5 (extract_bearer (codes "Bearer eve")) tt ≡ ok claims tt)
unfolding accepted_by
eve_tokenless claims e = ground (arith, eve_refused, ap accepted_by e)

serve_all_isolates_example :
    rows_of 2 (serve_all app ((reads, creation) ∷ []) site).server.db.profiles
    ≡ rows_of 2 site.server.db.profiles
serve_all_isolates_example =
    serve_all_isolates app cfg toy refl 2 ((reads, creation) ∷ []) site (ada_other, tt)

private_creation : Site.access_of (create (inl names)) ≢ Site.anyone
unfolding Site.access_of
private_creation e = cc

tokenless_refused_example :
    IsRefusal (status_of (serve app reads nameless site).0.answer)
    × ((serve app reads nameless site).1.server ≡ site.server)
tokenless_refused_example =
    tokenless_refused app cfg toy refl reads nameless eve_tokenless (create (inl names)) refl
      private_creation site
