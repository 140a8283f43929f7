-- ===== src/Config/Load.antt =====
-- `Load` and `validate` of internal/config/config.go.
use api_free_demo.Base.{
  ℕ, Bool, true, false, ◌||◌, ◌⊎◌, inl, inr, Option, none, some, [], ◌∷◌, ◌++◌, Text, codes,
  text_eq, pos, times, if◌then◌else◌,
}
use api_free_demo.Base.Outcome.{Error}
use api_free_demo.Strings.{to_lower}
use api_free_demo.Time.{minute}
use api_free_demo.Config.Model.{
  AppConfig, DatabaseConfig, RedisConfig, AuthConfig, RateLimitConfig, CorsConfig, SecurityConfig,
  MonitoringConfig, DiagnosticsConfig, Config,
}
use api_free_demo.Config.Read.{Env, getenv, get_int, get_bool, get_float, split_and_trim}

abbrev pub hour : ℕ
hour = 3600000000000

abbrev pub default_hosts : Text
default_hosts = codes "api.kidpech.app,api.twentcode.com"

abbrev pub default_origins : Text
default_origins =
    codes
      "http://localhost:3000,http://localhost:5173,http://localhost:8080,https://dev.kidpech.app"

unfoldable pub app_config : Env → AppConfig
app_config env = record {
  name = getenv env (codes "APP_NAME") (codes "kidpech-demo-api");
  env = getenv env (codes "APP_ENV") (codes "development");
  version = getenv env (codes "APP_VERSION") (codes "0.1.0");
  port = getenv env (codes "PORT") (codes "8080");
  base_url = getenv env (codes "BASE_URL") (codes "http://localhost:8080");
  allowed_hosts = split_and_trim (getenv env (codes "ALLOWED_HOSTS") default_hosts);
  allowed_origins = split_and_trim (getenv env (codes "CORS_ORIGINS") default_origins);
  cloudflare_hosts = split_and_trim (getenv env (codes "CLOUDFLARE_HOSTS") default_hosts);
}

unfoldable pub database_config : Env → DatabaseConfig
database_config env = record {
  driver = to_lower (getenv env (codes "DB_DRIVER") (codes "postgres"));
  dsn =
      getenv env (codes "DB_DSN")
        (codes "postgres://postgres:postgres@db:5432/demo_db?sslmode=disable");
  read_only_dsn = getenv env (codes "DB_READ_DSN") [];
  max_open_conns = get_int env (codes "DB_MAX_OPEN") (pos 25);
  max_idle_conns = get_int env (codes "DB_MAX_IDLE") (pos 10);
  conn_max_lifetime = times minute (get_int env (codes "DB_CONN_MAX_LIFETIME_MIN") (pos 30));
  auto_migrate = get_bool env (codes "DB_AUTO_MIGRATE") true;
  prefer_simple_prot = get_bool env (codes "DB_PREFER_SIMPLE") true;
}

unfoldable pub redis_config : Env → RedisConfig
redis_config env = record {
  addr = getenv env (codes "REDIS_ADDR") (codes "redis:6379");
  username = getenv env (codes "REDIS_USER") [];
  password = getenv env (codes "REDIS_PASSWORD") [];
  db = get_int env (codes "REDIS_DB") (pos 0);
  tls = get_bool env (codes "REDIS_TLS") false;
}

-- The secret that both kinds of tokens fall back on
unfoldable pub shared_secret : Env → Text
shared_secret env = getenv env (codes "JWT_SECRET") (codes "change-me")

unfoldable pub auth_config : Env → AuthConfig
auth_config env = record {
  access_secret = getenv env (codes "JWT_ACCESS_SECRET") (shared_secret env);
  refresh_secret = getenv env (codes "JWT_REFRESH_SECRET") (shared_secret env);
  access_token_ttl = times minute (get_int env (codes "JWT_ACCESS_EXP_MIN") (pos 15));
  refresh_token_ttl = times hour (get_int env (codes "JWT_REFRESH_EXP_HOURS") (pos 24));
  token_issuer = getenv env (codes "JWT_ISSUER") (codes "kidpech.app");
  secret_version = getenv env (codes "JWT_SECRET_VERSION") (codes "v1");
  oauth_redirect_url = getenv env (codes "OAUTH_REDIRECT_URL") [];
  oauth_google_client_id = getenv env (codes "OAUTH_GOOGLE_CLIENT_ID") [];
}

unfoldable pub rate_limit_config : Env → RateLimitConfig
rate_limit_config env = record {
  enabled = get_bool env (codes "RATE_LIMIT_ENABLED") true;
  requests_per_minute = get_int env (codes "RATE_LIMIT_PER_MIN") (pos 60);
  burst = get_int env (codes "RATE_LIMIT_BURST") (pos 5);
  redis_prefix = getenv env (codes "RATE_LIMIT_PREFIX") (codes "ratelimit");
}

unfoldable pub cors_config : Env → CorsConfig
cors_config env = record {
  allowed_origins = split_and_trim (getenv env (codes "CORS_ORIGINS") default_origins);
  allowed_methods =
      split_and_trim
        (getenv env (codes "CORS_METHODS") (codes "GET,POST,PUT,PATCH,DELETE,OPTIONS"));
  allowed_headers = split_and_trim (
      getenv env (codes "CORS_HEADERS")
        (codes "Authorization,Content-Type,Accept,X-Requested-With"));
  allow_credentials = get_bool env (codes "CORS_ALLOW_CREDENTIALS") true;
}

unfoldable pub security_config : Env → SecurityConfig
security_config env = record {
  allow_registration = get_bool env (codes "ALLOW_REGISTRATION") true;
  bcrypt_cost = get_int env (codes "BCRYPT_COST") (pos 12);
}

unfoldable pub diagnostics_config : Env → DiagnosticsConfig
diagnostics_config env = record {
  enable_debug_logs = get_bool env (codes "ENABLE_DEBUG_LOGS") false;
  max_log_lines = get_int env (codes "DEBUG_LOG_LIMIT") (pos 200);
}

abbrev pub is_empty : Text → Bool
is_empty [] = true
is_empty (_ ∷ _) = false

abbrev pub is_supported : Text → Bool
is_supported driver = text_eq driver (codes "postgres") || text_eq driver (codes "mysql")

abbrev pub no_secrets : Error
no_secrets = Error.message (codes "jwt secrets must be provided")

abbrev pub unsupported : Text → Error
unsupported driver = Error.message (codes "unsupported db driver " ++ driver)

-- The floating-point numbers: `strconv.ParseFloat`, and the literal 0.2
module _ {F : Type 0} (parse_float : Text → Option F) (one_fifth : F) where
  unfoldable pub monitoring_config : Env → MonitoringConfig F
  monitoring_config env = record {
    prometheus_enabled = get_bool env (codes "PROMETHEUS_ENABLED") true;
    sentry_dsn = getenv env (codes "SENTRY_DSN") [];
    sentry_sample_rate = get_float parse_float env (codes "SENTRY_SAMPLE_RATE") one_fifth;
  }

  -- The literal of `Load`
  unfoldable pub read_config : Env → Config F
  read_config env = record {
    app = app_config env;
    database = database_config env;
    redis = redis_config env;
    auth = auth_config env;
    rate_limit = rate_limit_config env;
    cors = cors_config env;
    security = security_config env;
    monitoring = monitoring_config env;
    diagnostics = diagnostics_config env;
  }

  -- `validate`; `none` is `nil`.
  unfoldable pub validate : Config F → Option Error
  validate c =
      if is_empty c.auth.access_secret || is_empty c.auth.refresh_secret
      then some no_secrets
      else if is_supported c.database.driver
      then none
      else some (unsupported c.database.driver)

  abbrev pub or_refused : Config F → Option Error → Config F ⊎ Error
  or_refused c none = inl c
  or_refused c (some e) = inr e

  -- `Load`
  unfoldable pub load : Env → Config F ⊎ Error
  unfolding read_config validate
  load env = or_refused (read_config env) (validate (read_config env))
