-- ===== src/Config/Model.antt =====
-- The configuration tree of internal/config/config.go. Durations are in nanoseconds; the type of
-- floating-point numbers is a parameter.
use api_free_demo.Base.{Bool, List, Text, ℤ}

pub record AppConfig : Type 0 where
  pub name : Text
  pub env : Text
  pub version : Text
  pub port : Text
  pub base_url : Text
  pub allowed_hosts : List Text
  pub allowed_origins : List Text
  pub cloudflare_hosts : List Text

pub record DatabaseConfig : Type 0 where
  pub driver : Text
  pub dsn : Text
  pub read_only_dsn : Text
  pub max_open_conns : ℤ
  pub max_idle_conns : ℤ
  pub conn_max_lifetime : ℤ
  pub auto_migrate : Bool
  pub prefer_simple_prot : Bool

pub record RedisConfig : Type 0 where
  pub addr : Text
  pub username : Text
  pub password : Text
  pub db : ℤ
  pub tls : Bool

pub record AuthConfig : Type 0 where
  pub access_secret : Text
  pub refresh_secret : Text
  pub access_token_ttl : ℤ
  pub refresh_token_ttl : ℤ
  pub token_issuer : Text
  pub secret_version : Text
  pub oauth_redirect_url : Text
  pub oauth_google_client_id : Text

pub record RateLimitConfig : Type 0 where
  pub enabled : Bool
  pub requests_per_minute : ℤ
  pub burst : ℤ
  pub redis_prefix : Text

pub record CorsConfig : Type 0 where
  pub allowed_origins : List Text
  pub allowed_methods : List Text
  pub allowed_headers : List Text
  pub allow_credentials : Bool

pub record SecurityConfig : Type 0 where
  pub allow_registration : Bool
  pub bcrypt_cost : ℤ

pub record MonitoringConfig (F : Type 0) : Type 0 where
  pub prometheus_enabled : Bool
  pub sentry_dsn : Text
  pub sentry_sample_rate : F

pub record DiagnosticsConfig : Type 0 where
  pub enable_debug_logs : Bool
  pub max_log_lines : ℤ

pub record Config (F : Type 0) : Type 0 where
  pub app : AppConfig
  pub database : DatabaseConfig
  pub redis : RedisConfig
  pub auth : AuthConfig
  pub rate_limit : RateLimitConfig
  pub cors : CorsConfig
  pub security : SecurityConfig
  pub monitoring : MonitoringConfig F
  pub diagnostics : DiagnosticsConfig
