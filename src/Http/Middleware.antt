-- ===== src/Http/Middleware.antt =====
-- The middleware of internal/app/middleware that decides nothing about callers: request ids
-- (request_id.go), CORS (cors.go) and the log of requests (logging.go, with the counter of
-- internal/infrastructure/monitoring/metrics.go). The latency of a request is not modelled.
use api_free_demo.Base.{
  ℕ, Bool, true, false, not, ◌||◌, List, [], ◌∷◌, ◌++◌, Text, codes, text_eq, any, if◌then◌else◌,
}
use api_free_demo.Strings.Decimal.{decimal}
use api_free_demo.Time.{Time}
use api_free_demo.Time.Rfc3339.{format_rfc3339}
use api_free_demo.Validation.{non_empty}
use api_free_demo.Config.{CorsConfig, join}
use api_free_demo.Diagnostics.{LogBuffer, append}

abbrev pub Headers : Type 0
Headers = List (Text × Text)

-- The identifier of `RequestID`: that of the request, or a fresh one
abbrev pub request_id : Text → Text → Text
request_id [] fresh = fresh
request_id (c ∷ s) fresh = c ∷ s

-- Whether an origin is allowed: it is listed, or no origin is.
abbrev pub allows_origin : CorsConfig → Text → Bool
allows_origin cfg origin =
    any (text_eq origin) cfg.allowed_origins || not (non_empty cfg.allowed_origins)

abbrev pub credentials : Bool → Headers
credentials true = (codes "Access-Control-Allow-Credentials", codes "true") ∷ []
credentials false = []

abbrev pub origin_headers : CorsConfig → Text → Headers
origin_headers cfg [] = []
origin_headers cfg (c ∷ s) =
    if allows_origin cfg (c ∷ s)
    then (codes "Access-Control-Allow-Origin", c ∷ s)
      ∷ (codes "Vary", codes "Origin")
      ∷ credentials cfg.allow_credentials
    else []

-- The headers that `CORS` sets
unfoldable pub cors_headers : CorsConfig → Text → Headers
unfolding join
cors_headers cfg origin =
    origin_headers cfg origin
    ++ ((codes "Access-Control-Allow-Methods", join (codes ", ") cfg.allowed_methods)
        ∷ (codes "Access-Control-Allow-Headers", join (codes ", ") cfg.allowed_headers)
        ∷ [])

-- `CORS` answers a preflight itself.
abbrev pub is_preflight : Text → Bool
is_preflight method = text_eq method (codes "OPTIONS")

-- A line of the logger
pub record Line : Type 0 where
  pub id : Text
  pub method : Text
  pub path : Text
  pub status : ℕ

-- The labels of one increment of the counter `http_requests_total`
pub record Observation : Type 0 where
  pub path : Text
  pub method : Text
  pub status : Text

-- `path`: that of the route, or that of the URL where no route has matched
abbrev pub path_of : Text → Text → Text
path_of [] url = url
path_of (c ∷ s) url = c ∷ s

-- The entry for the buffer
unfoldable pub entry : Time → Line → Text
entry now line =
    format_rfc3339 now
    ++ (codes " "
        ++ (line.method ++ (codes " " ++ (line.path ++ (codes " -> " ++ decimal line.status)))))

-- What `RequestLogger` keeps: the lines of the logger, the buffer, and the counter
pub record Journal : Type 0 where
  pub lines : List Line
  pub buffer : LogBuffer
  pub observed : List Observation

-- `RequestLogger` after `c.Next()`
unfoldable pub log_request : Time → Line → Journal → Journal
log_request now line j = record {
  lines = j.lines ++ line ∷ [];
  buffer = append (entry now line) j.buffer;
  observed =
      j.observed
      ++ record { path = line.path; method = line.method; status = decimal line.status } ∷ [];
}
