-- ===== src/Startup.antt =====
-- The life of the process: `main` of cmd/api/main.go, `Server.Run` of internal/app/server.go and
-- `InitSentry` of internal/infrastructure/monitoring/sentry.go. What the calls return is an
-- argument; what `main` does is the list of its calls in order.
mod Tests
use api_free_demo.Base.{
  Bool, true, false, Option, none, some, List, [], ◌∷◌, ◌++◌, Text, codes, text_eq, ℤ,
  if◌then◌else◌,
}
use api_free_demo.Base.Outcome.{Error}
use api_free_demo.Config.{RateLimitConfig, MonitoringConfig, Config}

-- What `ListenAndServe` fails with
pub data ServeError : Type 0 where
  server_closed : ServeError
  failure : Text → ServeError

-- What ends the `select`: `ListenAndServe` has returned, or the context is done and `Shutdown` has
-- returned.
pub data Ending : Type 0 where
  listened : Option ServeError → Ending
  cancelled : Option Error → Ending

-- `Run`, with or without an engine; `none` is `nil`.
unfoldable pub run : Bool → Ending → Option Error
run false ending = some (Error.message (codes "engine not configured"))
run true (cancelled result) = result
run true (listened none) = none
run true (listened (some server_closed)) = none
run true (listened (some (failure text))) = some (Error.message text)

-- `InitSentry`, given what `sentry.Init` returns
unfoldable pub init_sentry : {F : Type 0} → MonitoringConfig F → Option Error → Option Error
init_sentry cfg init = elim cfg.sentry_dsn [ [] ↦ none | _ ∷ _ ↦ init ]

-- The limiters that `main` makes
pub data LimiterChoice : Type 0 where
  redis : (limit : ℤ) (prefix : Text) → LimiterChoice
  memory : (limit burst : ℤ) → LimiterChoice

-- The limiter of addresses and that of users; `none`: both are `nil`.
unfoldable pub limiters_of : RateLimitConfig → Bool → Option (LimiterChoice × LimiterChoice)
limiters_of cfg has_redis =
    if cfg.enabled
    then some (
        if has_redis
        then (
          redis cfg.requests_per_minute (cfg.redis_prefix ++ codes ":ip"),
          redis cfg.requests_per_minute (cfg.redis_prefix ++ codes ":user"),
        )
        else (memory cfg.requests_per_minute cfg.burst, memory cfg.requests_per_minute cfg.burst))
    else none

-- The calls of `main` that reach outside; `exit` is that of a fatal log line, which runs no
-- deferred call.
pub data Step : Type 0 where
  exit : Text → Step
  connect_db connect_redis warn_redis serve : Step
  close_redis close_db flush_sentry sync_logger : Step

-- Which of the calls succeed
pub record Luck (F : Type 0) : Type 0 where
  pub config : Option (Config F)
  pub logger : Bool
  pub db : Bool
  pub redis : Bool
  pub run : Option Error

-- `server.Run`, and the deferred calls where it returns no error
abbrev pub finish : Option Error → List Step → List Step
finish none deferred = serve ∷ deferred
finish (some e) deferred = serve ∷ exit (codes "server error") ∷ []

abbrev pub after_redis : Option Error → Bool → Bool → List Step
after_redis result false reached = finish result (close_db ∷ flush_sentry ∷ sync_logger ∷ [])
after_redis result true true =
    connect_redis ∷ finish result (close_redis ∷ close_db ∷ flush_sentry ∷ sync_logger ∷ [])
after_redis result true false =
    connect_redis ∷ warn_redis ∷ finish result (close_db ∷ flush_sentry ∷ sync_logger ∷ [])

-- `cfg.Redis.Addr != ""`
abbrev pub wants_redis : {F : Type 0} → Config F → Bool
wants_redis cfg = elim cfg.redis.addr [ [] ↦ false | _ ∷ _ ↦ true ]

abbrev pub configured : {F : Type 0} → Luck F → Option (Config F) → List Step
configured l none = exit (codes "load config") ∷ []
configured l (some cfg) =
    if l.logger
    then connect_db
      ∷ (if l.db
          then after_redis l.run (wants_redis cfg) l.redis
          else exit (codes "db connect failed") ∷ [])
    else exit (codes "init logger") ∷ []

-- `main`
unfoldable pub main : {F : Type 0} → Luck F → List Step
main l = configured l l.config
