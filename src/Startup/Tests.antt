-- ===== src/Startup/Tests.antt =====
-- Lives of the process.
use api_free_demo.Base.{◌≡◌, refl, true, none, some, [], ◌∷◌, codes}
use api_free_demo.Base.Outcome.{Error}
use api_free_demo.Strings
use api_free_demo.Config
use api_free_demo.Config.{Config, read_config}
use api_free_demo.Startup.{Luck, Step, main, run, listened, server_closed}

abbrev config : Config (Unit {0})
config = read_config (λ s. none) tt (λ k. [])

abbrev lucky : Luck (Unit {0})
lucky = record { config = some config; logger = true; db = true; redis = true; run = none }

main-run :
    main lucky
    ≡ Step.connect_db ∷ Step.connect_redis ∷ Step.serve ∷ Step.close_redis ∷ Step.close_db
      ∷ Step.flush_sentry ∷ Step.sync_logger ∷ []
unfolding main read_config Config.redis_config Config.getenv Strings.trim_space Strings.trim_left
    Strings.trim_right
main-run = refl

-- When the server fails, nothing that was opened is closed.
main-fatal :
    main (record lucky { run = some (Error.message (codes "address in use")) })
    ≡ Step.connect_db ∷ Step.connect_redis ∷ Step.serve ∷ Step.exit (codes "server error") ∷ []
unfolding main read_config Config.redis_config Config.getenv Strings.trim_space Strings.trim_left
    Strings.trim_right
main-fatal = refl

run-closed : run true (listened (some server_closed)) ≡ none
unfolding run
run-closed = refl
