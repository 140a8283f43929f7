-- ===== src/Config/Tests.antt =====
-- Configurations read from small environments.
use api_free_demo.Base.{
  ◌≡◌, ◌≢◌, refl, ◌⊎◌, inl, inr, Bool, true, false, Option, none, some, [], ◌∷◌, ◌++◌, Text, codes,
  text_eq, ℤ, pos, negsuc, if◌then◌else◌,
}
use api_free_demo.Base
use api_free_demo.Base.Outcome.{ok}
use api_free_demo.Strings
use api_free_demo.Strings.Atoi
use api_free_demo.Auth.{parse_access_token, refresh_claims}
use api_free_demo.Auth.Sample.{
  cfg, toy, toy-JwtLaws, at_first, ada, no_tokens, holding, pair_of, issue-run, early_refresh,
}
use api_free_demo.Config
use api_free_demo.Config.{
  Env, Config, getenv, get_int, get_bool, split_and_trim, join, load, read_config, database_config,
  unsupported,
}
use api_free_demo.Config.Valid.{IsUsable, load_refuses_drivers_only}
use api_free_demo.Config.Lists.{split_and_trim-join}
use api_free_demo.Config.Secrets.{default_secrets_confuse}

-- An environment with one variable
abbrev only : Text → Text → Env
only key value = λ k. if text_eq k key then value else []

abbrev no_floats : Text → Option (Unit {0})
no_floats s = none

get_int-run : get_int (only (codes "BURST") (codes " -12 ")) (codes "BURST") (pos 5) ≡ negsuc 11
unfolding get_int Strings.Atoi.atoi Strings.digits_from Base.text_eq Strings.trim_space
    Strings.trim_left Strings.trim_right Strings.is_space
get_int-run = refl

get_int-bad : get_int (only (codes "BURST") (codes "many")) (codes "BURST") (pos 5) ≡ pos 5
unfolding get_int Strings.Atoi.atoi Strings.digits_from Base.text_eq Strings.trim_space
    Strings.trim_left Strings.trim_right Strings.is_space
get_int-bad = refl

get_bool-run : get_bool (only (codes "TLS") (codes "T")) (codes "TLS") false ≡ true
unfolding get_bool Strings.Atoi.parse_bool Base.text_eq Strings.trim_space Strings.trim_left
    Strings.trim_right Strings.is_space
get_bool-run = refl

times-wraps : Base.times 60000000000 (pos 200000000) ≡ negsuc 6446744073709551615
unfolding Base.times
times-wraps = refl

split_and_trim-run : split_and_trim (codes " a,, b ,c") ≡ codes "a" ∷ codes "b" ∷ codes "c" ∷ []
unfolding split_and_trim Strings.trim_space Strings.trim_left Strings.trim_right Strings.is_space
split_and_trim-run = refl

split_and_trim-join_example :
    split_and_trim (join (codes ", ") (split_and_trim (codes " GET,, PUT ")))
    ≡ split_and_trim (codes " GET,, PUT ")
split_and_trim-join_example = split_and_trim-join (codes " GET,, PUT ")

abbrev sqlite : Env
sqlite = only (codes "DB_DRIVER") (codes "sqlite")

load_refuses_drivers_only_example :
    ((load no_floats tt sqlite ≡ inl (read_config no_floats tt sqlite))
      × IsUsable (read_config no_floats tt sqlite))
    ⊎ ((load no_floats tt sqlite ≡ inr (unsupported (database_config sqlite).driver))
        × ((database_config sqlite).driver ≢ codes "postgres")
        × ((database_config sqlite).driver ≢ codes "mysql"))
load_refuses_drivers_only_example = load_refuses_drivers_only no_floats tt sqlite

-- Only the shared secret is set.
abbrev shared : Env
shared = only (codes "JWT_SECRET") (codes " k ")

abbrev loaded : Config (Unit {0})
loaded = read_config no_floats tt shared

loaded-run : load no_floats tt shared ≡ inl loaded
unfolding load read_config Config.validate Config.auth_config Config.shared_secret database_config
    getenv Base.text_eq Strings.trim_space Strings.trim_left Strings.trim_right Strings.is_space
    Strings.to_lower Strings.lower_rune
loaded-run = refl

no_access : Strings.trim_space (shared (codes "JWT_ACCESS_SECRET")) ≡ []
unfolding Base.text_eq Strings.trim_space Strings.trim_left Strings.trim_right Strings.is_space
no_access = refl

no_refresh : Strings.trim_space (shared (codes "JWT_REFRESH_SECRET")) ≡ []
unfolding Base.text_eq Strings.trim_space Strings.trim_left Strings.trim_right Strings.is_space
no_refresh = refl

same_access : cfg.access_secret ≡ loaded.auth.access_secret
unfolding read_config Config.auth_config Config.shared_secret getenv Base.text_eq Strings.trim_space
    Strings.trim_left Strings.trim_right Strings.is_space
same_access = refl

same_refresh : cfg.refresh_secret ≡ loaded.auth.refresh_secret
unfolding read_config Config.auth_config Config.shared_secret getenv Base.text_eq Strings.trim_space
    Strings.trim_left Strings.trim_right Strings.is_space
same_refresh = refl

default_secrets_confuse_example :
    parse_access_token cfg toy 5 (pair_of at_first).refresh_token tt
    ≡ ok (refresh_claims cfg toy at_first ada) tt
default_secrets_confuse_example =
    default_secrets_confuse no_floats tt shared loaded cfg toy toy-JwtLaws 5 at_first ada no_tokens
      (holding at_first) (pair_of at_first) tt loaded-run no_access no_refresh same_access
      same_refresh issue-run early_refresh
