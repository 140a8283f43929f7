-- ===== src/Config/Valid.antt =====
-- What `Load` accepts.
use api_free_demo.Base.{
  ◌≡◌, ◌≢◌, refl, true, false, ◌⊎◌, inl, inr, Option, [], ◌∷◌, Text, codes, text_eq, text_eq_iff,
  arith, Bool-cases,
}
use api_free_demo.Config.{
  Env, Config, getenv, or_default, is_empty, is_supported, unsupported, shared_secret, auth_config,
  database_config, read_config, validate, load,
}

or_default-is_empty : (s def : Text) → is_empty def ≡ false → is_empty (or_default s def) ≡ false
or_default-is_empty [] def h = h
or_default-is_empty (c ∷ s) def h = refl

-- A variable with a default is never empty.
pub getenv-is_empty :
    (env : Env) (key def : Text) → is_empty def ≡ false → is_empty (getenv env key def) ≡ false
unfolding getenv
getenv-is_empty env key def h = or_default-is_empty _ def h

shared_secret-is_empty : (env : Env) → is_empty (shared_secret env) ≡ false
unfolding shared_secret
shared_secret-is_empty env = getenv-is_empty env (codes "JWT_SECRET") (codes "change-me") refl

-- The configuration can be used: two secrets, and a driver that is known.
pub record IsUsable {F : Type 0} (c : Config F) : Type 0 where
  pub has_access_secret : c.auth.access_secret ≢ []
  pub has_refresh_secret : c.auth.refresh_secret ≢ []
  pub has_driver : (c.database.driver ≡ codes "postgres") ⊎ (c.database.driver ≡ codes "mysql")

not_empty : (s : Text) → is_empty s ≡ false → s ≢ []
not_empty [] h = absurd (ground (arith, h))
not_empty (c ∷ s) h = λ e. absurd (ground (arith, e))

known_driver :
    (driver : Text)
    → is_supported driver ≡ true
    → (driver ≡ codes "postgres") ⊎ (driver ≡ codes "mysql")
known_driver driver h = elim (Bool-cases (text_eq driver (codes "postgres"))) [
  | inl pg ↦ inl ((text_eq_iff driver (codes "postgres")).0 pg)
  | inr other ↦ inr ((text_eq_iff driver (codes "mysql")).0 (ground arith))
]

unknown_driver :
    (driver : Text)
    → is_supported driver ≡ false
    → (driver ≢ codes "postgres") × (driver ≢ codes "mysql")
unknown_driver driver h = (
  λ e. absurd (ground (arith, (text_eq_iff driver (codes "postgres")).1 e)),
  λ e. absurd (ground (arith, (text_eq_iff driver (codes "mysql")).1 e)),
)

module _ {F : Type 0} (parse_float : Text → Option F) (one_fifth : F) where
  -- Whatever the environment is, `Load` returns the configuration that it reads there, with two
  -- secrets that are not empty and the driver `postgres` or `mysql`, or it fails because the
  -- driver is neither: the secrets have a default, so their check never fails.
  pub load_refuses_drivers_only :
      (env : Env)
      → ((load parse_float one_fifth env ≡ inl (read_config parse_float one_fifth env))
          × IsUsable (read_config parse_float one_fifth env))
        ⊎ ((load parse_float one_fifth env ≡ inr (unsupported (database_config env).driver))
            × ((database_config env).driver ≢ codes "postgres")
            × ((database_config env).driver ≢ codes "mysql"))
  unfolding load read_config validate auth_config
  load_refuses_drivers_only env = elim (Bool-cases (is_supported (database_config env).driver)) [
    | inl known ↦ inl (
      rw (access, refresh, known) refl,
      record {
        has_access_secret = not_empty _ access;
        has_refresh_secret = not_empty _ refresh;
        has_driver = known_driver (database_config env).driver known;
      },
    )
    | inr other ↦ inr (
      rw (access, refresh, other) refl,
      (unknown_driver (database_config env).driver other).0,
      (unknown_driver (database_config env).driver other).1,
    )
  ]
    where
      access : is_empty (auth_config env).access_secret ≡ false
      access =
          getenv-is_empty env (codes "JWT_ACCESS_SECRET") (shared_secret env)
            (shared_secret-is_empty env)

      refresh : is_empty (auth_config env).refresh_secret ≡ false
      refresh =
          getenv-is_empty env (codes "JWT_REFRESH_SECRET") (shared_secret env)
            (shared_secret-is_empty env)
