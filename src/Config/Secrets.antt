-- ===== src/Config/Secrets.antt =====
-- The two secrets, where the environment does not set both.
use api_free_demo.Base.{◌≡◌, sym, ap, ◌∙◌, ◌<◌, inl, Option, none, some, [], Text, codes, arith}
use api_free_demo.Base.Outcome.{Error, ok}
use api_free_demo.Strings.{trim_space}
use api_free_demo.Time.{Time}
use api_free_demo.User.{User, AuthTokens}
use api_free_demo.Auth
use api_free_demo.Auth.{
  Jwt, Readings, Tokens, memory, issue_tokens, parse_access_token, refresh_claims,
}
use api_free_demo.Auth.Kinds.{JwtLaws, refresh_token_authenticates}
use api_free_demo.Config.{
  Env, Config, getenv, or_default, shared_secret, auth_config, read_config, validate, or_refused,
  load,
}

module _ {F : Type 0} (parse_float : Text → Option F) (one_fifth : F) where
  or_refused-read :
      (c d : Config F) (e : Option Error) → or_refused parse_float one_fifth c e ≡ inl d → d ≡ c
  or_refused-read c d none h = ground (arith, h)
  or_refused-read c d (some e) h = absurd (ground (arith, h))

  load-read :
      (env : Env) (c : Config F)
      → load parse_float one_fifth env ≡ inl c
      → c ≡ read_config parse_float one_fifth env
  unfolding load
  load-read env c h =
      or_refused-read (read_config parse_float one_fifth env) c
        (validate parse_float one_fifth (read_config parse_float one_fifth env)) h

  fallback : (env : Env) (key def : Text) → trim_space (env key) ≡ [] → getenv env key def ≡ def
  unfolding getenv
  fallback env key def unset = ap (λ s. or_default s def) unset

  loaded_secrets :
      (env : Env) (c : Config F)
      → load parse_float one_fifth env ≡ inl c
      → trim_space (env (codes "JWT_ACCESS_SECRET")) ≡ []
      → trim_space (env (codes "JWT_REFRESH_SECRET")) ≡ []
      → c.auth.access_secret ≡ c.auth.refresh_secret
  unfolding read_config auth_config
  loaded_secrets env c loaded no_access no_refresh =
      ap (λ (x : Config F). x.auth.access_secret) (load-read env c loaded)
      ∙ fallback env (codes "JWT_ACCESS_SECRET") (shared_secret env) no_access
      ∙ sym (fallback env (codes "JWT_REFRESH_SECRET") (shared_secret env) no_refresh)
      ∙ sym (ap (λ (x : Config F). x.auth.refresh_secret) (load-read env c loaded))

  -- With the documented laws of the JWT library, a manager that has the two secrets of a
  -- configuration that `Load` returned for an environment where neither `JWT_ACCESS_SECRET` nor
  -- `JWT_REFRESH_SECRET` is set (each is empty up to spaces), and that keeps its tokens in memory,
  -- takes the refresh token of a pair that it has issued, until it expires, for an access token.
  pub default_secrets_confuse :
      {R S : Type 0} (env : Env) (c : Config F) (cfg : Auth.AuthConfig) (jwt : Jwt)
      (laws : JwtLaws jwt) (now : Time) (r : Readings) (u : User) (start after : Tokens R)
      (pair : AuthTokens) (s : S)
      → load parse_float one_fifth env ≡ inl c
      → trim_space (env (codes "JWT_ACCESS_SECRET")) ≡ []
      → trim_space (env (codes "JWT_REFRESH_SECRET")) ≡ []
      → cfg.access_secret ≡ c.auth.access_secret
      → cfg.refresh_secret ≡ c.auth.refresh_secret
      → issue_tokens cfg jwt memory r u start ≡ ok pair after
      → now < (refresh_claims cfg jwt r u).expires_at
      → parse_access_token cfg jwt now pair.refresh_token s ≡ ok (refresh_claims cfg jwt r u) s
  default_secrets_confuse env c cfg jwt laws now r u start after pair s loaded no_access no_refresh
        access refresh issued early =
      (refresh_token_authenticates cfg jwt laws now r u start after pair s
        (access ∙ loaded_secrets env c loaded no_access no_refresh ∙ sym refresh) issued early).0
