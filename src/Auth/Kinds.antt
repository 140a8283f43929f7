-- ===== src/Auth/Kinds.antt =====
-- Issued tokens when they come back: what an access token and a refresh token are taken for.
use mathlib.Core.Path.{ap₂}
use api_free_demo.Base.{
  ◌≡◌, refl, ◌∙◌, ap, ◌<◌, ◌/◌, true, not, some, Text, codes, text_eq, text_eq_refl, ◌==◌, ==_refl,
  ◌||◌,
}
use api_free_demo.Base.Outcome.{Error, ok, fail_if}
use api_free_demo.Base.Triple.{Ends, Triple, then_call, ends_ok, succeeded, Succeeds-then}
use api_free_demo.Base.Still.{Known, Untouched}
use api_free_demo.Time.{Time, second}
use api_free_demo.User.{User, AuthTokens}
use api_free_demo.Auth.{
  Claims, AuthConfig, Jwt, Readings, memory, Tokens, load, loaded, store, refresh_key, put, parse,
  refresh_claims, access_claims, issue_tokens, parse_access_token, find, ensure_refresh_valid,
  refresh_tokens, issue_access, issue_refresh, persist_refresh,
}
use api_free_demo.Auth.Checks.{issue_access-Known, issue_refresh-Known}
use api_free_demo.Auth.Rotation.{load-store_self}

-- What the JWT library documents: a token that it signs has an HMAC header, and reads back as the
-- claims that were signed, under the same key and before it expires.
pub record JwtLaws (jwt : Jwt) : Type 0 where
  pub header : (k : Text) (c : Claims) (t : Text) → jwt.sign k c ≡ some t → jwt.is_hmac t ≡ true
  pub reads_back :
      (k : Text) (c : Claims) (t : Text) (now : Time)
      → jwt.sign k c ≡ some t
      → now < c.expires_at
      → jwt.verified t k now ≡ some c

find-kept :
    {R : Type 0} (key t : Text) (kept : Tokens R)
    → load key kept.memory_tokens ≡ some t
    → find memory key kept ≡ ok t kept
unfolding find
find-kept key t kept e = ap (λ o. loaded o kept) e

-- A successful issue
pub record IsIssue {R : Type 0} (cfg : AuthConfig) (jwt : Jwt) (r : Readings) (u : User)
    (start : Tokens R) (pair : AuthTokens) (after : Tokens R) : Type 0 where
  pub access : jwt.sign cfg.access_secret (access_claims cfg jwt r u) ≡ some pair.access_token
  pub refresh : jwt.sign cfg.refresh_secret (refresh_claims cfg jwt r u) ≡ some pair.refresh_token
  pub kept :
      after.memory_tokens ≡ store (refresh_key r.refresh_id) pair.refresh_token start.memory_tokens

module _ {R : Type 0} (cfg : AuthConfig) (jwt : Jwt) (r : Readings) (u : User)
    (start : Tokens R) where
  issue_tokens-Triple :
      Triple
        (Known start (Unit {0}))
        (issue_tokens cfg jwt memory r u)
        (IsIssue cfg jwt r u start)
        (Untouched start)
  unfolding issue_tokens persist_refresh put refresh_claims
  issue_tokens-Triple = then_call (issue_access-Known cfg jwt start r u) λ access.
      then_call (issue_refresh-Known cfg jwt start r u) λ refresh. record {
        ends = λ s k. record {
          access = k.0.2.0;
          refresh = k.0.0;
          kept =
              ap₂
                (λ (x : Claims) (t : Tokens R). store (refresh_key x.id) refresh.0 t.memory_tokens)
                k.0.1 k.1;
        };
      }

  pub issue_tokens_contract :
      Ends (IsIssue cfg jwt r u start) (Untouched start) (issue_tokens cfg jwt memory r u start)
  issue_tokens_contract = issue_tokens-Triple.ends start (tt, refl)

module _ (cfg : AuthConfig) (jwt : Jwt) (laws : JwtLaws jwt) where
  -- A signed token of the current secret version parses to its claims before it expires.
  parse-signed :
      {S : Type 0} (now : Time) (k : Text) (c : Claims) (t : Text) (s : S)
      → jwt.sign k c ≡ some t
      → c.secret_ver ≡ cfg.secret_version
      → now < c.expires_at
      → parse cfg jwt now t k s ≡ ok c s
  unfolding parse
  parse-signed now k c t s e current early =
      rw (laws.header k c t e, laws.reads_back k c t now e early)
        (rw (current, text_eq_refl cfg.secret_version) refl)

  module _ {R S : Type 0} (now : Time) (r : Readings) (u : User) (start after : Tokens R)
      (pair : AuthTokens) (s : S) where
    -- With the documented laws of the JWT library, the access token of an issued pair parses,
    -- until it expires, to the claims of its user in the role of the user.
    pub issued_access_authenticates :
        issue_tokens cfg jwt memory r u start ≡ ok pair after
        → now < (access_claims cfg jwt r u).expires_at
        → parse_access_token cfg jwt now pair.access_token s ≡ ok (access_claims cfg jwt r u) s
    unfolding parse_access_token access_claims
    issued_access_authenticates e early =
        let d = ends_ok _ _ e (issue_tokens_contract cfg jwt r u start) in
        parse-signed now cfg.access_secret (access_claims cfg jwt r u) pair.access_token s d.access
          refl early

    -- With tokens kept in memory, the documented laws of the JWT library and two secrets that are
    -- the same, as they are
    -- when only `JWT_SECRET` is set, the refresh token of an issued pair passes for an access
    -- token until it expires: `ParseAccessToken` does not look at the kind of a token.
    pub refresh_token_authenticates :
        cfg.access_secret ≡ cfg.refresh_secret
        → issue_tokens cfg jwt memory r u start ≡ ok pair after
        → now < (refresh_claims cfg jwt r u).expires_at
        → (parse_access_token cfg jwt now pair.refresh_token s ≡ ok (refresh_claims cfg jwt r u) s)
          × ((refresh_claims cfg jwt r u).token_type ≡ codes "refresh")
    unfolding parse_access_token refresh_claims
    refresh_token_authenticates same e early =
        let d = ends_ok _ _ e (issue_tokens_contract cfg jwt r u start) in
        (
          ap (λ k. parse cfg jwt now pair.refresh_token k s) same
              ∙ parse-signed now cfg.refresh_secret (refresh_claims cfg jwt r u) pair.refresh_token
                  s d.refresh refl early,
          refl,
        )

    current : (refresh_claims cfg jwt r u).secret_ver ≡ cfg.secret_version
    unfolding refresh_claims
    current = refl

    kept :
        IsIssue cfg jwt r u start pair after
        → load (refresh_key (refresh_claims cfg jwt r u).id) after.memory_tokens
          ≡ some pair.refresh_token
    unfolding refresh_claims
    kept d =
        rw d.kept
          (load-store_self (refresh_key r.refresh_id) pair.refresh_token start.memory_tokens)

    issue_access-signed :
        {Z : Type 0} (r' : Readings) (u' : User) (t : Text) (z : Z)
        → jwt.sign cfg.access_secret (access_claims cfg jwt r' u') ≡ some t
        → issue_access cfg jwt r' u' z ≡ ok (t, cfg.access_token_ttl / second) z
    unfolding issue_access
    issue_access-signed r' u' t z e = rw e refl

    issue_refresh-signed :
        {Z : Type 0} (r' : Readings) (u' : User) (t : Text) (z : Z)
        → jwt.sign cfg.refresh_secret (refresh_claims cfg jwt r' u') ≡ some t
        → issue_refresh cfg jwt r' u' z ≡ ok (t, refresh_claims cfg jwt r' u') z
    unfolding issue_refresh
    issue_refresh-signed r' u' t z e = rw e refl

    ensure-kept :
        (c : Claims) (t : Text) (kept : Tokens R)
        → load (refresh_key c.id) kept.memory_tokens ≡ some t
        → ensure_refresh_valid cfg jwt memory c t kept ≡ ok tt kept
    unfolding ensure_refresh_valid
    ensure-kept c t kept e = rw (find-kept (refresh_key c.id) t kept e) (rw (text_eq_refl t) refl)

    refresh_guard :
        (kept : Tokens R)
        → fail_if
            (not ((refresh_claims cfg jwt r u).user_id == u.id)
              || not (text_eq (refresh_claims cfg jwt r u).token_type (codes "refresh")))
            (Error.message (codes "invalid refresh token"))
            kept
          ≡ ok tt kept
    unfolding refresh_claims
    refresh_guard kept = rw (==_refl u.id, text_eq_refl (codes "refresh")) refl

    -- With tokens kept in memory and the documented laws of the JWT library, the refresh token of
    -- an issued pair refreshes for its user until it expires, from the state that the issue left,
    -- if the library signs the new pair.
    pub issued_refresh_refreshes :
        ((k : Text) (c : Claims) → (t : Text) × (jwt.sign k c ≡ some t))
        → issue_tokens cfg jwt memory r u start ≡ ok pair after
        → now < (refresh_claims cfg jwt r u).expires_at
        → (r' : Readings)
        → (pair' : AuthTokens) × (after' : Tokens R) × (refresh_tokens cfg jwt memory now r' u
              pair.refresh_token after
            ≡ ok pair' after')
    unfolding refresh_tokens persist_refresh put
    issued_refresh_refreshes signs e early r' =
        let d = ends_ok _ _ e (issue_tokens_contract cfg jwt r u start) in
        let c = refresh_claims cfg jwt r u in
        let (access, a) = signs cfg.access_secret (access_claims cfg jwt r' u) in
        let (refresh, b) = signs cfg.refresh_secret (refresh_claims cfg jwt r' u) in
        succeeded _ (
          Succeeds-then _
            (parse-signed now cfg.refresh_secret c pair.refresh_token after d.refresh current early)
            (Succeeds-then _ (refresh_guard after) (
              Succeeds-then _ (ensure-kept c pair.refresh_token after (kept d)) (
                Succeeds-then _ (issue_access-signed r' u access after a)
                  (Succeeds-then _ (issue_refresh-signed r' u refresh after b) tt)))))
