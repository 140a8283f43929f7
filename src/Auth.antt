-- ===== src/Auth.antt =====
-- The JWT manager: internal/infrastructure/auth/jwt_manager.go. A call takes the times and the
-- identifiers that it reads. The JWT library and the Redis client are parameters.
mod Store
pub mod Checks
pub mod Rotation
pub mod Kinds
pub mod Sample
mod Tests
unfoldable pub use Store.*
use api_free_demo.Base.{
  ℕ, ◌/◌, ◌*◌, Bool, not, ◌||◌, Option, none, some, List, ◌++◌, Text, codes, text_eq, ◌==◌,
  if◌then◌else◌,
}
use api_free_demo.Base.Outcome.{
  Error, Outcome, ok, err, M, state_of, pure, fail, ◌>>=◌, ◌>>◌, fail_if,
}
use api_free_demo.Time.{Time, second, add}
use api_free_demo.User.{Uuid, User, AuthTokens}

pub record Claims : Type 0 where
  pub user_id : Uuid
  pub role : Text
  pub secret_ver : Text
  pub token_type : Text
  pub issuer : Text
  pub subject : Text
  pub expires_at : Time
  pub issued_at : Time
  pub id : Text

-- `config.AuthConfig`, as far as the manager reads it. Lifetimes are in nanoseconds.
pub record AuthConfig : Type 0 where
  pub access_secret : Text
  pub refresh_secret : Text
  pub access_token_ttl : ℕ
  pub refresh_token_ttl : ℕ
  pub token_issuer : Text
  pub secret_version : Text

-- The JWT library: signing with HS256 (`none`: it fails), whether a token's header names an HMAC
-- method, and the claims of a token whose signature and times are good at a time; and the text of
-- an identifier (`uuid.UUID.String`).
pub record Jwt : Type 0 where
  pub sign : Text → Claims → Option Text
  pub is_hmac : Text → Bool
  pub verified : Text → Text → Time → Option Claims
  pub uuid_text : Uuid → Text

-- What a call that issues a pair reads: the time and the identifier of each token
pub record Readings : Type 0 where
  pub access_time : Time
  pub access_id : Text
  pub refresh_time : Time
  pub refresh_id : Text

-- `jwt.NewNumericDate`: whole seconds
abbrev pub numeric_date : Time → Time
numeric_date t = t / second * second

abbrev pub signed : {S : Type 0} → Option Text → M S Text
signed none = fail (Error.message (codes "signing failed"))
signed (some t) = pure t

abbrev pub verified_claims : {S : Type 0} → Option Claims → M S Claims
verified_claims none = fail (Error.message (codes "token is invalid"))
verified_claims (some c) = pure c

module _ (cfg : AuthConfig) (jwt : Jwt) where
  unfoldable pub access_claims : Readings → User → Claims
  access_claims r u = record {
    user_id = u.id;
    role = u.role;
    secret_ver = cfg.secret_version;
    token_type = codes "access";
    issuer = cfg.token_issuer;
    subject = jwt.uuid_text u.id;
    expires_at = numeric_date (add r.access_time cfg.access_token_ttl);
    issued_at = numeric_date r.access_time;
    id = r.access_id;
  }

  unfoldable pub refresh_claims : Readings → User → Claims
  refresh_claims r u = record {
    user_id = u.id;
    role = u.role;
    secret_ver = cfg.secret_version;
    token_type = codes "refresh";
    issuer = cfg.token_issuer;
    subject = jwt.uuid_text u.id;
    expires_at = numeric_date (add r.refresh_time cfg.refresh_token_ttl);
    issued_at = numeric_date r.refresh_time;
    id = r.refresh_id;
  }

  -- `issueAccess`
  unfoldable pub issue_access : {S : Type 0} → Readings → User → M S (Text × ℕ)
  issue_access r u = do
    encoded ← signed (jwt.sign cfg.access_secret (access_claims r u))
    pure (encoded, cfg.access_token_ttl / second)

  -- `issueRefresh`
  unfoldable pub issue_refresh : {S : Type 0} → Readings → User → M S (Text × Claims)
  issue_refresh r u = do
    encoded ← signed (jwt.sign cfg.refresh_secret (refresh_claims r u))
    pure (encoded, refresh_claims r u)

  -- `parse`, at the time that the library reads
  unfoldable pub parse : {S : Type 0} → Time → Text → Text → M S Claims
  parse now token secret = do
    fail_if (not (jwt.is_hmac token)) (Error.message (codes "unexpected signing method"))
    claims ← verified_claims (jwt.verified token secret now)
    fail_if (not (text_eq claims.secret_ver cfg.secret_version))
        (Error.message (codes "token version mismatch"))
    pure claims

  -- `ParseAccessToken`
  unfoldable pub parse_access_token : {S : Type 0} → Time → Text → M S Claims
  parse_access_token now token = parse now token cfg.access_secret

  -- `ExtractUserID`
  unfoldable pub extract_user_id : {S : Type 0} → Time → Text → M S Uuid
  extract_user_id now token = do claims ← parse now token cfg.refresh_secret; pure claims.user_id

  module _ {R : Type 0} (backend : Backend R) where
    -- `persistRefresh`
    unfoldable pub persist_refresh : Claims → Text → M (Tokens R) (Unit {0})
    persist_refresh claims token = put backend (refresh_key claims.id) token cfg.refresh_token_ttl

    -- `ensureRefreshValid`
    unfoldable pub ensure_refresh_valid : Claims → Text → M (Tokens R) (Unit {0})
    ensure_refresh_valid claims token = do
      val ← find backend (refresh_key claims.id)
      fail_if (not (text_eq val token)) (Error.message (codes "refresh token revoked"))

    -- `revoke`
    unfoldable pub revoke : Claims → M (Tokens R) (Unit {0})
    revoke claims = remove backend (refresh_key claims.id)

    abbrev pub bearer : Text → Text → ℕ → AuthTokens
    bearer access refresh exp = record {
      access_token = access;
      refresh_token = refresh;
      expires_in = exp;
      token_type = codes "Bearer";
    }

    -- `IssueTokens`
    unfoldable pub issue_tokens : Readings → User → M (Tokens R) AuthTokens
    issue_tokens r u = do
      access ← issue_access r u
      refresh ← issue_refresh r u
      persist_refresh refresh.1 refresh.0
      pure (bearer access.0 refresh.0 access.1)

    -- `RefreshTokens`: an error of the last step, the revocation, is dropped.
    unfoldable pub refresh_tokens : Time → Readings → User → Text → M (Tokens R) AuthTokens
    refresh_tokens now r u token = do
      claims ← parse now token cfg.refresh_secret
      fail_if (not (claims.user_id == u.id) || not (text_eq claims.token_type (codes "refresh")))
          (Error.message (codes "invalid refresh token"))
      ensure_refresh_valid claims token
      access ← issue_access r u
      refresh ← issue_refresh r u
      persist_refresh refresh.1 refresh.0
      λ s. ok (bearer access.0 refresh.0 access.1) (state_of (revoke claims s))
