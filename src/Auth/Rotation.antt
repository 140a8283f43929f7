-- ===== src/Auth/Rotation.antt =====
-- Refresh tokens kept in memory: a token refreshes once, and the pair that replaces it is good.
use mathlib.Core.Path.{ap₂}
use api_free_demo.Base.{
  ◌≡◌, ◌≢◌, refl, sym, ◌∙◌, ap, Bool, false, not, ◌||◌, Option, none, some, List, [], ◌∷◌, ◌++◌,
  Text, codes, text_eq, text_eq_iff, text_eq_refl, arith, ◌==◌, ==_iff,
}
use api_free_demo.Base.Outcome.{ok}
use api_free_demo.Base.Triple.{Ends, Triple, then_call, weaken, ends_ok}
use api_free_demo.Base.Still.{Known, Untouched, fail_if-Known}
use api_free_demo.Time.{Time}
use api_free_demo.User.{User, AuthTokens}
use api_free_demo.Auth.{
  Claims, AuthConfig, Jwt, Readings, memory, Tokens, load, loaded, store, delete, refresh_key, put,
  find, remove, refresh_claims, access_claims, refresh_tokens, ensure_refresh_valid,
  persist_refresh, revoke,
}
use api_free_demo.Auth.Checks.{
  load-store, load-delete, load-delete_ne, IsAccepted, parse-Known, issue_access-Known,
  issue_refresh-Known, not-false, text_ne,
}

module _ {R : Type 0} (start : Tokens R) {F : Type 0} where
  loaded-Ends :
      (o v : Option Text) (s : Tokens R)
      → v ≡ o
      → Known start F s
      → Ends (λ t. Known start ((o ≡ some t) × F)) (Untouched start) (loaded v s)
  loaded-Ends o none s e k = k.1
  loaded-Ends o (some t) s e k = ((sym e, k.0), k.1)

  find-Known :
      (key : Text)
      → Triple
          (Known start F)
          (find memory key)
          (λ t. Known start ((load key start.memory_tokens ≡ some t) × F))
          (Untouched start)
  unfolding find
  find-Known key = record {
    ends = λ s r. loaded-Ends _ _ s (ap (λ (x : Tokens R). load key x.memory_tokens) r.1) r;
  }

  ensure_refresh_valid-Known :
      (cfg : AuthConfig) (jwt : Jwt) (c : Claims) (token : Text)
      → Triple
          (Known start F)
          (ensure_refresh_valid cfg jwt memory c token)
          (λ _. Known start ((load (refresh_key c.id) start.memory_tokens ≡ some token) × F))
          (Untouched start)
  unfolding ensure_refresh_valid
  ensure_refresh_valid-Known cfg jwt c token = then_call (find-Known (refresh_key c.id)) λ val.
      weaken (λ s k. k)
        (λ _ s k.
          ((k.0.1.0 ∙ ap some ((text_eq_iff val token).0 (not-false _ k.0.0)), k.0.1.1), k.1))
        (λ e s k. k) (fail_if-Known start (not (text_eq val token)) _)

-- A successful refresh: the token was a good refresh token of the user, the very token that is
-- kept under its identifier; the new pair is signed for the user; the new refresh token is kept,
-- and then the old one is dropped.
pub record IsRefresh {R : Type 0} (cfg : AuthConfig) (jwt : Jwt) (now : Time) (r : Readings)
    (u : User) (token : Text) (start : Tokens R) (pair : AuthTokens) (after : Tokens R)
    : Type 0 where
  pub claims : Claims
  pub accepted : IsAccepted cfg jwt now token cfg.refresh_secret claims
  pub of_user : claims.user_id ≡ u.id
  pub is_refresh : claims.token_type ≡ codes "refresh"
  pub kept : load (refresh_key claims.id) start.memory_tokens ≡ some token
  pub access : jwt.sign cfg.access_secret (access_claims cfg jwt r u) ≡ some pair.access_token
  pub refresh : jwt.sign cfg.refresh_secret (refresh_claims cfg jwt r u) ≡ some pair.refresh_token
  pub rotated :
      after.memory_tokens
      ≡ delete
          (refresh_key claims.id)
          (store (refresh_key r.refresh_id) pair.refresh_token start.memory_tokens)

or_false : (a b : Bool) → (a || b) ≡ false → (a ≡ false) × (b ≡ false)
or_false a b h = ground arith

module _ {R : Type 0} (cfg : AuthConfig) (jwt : Jwt) (now : Time) (r : Readings) (u : User)
    (token : Text) (start : Tokens R) where
  refresh_tokens-Triple :
      Triple
        (Known start (Unit {0}))
        (refresh_tokens cfg jwt memory now r u token)
        (IsRefresh cfg jwt now r u token start)
        (Untouched start)
  unfolding refresh_tokens persist_refresh revoke put remove refresh_claims
  refresh_tokens-Triple = then_call (parse-Known cfg jwt start now token cfg.refresh_secret) λ c.
      then_call
        (fail_if-Known start
          (not (c.user_id == u.id) || not (text_eq c.token_type (codes "refresh"))) _)
        λ _. then_call (ensure_refresh_valid-Known start cfg jwt c token) λ _.
          then_call (issue_access-Known cfg jwt start r u) λ access.
            then_call (issue_refresh-Known cfg jwt start r u) λ refresh. record {
              ends = λ s k.
                  let (same_user, kind) = or_false _ _ k.0.2.2.1.0 in
                  record {
                    claims = c;
                    accepted = k.0.2.2.1.1.0;
                    of_user = (==_iff _ _).0 (not-false _ same_user);
                    is_refresh = (text_eq_iff _ _).0 (not-false _ kind);
                    kept = k.0.2.2.0;
                    access = k.0.2.0;
                    refresh = k.0.0;
                    rotated =
                        ap (λ (m : List (Text × Text)). delete (refresh_key c.id) m)
                          (ap₂
                            (λ (x : Claims) (t : Tokens R).
                              store (refresh_key x.id) refresh.0 t.memory_tokens)
                            k.0.1 k.1);
                  };
            }

  -- With tokens kept in memory: a refresh that fails leaves the kept tokens as they were. One that
  -- succeeds had a good refresh token of the user, the very token kept under its identifier; it has
  -- signed a new pair for the user, kept the new refresh token and then dropped the old one.
  pub refresh_tokens_contract :
      Ends
        (IsRefresh cfg jwt now r u token start)
        (Untouched start)
        (refresh_tokens cfg jwt memory now r u token start)
  refresh_tokens_contract = refresh_tokens-Triple.ends start (tt, refl)

some-ne-none : (t : Text) → some t ≡ none → ⊥
some-ne-none t e = cc

prefix_injective : (k a b : Text) → k ++ a ≡ k ++ b → a ≡ b
prefix_injective [] a b e = e
prefix_injective (c ∷ k) a b e = prefix_injective k a b (cc)

refresh_key_ne : (a b : Text) → a ≢ b → text_eq (refresh_key a) (refresh_key b) ≡ false
refresh_key_ne a b h = text_ne _ _ (λ e. h (prefix_injective (codes "refresh:") a b e))

pub load-store_self : (k v : Text) (m : List (Text × Text)) → load k (store k v m) ≡ some v
load-store_self k v m = rw (load-store k k v m) (rw (text_eq_refl k) refl)

load-store_ne :
    (k j v : Text) (m : List (Text × Text)) → text_eq j k ≡ false → load j (store k v m) ≡ load j m
load-store_ne k j v m h = rw (load-store k j v m) (rw h refl)

module _ {R : Type 0} (cfg : AuthConfig) (jwt : Jwt) (now : Time) (r : Readings) (u : User)
    (token : Text) (start : Tokens R) (pair : AuthTokens) (after : Tokens R) where
  -- With tokens kept in memory, after a successful refresh whose new identifier differs from that
  -- of the token: the new refresh token is kept, the old identifier is not, and every other
  -- identifier keeps what it had.
  pub refresh_tokens_rotates :
      refresh_tokens cfg jwt memory now r u token start ≡ ok pair after
      → ((c : Claims) → jwt.verified token cfg.refresh_secret now ≡ some c → c.id ≢ r.refresh_id)
      → (load (refresh_key r.refresh_id) after.memory_tokens ≡ some pair.refresh_token)
        × ((c : Claims)
            → jwt.verified token cfg.refresh_secret now ≡ some c
            → (load (refresh_key c.id) after.memory_tokens ≡ none)
              × ((j : Text)
                  → j ≢ c.id
                  → j ≢ r.refresh_id
                  → load (refresh_key j) after.memory_tokens
                    ≡ load (refresh_key j) start.memory_tokens))
  refresh_tokens_rotates e fresh =
      let d = ends_ok _ _ e (refresh_tokens_contract cfg jwt now r u token start) in
      let old = d.claims.id in
      let new_ne : r.refresh_id ≢ old = λ q. fresh d.claims d.accepted.verified (sym q) in
      let kept = store (refresh_key r.refresh_id) pair.refresh_token start.memory_tokens in
      (
        rw d.rotated (
            load-delete_ne (refresh_key old) (refresh_key r.refresh_id) kept
              (refresh_key_ne _ _ new_ne)
            ∙ load-store_self (refresh_key r.refresh_id) pair.refresh_token start.memory_tokens),
        λ c v.
            let same : c.id ≡ old = cc in
            (
              rw (d.rotated, same) (load-delete (refresh_key old) kept),
              λ j ne_old ne_new. rw d.rotated (
                  load-delete_ne (refresh_key old) (refresh_key j) kept
                    (refresh_key_ne j old (λ q. ne_old (q ∙ sym same)))
                  ∙ load-store_ne (refresh_key r.refresh_id) (refresh_key j) pair.refresh_token
                      start.memory_tokens (refresh_key_ne j r.refresh_id ne_new)),
            ),
      )

  -- With tokens kept in memory, a refresh token that has refreshed once never refreshes again
  -- from the state that it left, at any time and for any user, if the new identifier differs from
  -- that of the token, and if the payload of a token does not depend on when it is read.
  pub refresh_token_used_once :
      ((t k : Text) (n m : Time) (a b : Claims)
        → jwt.verified t k n ≡ some a
        → jwt.verified t k m ≡ some b
        → a ≡ b)
      → ((c : Claims) → jwt.verified token cfg.refresh_secret now ≡ some c → c.id ≢ r.refresh_id)
      → refresh_tokens cfg jwt memory now r u token start ≡ ok pair after
      → (later : Time) (r' : Readings) (u' : User) (pair' : AuthTokens) (after' : Tokens R)
      → refresh_tokens cfg jwt memory later r' u' token after ≢ ok pair' after'
  refresh_token_used_once payload fresh e later r' u' pair' after' again =
      let d = ends_ok _ _ e (refresh_tokens_contract cfg jwt now r u token start) in
      let d' = ends_ok _ _ again (refresh_tokens_contract cfg jwt later r' u' token after) in
      let same : d.claims ≡ d'.claims =
        payload token cfg.refresh_secret now later d.claims d'.claims d.accepted.verified
          d'.accepted.verified in
      let gone = ((refresh_tokens_rotates e fresh).1 d.claims d.accepted.verified).0 in
      let here : load (refresh_key d.claims.id) after.memory_tokens ≡ some token =
        rw same d'.kept in
      some-ne-none token (sym here ∙ gone)
