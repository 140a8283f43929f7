-- ===== src/Auth/Tests.antt =====
-- Runs of the JWT manager with the toy signature.
use api_free_demo.Base.{
  ℕ, ◌≡◌, ◌≢◌, refl, ◌∙◌, ◌<◌, Bool, true, false, Option, none, some, List, [], ◌∷◌, ◌++◌, Text,
  codes, text_eq, pos, arith, if◌then◌else◌, ◌==◌,
}
use api_free_demo.Base
use api_free_demo.Base.Outcome.{ok}
use api_free_demo.Base.Triple.{Ends}
use api_free_demo.Base.Still.{Untouched}
use api_free_demo.User.{AuthTokens}
use api_free_demo.Auth
use api_free_demo.Auth.{
  Claims, AuthConfig, Jwt, Readings, memory, Tokens, load, refresh_key, issue_tokens,
  refresh_tokens, parse_access_token, access_claims, refresh_claims,
}
use api_free_demo.Auth.Rotation.{
  IsRefresh, refresh_tokens_contract, refresh_tokens_rotates, refresh_token_used_once,
}
use api_free_demo.Auth.Kinds.{refresh_token_authenticates, issued_refresh_refreshes}
use api_free_demo.Auth.Sample.{
  cfg, ada, at_first, at_second, no_tokens, put, encode, opened, toy, opened-put, some-eq,
  toy-JwtLaws, timely-same, toy-payload, pair_of, holding, issue-run, early_refresh,
}

refresh-run :
    refresh_tokens cfg toy memory 5 at_second ada
      (pair_of at_first).refresh_token
      (holding at_first)
    ≡ ok (pair_of at_second) (holding at_second)
unfolding refresh_tokens Auth.parse Auth.ensure_refresh_valid Auth.revoke Auth.issue_access
    Auth.issue_refresh Auth.persist_refresh Auth.put Auth.find Auth.remove Auth.store Auth.load
    Auth.delete refresh_claims access_claims text_eq
refresh-run = refl

refresh_token_authenticates_example :
    (parse_access_token cfg toy 5 (pair_of at_first).refresh_token tt
      ≡ ok (refresh_claims cfg toy at_first ada) tt)
    × ((refresh_claims cfg toy at_first ada).token_type ≡ codes "refresh")
refresh_token_authenticates_example =
    refresh_token_authenticates cfg toy toy-JwtLaws 5 at_first ada no_tokens (holding at_first)
      (pair_of at_first) tt refl issue-run early_refresh

issued_refresh_refreshes_example :
    (pair' : AuthTokens) × (after' : Tokens (Unit {0})) × (refresh_tokens cfg toy memory 5 at_second
        ada
        (pair_of at_first).refresh_token
        (holding at_first)
      ≡ ok pair' after')
issued_refresh_refreshes_example =
    issued_refresh_refreshes cfg toy toy-JwtLaws 5 at_first ada no_tokens (holding at_first)
      (pair_of at_first) tt (λ k c. (put k (encode c), refl)) issue-run early_refresh at_second

refresh_tokens_contract_example :
    Ends
      (IsRefresh cfg toy 5 at_second ada (pair_of at_first).refresh_token (holding at_first))
      (Untouched (holding at_first))
      (refresh_tokens cfg toy memory 5 at_second ada
        (pair_of at_first).refresh_token
        (holding at_first))
refresh_tokens_contract_example =
    refresh_tokens_contract cfg toy 5 at_second ada (pair_of at_first).refresh_token
      (holding at_first)

first_claims :
    (c : Claims)
    → toy.verified (pair_of at_first).refresh_token cfg.refresh_secret 5 ≡ some c
    → c ≡ refresh_claims cfg toy at_first ada
first_claims c e = some-eq _ _ (
    Base.sym (timely-same 5 (opened (pair_of at_first).refresh_token cfg.refresh_secret) c e)
    ∙ opened-put cfg.refresh_secret (refresh_claims cfg toy at_first ada))

first_ne_second : codes "r1" ≢ codes "r2"
first_ne_second = ground arith

fresh_second :
    (c : Claims)
    → toy.verified (pair_of at_first).refresh_token cfg.refresh_secret 5 ≡ some c
    → c.id ≢ at_second.refresh_id
unfolding refresh_claims
fresh_second c e same =
    first_ne_second (Base.sym (Base.ap (λ (x : Claims). x.id) (first_claims c e)) ∙ same)

refresh_tokens_rotates_example :
    (load (refresh_key (codes "r2")) (holding at_second).memory_tokens
      ≡ some (pair_of at_second).refresh_token)
    × ((c : Claims)
        → toy.verified (pair_of at_first).refresh_token cfg.refresh_secret 5 ≡ some c
        → (load (refresh_key c.id) (holding at_second).memory_tokens ≡ none)
          × ((j : Text)
              → j ≢ c.id
              → j ≢ codes "r2"
              → load (refresh_key j) (holding at_second).memory_tokens
                ≡ load (refresh_key j) (holding at_first).memory_tokens))
refresh_tokens_rotates_example =
    refresh_tokens_rotates cfg toy 5 at_second ada (pair_of at_first).refresh_token
      (holding at_first) (pair_of at_second) (holding at_second) refresh-run fresh_second

-- The refreshed token, at a later time
refresh_token_used_once_example :
    refresh_tokens cfg toy memory 6 at_first ada
      (pair_of at_first).refresh_token
      (holding at_second)
    ≢ ok (pair_of at_first) (holding at_first)
refresh_token_used_once_example =
    refresh_token_used_once cfg toy 5 at_second ada (pair_of at_first).refresh_token
      (holding at_first) (pair_of at_second) (holding at_second) toy-payload fresh_second
      refresh-run 6 at_first ada (pair_of at_first) (holding at_first)
