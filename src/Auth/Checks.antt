-- ===== src/Auth/Checks.antt =====
-- What the checks of the token manager establish, and the laws of the map of refresh tokens.
use api_free_demo.Base.{
  ◌≡◌, ◌≢◌, refl, ◌/◌, Bool, true, false, not, Option, none, some, List, [], ◌∷◌, Text, text_eq,
  text_eq_iff, arith, Bool-cases, inl, inr,
}
use api_free_demo.Base.Triple.{Triple, then_call}
use api_free_demo.Base.Still.{Known, Untouched, fail_if-Known}
use api_free_demo.Time.{Time, second}
use api_free_demo.User.{User}
use api_free_demo.Auth.{
  Claims, AuthConfig, Jwt, Readings, load, store, delete, parse, refresh_claims, access_claims,
  signed, verified_claims, issue_access, issue_refresh,
}

pub text_ne : (a b : Text) → a ≢ b → text_eq a b ≡ false
text_ne a b h = elim (Bool-cases (text_eq a b)) [
  | inl same ↦ absurd (h ((text_eq_iff a b).0 same))
  | inr other ↦ other
]

pub load-store :
    (k j v : Text) (m : List (Text × Text))
    → load j (store k v m) ≡ (elim (text_eq j k) [ true ↦ some v | false ↦ load j m ])
unfolding load store
load-store k j v [] = ground arith
load-store k j v ((i, w) ∷ m) =
    ground (arith, text_eq_iff j k, text_eq_iff k i, text_eq_iff j i, load-store k j v m)

pub load-delete : (k : Text) (m : List (Text × Text)) → load k (delete k m) ≡ none
unfolding load delete
load-delete k [] = refl
load-delete k ((i, w) ∷ m) = ground (arith, load-delete k m)

pub load-delete_ne :
    (k j : Text) (m : List (Text × Text)) → text_eq j k ≡ false → load j (delete k m) ≡ load j m
unfolding load delete
load-delete_ne k j [] h = refl
load-delete_ne k j ((i, w) ∷ m) h =
    ground (arith, text_eq_iff j k, text_eq_iff k i, text_eq_iff j i, load-delete_ne k j m h)

module _ {S : Type 0} (start : S) {F : Type 0} where
  signed-Known :
      (o : Option Text)
      → Triple (Known start F) (signed o) (λ t. Known start ((o ≡ some t) × F)) (Untouched start)
  signed-Known none = record { ends = λ s r. r.1 }
  signed-Known (some t) = record { ends = λ s r. ((refl, r.0), r.1) }

  verified-Known :
      (o : Option Claims)
      → Triple
          (Known start F)
          (verified_claims o)
          (λ c. Known start ((o ≡ some c) × F))
          (Untouched start)
  verified-Known none = record { ends = λ s r. r.1 }
  verified-Known (some t) = record { ends = λ s r. ((refl, r.0), r.1) }

-- What `parse` has checked of a token
pub record IsAccepted (cfg : AuthConfig) (jwt : Jwt) (now : Time) (token secret : Text) (c : Claims)
    : Type 0 where
  pub hmac : jwt.is_hmac token ≡ true
  pub verified : jwt.verified token secret now ≡ some c
  pub current : c.secret_ver ≡ cfg.secret_version

pub not-false : (b : Bool) → not b ≡ false → b ≡ true
not-false true h = refl
not-false false h = cc

module _ (cfg : AuthConfig) (jwt : Jwt) {S : Type 0} (start : S) {F : Type 0} where
  pub parse-Known :
      (now : Time) (token secret : Text)
      → Triple
          (Known start F)
          (parse cfg jwt now token secret)
          (λ c. Known start (IsAccepted cfg jwt now token secret c × F))
          (Untouched start)
  unfolding parse
  parse-Known now token secret = then_call (fail_if-Known start (not (jwt.is_hmac token)) _) λ _.
      then_call (verified-Known start (jwt.verified token secret now)) λ c.
        then_call (fail_if-Known start (not (text_eq c.secret_ver cfg.secret_version)) _) λ _.
          record {
            ends = λ s k. (
              (
                record {
                  hmac = not-false _ k.0.1.1.0;
                  verified = k.0.1.0;
                  current = (text_eq_iff _ _).0 (not-false _ k.0.0);
                },
                k.0.1.1.1,
              ),
              k.1,
            );
          }

  pub issue_access-Known :
      (r : Readings) (u : User)
      → Triple
          (Known start F)
          (issue_access cfg jwt r u)
          (λ a. Known start (
            (jwt.sign cfg.access_secret (access_claims cfg jwt r u) ≡ some a.0)
            × (a.1 ≡ cfg.access_token_ttl / second)
            × F))
          (Untouched start)
  unfolding issue_access
  issue_access-Known r u =
      then_call (signed-Known start (jwt.sign cfg.access_secret (access_claims cfg jwt r u)))
        λ t. record { ends = λ s k. ((k.0.0, refl, k.0.1), k.1) }

  pub issue_refresh-Known :
      (r : Readings) (u : User)
      → Triple
          (Known start F)
          (issue_refresh cfg jwt r u)
          (λ a. Known start (
            (jwt.sign cfg.refresh_secret (refresh_claims cfg jwt r u) ≡ some a.0)
            × (a.1 ≡ refresh_claims cfg jwt r u)
            × F))
          (Untouched start)
  unfolding issue_refresh
  issue_refresh-Known r u =
      then_call (signed-Known start (jwt.sign cfg.refresh_secret (refresh_claims cfg jwt r u)))
        λ t. record { ends = λ s k. ((k.0.0, refl, k.0.1), k.1) }
