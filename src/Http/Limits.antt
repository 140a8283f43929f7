-- ===== src/Http/Limits.antt =====
-- The bounds of the query parameters, and what the rate limits stop.
use api_free_demo.Base.{
  ℕ, zero, suc, ◌≤◌, ◌≡◌, refl, ◌⊎◌, inl, inr, Bool, true, false, not, ◌||◌, ◌&&◌, text_eq, ap,
  Option, none, some, [], ◌∷◌, ◌++◌, Text, codes, ℤ, pos, negsuc, arith,
}
use api_free_demo.Base.Outcome.{Outcome, ok, err, state_of}
use api_free_demo.User.{Uuid}
use api_free_demo.RateLimit.{RateLimitInfo}
use api_free_demo.Strings.Atoi.{atoi}
use api_free_demo.Http.{
  get_limit, limit_of, Context, Passage, next, stop, Allow, verdict_of, ask, ask_ip, limited,
  and_then, rate_limit, too_many_requests, user_id_from_context,
}

limit_of-bounds :
    (fallback most : ℕ) (z : Option ℤ)
    → 1 ≤ fallback
    → fallback ≤ most
    → (1 ≤ limit_of fallback most z) × (limit_of fallback most z ≤ most)
limit_of-bounds fallback most none h k = (h, k)
limit_of-bounds fallback most (some (negsuc n)) h k = (h, k)
limit_of-bounds fallback most (some (pos zero)) h k = (h, k)
limit_of-bounds fallback most (some (pos (suc n))) h k = ground arith

-- Whatever text a client sends as its limit, the limit of the query lies between 1 and the
-- maximum, if the fallback does.
pub get_limit_bounds :
    (fallback most : ℕ) (value : Text)
    → 1 ≤ fallback
    → fallback ≤ most
    → (1 ≤ get_limit fallback most value) × (get_limit fallback most value ≤ most)
unfolding get_limit
get_limit_bounds fallback most value h k = limit_of-bounds fallback most (atoi value) h k

module _ {S : Type 0} where
  -- Whether a limiter denies a key in a state: one that is missing or fails denies nothing.
  abbrev pub denies : Option (Allow S) → Text → S → Bool
  denies none key s = false
  denies (some allow) key s = elim (allow key s) [
    | ok info s' ↦ not info.allowed
    | err e s' ↦ false
  ]

  -- The state that a limiter leaves when it was asked for a key
  abbrev pub left_by : Option (Allow S) → Text → S → S
  left_by none key s = s
  left_by (some allow) key s = state_of (allow key s)

  -- Whether a limiter denies a user with an identifier that has a text
  abbrev pub denies_user : (Uuid → Text) → Option (Allow S) → Option Uuid → S → Bool
  denies_user text limiter none s = false
  denies_user text limiter (some id) s =
      not (text_eq (text id) []) && denies limiter (codes "user:" ++ text id) s

  -- Whether a request is denied: by the first limiter for its address, or by the second for its
  -- user, in the state that the first has left
  abbrev pub denied :
      (Uuid → Text) → Option (Allow S) → Option (Allow S) → Text → Context → S → Bool
  denied text ip_limiter user_limiter client_ip c s =
      denies ip_limiter (codes "ip:" ++ client_ip) s
      || denies_user text user_limiter c.user_id (left_by ip_limiter (codes "ip:" ++ client_ip) s)

  verdict :
      (o : Outcome S RateLimitInfo)
      → verdict_of o
        ≡ (not (elim o [ ok info s' ↦ not info.allowed | err e s' ↦ false ]), state_of o)
  verdict (err e s) = refl
  verdict (ok info s) = go info.allowed
    where
      go : (b : Bool) → ◌≡◌ {A = Bool × S} (b, s) (not (not b), s)
      go true = refl
      go false = refl

  ask_ip-denies :
      (limiter : Option (Allow S)) (name : Text) (s : S)
      → ask_ip limiter name s
        ≡ (not (denies limiter (codes "ip:" ++ name) s), left_by limiter (codes "ip:" ++ name) s)
  ask_ip-denies none name s = refl
  ask_ip-denies (some allow) name s = verdict (allow (codes "ip:" ++ name) s)

  ask-denies_user :
      (text : Uuid → Text) (limiter : Option (Allow S)) (c : Context) (s : S)
      → (ask limiter (codes "user:") (user_id_from_context text c) s).0
        ≡ not (denies_user text limiter c.user_id s)
  unfolding user_id_from_context text_eq
  ask-denies_user text limiter c s = by_id c.user_id
    where
      by_text :
          (limiter : Option (Allow S)) (name : Text)
          → (ask limiter (codes "user:") name s).0
            ≡ not (not (text_eq name []) && denies limiter (codes "user:" ++ name) s)
      by_text none [] = refl
      by_text none (x ∷ name) = refl
      by_text (some allow) [] = refl
      by_text (some allow) (x ∷ name) =
          ap (λ (p : Bool × S). p.0) (verdict (allow (codes "user:" ++ x ∷ name) s))

      by_id :
          (o : Option Uuid)
          → (ask limiter (codes "user:") (elim o [ none ↦ [] | some id ↦ text id ]) s).0
            ≡ not (denies_user text limiter o s)
      by_id none = by_text limiter []
      by_id (some id) = by_text limiter (text id)

  -- A request passes the rate limits with its context as it was, if neither limiter denies it, and
  -- is answered `429` if the limiter of addresses denies its address, or the limiter of users, then
  -- asked, denies its user: a limiter that is missing or fails denies nothing.
  pub rate_limit_stops :
      (text : Uuid → Text) (ip_limiter user_limiter : Option (Allow S)) (client_ip : Text)
      (c : Context) (s : S)
      → ((denied text ip_limiter user_limiter client_ip c s ≡ false)
          × ((rate_limit text ip_limiter user_limiter client_ip c s).0 ≡ next c))
        ⊎ ((denied text ip_limiter user_limiter client_ip c s ≡ true)
            × ((rate_limit text ip_limiter user_limiter client_ip c s).0 ≡ stop too_many_requests))
  unfolding rate_limit
  rate_limit_stops text ip_limiter user_limiter client_ip c s =
      rw (ask_ip-denies ip_limiter client_ip s)
        (by_ip (denies ip_limiter (codes "ip:" ++ client_ip) s))
    where
      after : S
      after = left_by ip_limiter (codes "ip:" ++ client_ip) s

      Goal : Bool → Passage × S → Type 0
      Goal b result =
          ((b ≡ false) × (result.0 ≡ next c)) ⊎ ((b ≡ true) × (result.0 ≡ stop too_many_requests))

      by_user : (b : Bool) (answer : Bool × S) → answer.0 ≡ not b → Goal b (limited c answer)
      by_user true (true, s') e = cc
      by_user true (false, s') e = inr (refl, refl)
      by_user false (true, s') e = inl (refl, refl)
      by_user false (false, s') e = cc

      by_ip :
          (b : Bool)
          → Goal (b || denies_user text user_limiter c.user_id after) (
              limited c (
                and_then
                  (not b, after)
                  (ask user_limiter (codes "user:") (user_id_from_context text c))))
      by_ip true = inr (refl, refl)
      by_ip false =
          by_user (denies_user text user_limiter c.user_id after)
            (ask user_limiter (codes "user:") (user_id_from_context text c) after)
            (ask-denies_user text user_limiter c after)
