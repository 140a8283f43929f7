-- ===== src/RateLimit/Remote/Fresh.antt =====
-- What becomes of a key that Redis does not know.
use api_free_demo.Base.{
  zero, suc, ◌≡◌, refl, sym, ap, false, Option, none, some, ◌⊎◌, inl, inr, List, [], ◌∷◌, Text, ℤ,
  pos, negsuc,
}
use mathlib.Core.Path.{subst}
use api_free_demo.Base.Outcome.{state_of, Returns}
use api_free_demo.Time.{Time}
use api_free_demo.RateLimit.{RateLimitInfo}
use api_free_demo.RateLimit.Remote.{
  Failure, nil, failure, Client, RedisLimiter, counted, redis_key, allow_remote, after_requests,
}

-- One less than a key's number, where a missing key counts as 0
abbrev pub decremented : Option ℤ → ℤ
decremented none = negsuc 0
decremented (some (pos zero)) = negsuc 0
decremented (some (pos (suc n))) = pos n
decremented (some (negsuc n)) = negsuc (suc n)

-- What Redis documents of DECR: it takes a missing key for 0, stores and answers one less, and
-- never answers `nil`; a failed call has done so or nothing.
pub record DecrLaws {R : Type 0} (client : Client R) (value : Text → R → Option ℤ) : Type 0 where
  pub never_nil : (key : Text) (r : R) → (client.decr key r).0 ≡ inl nil → ⊥
  pub answers :
      (key : Text) (r : R) (z : ℤ)
      → (client.decr key r).0 ≡ inr z
      → (z ≡ decremented (value key r)) × (value key (client.decr key r).1 ≡ some z)
  pub fails :
      (key : Text) (r : R) (e : Text)
      → (client.decr key r).0 ≡ inl (failure e)
      → (value key (client.decr key r).1 ≡ value key r)
        ⊎ (value key (client.decr key r).1 ≡ some (decremented (value key r)))

-- No allowance: the key is missing or below 0.
abbrev pub IsDry : Option ℤ → Type 0
IsDry none = Unit
IsDry (some (pos n)) = ⊥
IsDry (some (negsuc n)) = Unit

decremented-IsDry : (o : Option ℤ) → IsDry o → IsDry (some (decremented o))
decremented-IsDry none h = tt
decremented-IsDry (some (pos n)) h = absurd h
decremented-IsDry (some (negsuc n)) h = tt

IsDenied : RateLimitInfo → Type 0
IsDenied i = i.allowed ≡ false

module _ {R : Type 0} (limiter : RedisLimiter R) (value : Text → R → Option ℤ)
    (laws : DecrLaws limiter.client value) where
  abbrev Dry : Text → R → Type 0
  Dry key r = IsDry (value (redis_key limiter key) r)

  -- After an answer: the answer and the key are below 0.
  answered-IsDry :
      (key : Text) (r : R) (z : ℤ)
      → Dry key r
      → (limiter.client.decr (redis_key limiter key) r).0 ≡ inr z
      → IsDry (some z) × Dry key (limiter.client.decr (redis_key limiter key) r).1
  answered-IsDry key r z h e =
      let (same, stored) = laws.answers (redis_key limiter key) r z e in
      let below : IsDry (some z) =
        subst (λ y. IsDry (some y)) (sym same)
          (decremented-IsDry (value (redis_key limiter key) r) h) in
      (below, subst IsDry (sym stored) below)

  failed-IsDry :
      (key : Text) (r : R) (x : Text)
      → Dry key r
      → (limiter.client.decr (redis_key limiter key) r).0 ≡ inl (failure x)
      → Dry key (limiter.client.decr (redis_key limiter key) r).1
  failed-IsDry key r x h e = elim (laws.fails (redis_key limiter key) r x e) [
    | inl same ↦ subst IsDry (sym same) h
    | inr less ↦ subst IsDry (sym less) (decremented-IsDry (value (redis_key limiter key) r) h)
  ]

  counted-IsDry :
      (now : Time) (key : Text) (r : R) (reply : (Failure ⊎ ℤ) × R)
      → limiter.client.decr (redis_key limiter key) r ≡ reply
      → Dry key r
      → Returns IsDenied (counted limiter now (redis_key limiter key) reply)
        × Dry key (state_of (counted limiter now (redis_key limiter key) reply))
  unfolding IsDenied
  counted-IsDry now key r (inl nil, r') e h =
      absurd (laws.never_nil (redis_key limiter key) r (ap (λ p. p.0) e))
  counted-IsDry now key r (inl (failure x), r') e h =
      (tt, subst (Dry key) (ap (λ p. p.1) e) (failed-IsDry key r x h (ap (λ p. p.0) e)))
  counted-IsDry now key r (inr (pos n), r') e h =
      absurd (answered-IsDry key r (pos n) h (ap (λ p. p.0) e)).0
  counted-IsDry now key r (inr (negsuc n), r') e h = (
    refl,
    subst (Dry key) (ap (λ p. p.1) e) (answered-IsDry key r (negsuc n) h (ap (λ p. p.0) e)).1,
  )

  allow_remote-IsDry :
      (now : Time) (key : Text) (r : R)
      → Dry key r
      → Returns IsDenied (allow_remote limiter now key r)
        × Dry key (state_of (allow_remote limiter now key r))
  unfolding allow_remote
  allow_remote-IsDry now key r h = counted-IsDry now key r _ refl h

  after_requests-IsDry :
      (times : List Time) (key : Text) (r : R)
      → Dry key r
      → Dry key (after_requests limiter times key r)
  unfolding after_requests
  after_requests-IsDry [] key r h = h
  after_requests-IsDry (now ∷ times) key r h =
      after_requests-IsDry times key (state_of (allow_remote limiter now key r))
        (allow_remote-IsDry now key r h).1

  -- With the documented DECR, a key that Redis does not know never gets its allowance: whatever
  -- number of requests have come with it, the next one is not admitted (it is denied, or the call
  -- fails).
  pub fresh_key_denied :
      (times : List Time) (now : Time) (key : Text) (r : R)
      → value (redis_key limiter key) r ≡ none
      → Returns
          (λ i. i.allowed ≡ false)
          (allow_remote limiter now key (after_requests limiter times key r))
  unfolding IsDenied
  fresh_key_denied times now key r fresh =
      (allow_remote-IsDry now key (after_requests limiter times key r)
        (after_requests-IsDry times key r (subst IsDry (sym fresh) tt))).0
