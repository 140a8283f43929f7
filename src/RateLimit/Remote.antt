-- ===== src/RateLimit/Remote.antt =====
-- The limiter over Redis: `RedisLimiter` of internal/infrastructure/ratelimit/limiter.go. The
-- client is a parameter.
pub mod Fresh
mod Tests
use api_free_demo.Base.{
  ℕ, zero, suc, Bool, true, false, Option, none, some, ◌⊎◌, inl, inr, List, [], ◌∷◌, ◌++◌, Text,
  codes, ℤ, pos, negsuc,
}
use api_free_demo.Base.Outcome.{Error, Outcome, ok, err, M, state_of}
use api_free_demo.Time.{Time, minute, add}
use api_free_demo.RateLimit.{RateLimitInfo, less_one}

-- What a command may fail with: `redis.Nil`, or anything else
pub data Failure : Type 0 where
  nil : Failure
  failure : Text → Failure

-- The client over the state of the server: DECR, and SET with a lifetime in a transaction
pub record Client (R : Type 0) : Type 0 where
  pub decr : Text → R → (Failure ⊎ ℤ) × R
  pub set : Text → ℤ → ℕ → R → Option Text × R

pub record RedisLimiter (R : Type 0) : Type 0 where
  pub client : Client R
  pub limit : ℤ
  pub prefix : Text

abbrev pub info : Bool → ℤ → ℤ → Time → RateLimitInfo
info allowed limit remaining now = record {
  allowed = allowed;
  limit = limit;
  remaining = remaining;
  reset = add now minute;
}

module _ {R : Type 0} (limiter : RedisLimiter R) where
  -- The allowance of a key that Redis does not know; what a failed call returns beside its error
  -- is dropped, since the callers do not look at it.
  abbrev pub granted : Time → Option Text × R → Outcome R RateLimitInfo
  granted now (some e, r) = err (Error.message e) r
  granted now (none, r) = ok (info true limiter.limit (less_one limiter.limit) now) r

  abbrev pub counted : Time → Text → (Failure ⊎ ℤ) × R → Outcome R RateLimitInfo
  counted now key (inl nil, r) =
      granted now (limiter.client.set key (less_one limiter.limit) minute r)
  counted now key (inl (failure e), r) = err (Error.message e) r
  counted now key (inr (pos n), r) = ok (info true limiter.limit (pos n) now) r
  counted now key (inr (negsuc n), r) = ok (info false limiter.limit (pos 0) now) r

  abbrev pub redis_key : Text → Text
  redis_key key = limiter.prefix ++ codes ":" ++ key

  -- `RedisLimiter.Allow`
  unfoldable pub allow_remote : Time → Text → M R RateLimitInfo
  allow_remote now key r = counted now (redis_key key) (limiter.client.decr (redis_key key) r)

  -- The server after requests with one key, at times
  unfoldable pub after_requests : List Time → Text → R → R
  unfolding allow_remote
  after_requests [] key r = r
  after_requests (now ∷ times) key r = after_requests times key (state_of (allow_remote now key r))
