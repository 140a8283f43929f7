-- ===== src/RateLimit.antt =====
-- The in-memory rate limiter of internal/infrastructure/ratelimit/limiter.go. Its mutex makes a
-- call one step; a call takes the time that it reads, and the monotonic clock never goes back. The
-- arithmetic of `float64` is a parameter: the operations that the limiter uses, on any carrier.
pub mod Float
pub mod Buckets
pub mod Burst
pub mod Remote
mod Tests
use api_free_demo.Base.{
  ℕ, ◌-◌, Bool, true, false, Option, none, some, List, [], ◌∷◌, Text, text_eq, ℤ, pos, negsuc,
  add_int, if◌then◌else◌,
}
use api_free_demo.Time.{Time, minute, add}
use api_free_demo.RateLimit.Float.{Float64, one, minutes}

pub record RateLimitInfo : Type 0 where
  pub allowed : Bool
  pub limit : ℤ
  pub remaining : ℤ
  pub reset : Time

pub record Bucket (F : Type 0) : Type 0 where
  pub tokens : F
  pub last : Time

pub record MemoryLimiter (F : Type 0) : Type 0 where
  pub limit : ℤ
  pub burst : ℤ
  pub buckets : List (Text × Bucket F)

-- `NewMemoryLimiter`
unfoldable pub new_memory_limiter : {F : Type 0} → ℤ → ℤ → MemoryLimiter F
new_memory_limiter limit burst = record { limit = limit; burst = burst; buckets = [] }

-- `m.store[key]`, and the store with a bucket at a key
unfoldable pub bucket_of : {F : Type 0} → Text → List (Text × Bucket F) → Option (Bucket F)
bucket_of k [] = none
bucket_of k ((j, b) ∷ m) = if text_eq k j then some b else bucket_of k m

unfoldable pub set_bucket :
    {F : Type 0} → Text → Bucket F → List (Text × Bucket F) → List (Text × Bucket F)
set_bucket k b [] = (k, b) ∷ []
set_bucket k b ((j, c) ∷ m) = if text_eq k j then (k, b) ∷ m else (j, c) ∷ set_bucket k b m

-- `x - 1` on `int`
abbrev pub less_one : ℤ → ℤ
less_one n = add_int n (negsuc 0)

abbrev pub kept :
    {F : Type 0}
    → Text
    → MemoryLimiter F
    → RateLimitInfo × Bucket F
    → RateLimitInfo × MemoryLimiter F
kept key m (info, b) = (info, record m { buckets = set_bucket key b m.buckets })

module _ {F : Type 0} (f : Float64 F) where
  -- `min`
  abbrev pub lesser : F → F → F
  lesser a b = if f.less a b then a else b

  -- The tokens of a bucket with what the time since its last use earns
  unfoldable pub refilled : MemoryLimiter F → Time → Bucket F → F
  refilled m now b =
      lesser (f.of_int (add_int m.limit m.burst))
        (f.plus b.tokens (f.times (minutes f (now - b.last)) (f.of_int m.limit)))

  -- The answer for a bucket with so many tokens, by the test that it holds one, and the bucket
  -- afterwards
  abbrev pub admit : Bool → MemoryLimiter F → Time → Time → F → RateLimitInfo × Bucket F
  admit true m now last tokens = (
    record {
      allowed = true;
      limit = m.limit;
      remaining = f.to_int (f.minus tokens (one f));
      reset = add now minute;
    },
    record { tokens = f.minus tokens (one f); last = now },
  )
  admit false m now last tokens = (
    record { allowed = false; limit = m.limit; remaining = pos 0; reset = add now minute },
    record { tokens = tokens; last = last },
  )

  -- The answer for what the store has under the key
  unfoldable pub visit : MemoryLimiter F → Time → Option (Bucket F) → RateLimitInfo × Bucket F
  unfolding refilled
  visit m now none = (
    record {
      allowed = true;
      limit = m.limit;
      remaining = less_one m.limit;
      reset = add now minute;
    },
    record { tokens = f.of_int (less_one (add_int m.limit m.burst)); last = now },
  )
  visit m now (some b) =
      admit (f.at_least (refilled m now b) (one f)) m now b.last (refilled m now b)

  -- `MemoryLimiter.Allow`
  unfoldable pub allow : Time → Text → MemoryLimiter F → RateLimitInfo × MemoryLimiter F
  unfolding visit bucket_of
  allow now key m = kept key m (visit m now (bucket_of key m.buckets))

  -- Calls at times, with keys, one after the other
  unfoldable pub allow_all : List (Time × Text) → MemoryLimiter F → MemoryLimiter F
  unfolding allow
  allow_all [] m = m
  allow_all ((now, key) ∷ calls) m = allow_all calls (allow now key m).1
