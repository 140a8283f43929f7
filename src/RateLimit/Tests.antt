-- ===== src/RateLimit/Tests.antt =====
-- Runs of limiters, with whole numbers in place of `float64`: they satisfy the laws.
use api_free_demo.Base.{
  ℕ, ◌+◌, ◌-◌, ◌*◌, ◌/◌, ◌≡◌, ◌≢◌, refl, false, List, [], ◌∷◌, Text, codes, arith, ℤ, pos, negsuc,
  ltb, leb, All, suc,
}
use api_free_demo.Time.{Time, minute, second}
use api_free_demo.RateLimit.{Bucket, MemoryLimiter, new_memory_limiter, bucket_of, allow, allow_all}
use api_free_demo.RateLimit.Float.{Float64, OrderLaws, ExactLaws}
use api_free_demo.RateLimit.Buckets.{buckets-Bounded, allow_all_isolates}
use api_free_demo.RateLimit.Burst.{polls, burst_is_admitted}

abbrev whole_of : ℤ → ℕ
whole_of (pos n) = n
whole_of (negsuc n) = 0

abbrev whole : Float64 ℕ
whole = record {
  of_int = whole_of;
  to_int = pos;
  plus = λ x y. x + y;
  minus = λ x y. x - y;
  times = λ x y. x * y;
  over = λ x y. x / y;
  less = λ x y. ltb x y;
  at_least = λ x y. leb y x;
}

whole-OrderLaws : OrderLaws whole
whole-OrderLaws = record {
  irreflexive = λ x. ground arith;
  monotone = λ a b h. ground arith;
  one_less = λ x y h. ground arith;
}

nothing_over : (n : ℕ) → 0 / suc n ≡ 0
nothing_over n = omega arith

whole-ExactLaws : ExactLaws whole
whole-ExactLaws = record {
  less_exact = λ a b h k. refl;
  at_least_exact = λ a b h k. refl;
  minus_exact = λ n h. omega arith;
  plus_nought = λ n. omega arith;
  times_nought = λ n. omega arith;
  over_nought = nothing_over;
}

abbrev calls : List (Time × Text)
calls = (0, codes "a") ∷ (second, codes "a") ∷ (second, codes "b") ∷ []

buckets-Bounded_example :
    All
      (λ (e : Text × Bucket ℕ). ltb 3 e.1.tokens ≡ false)
      (allow_all whole calls (new_memory_limiter (pos 2) (pos 1))).buckets
buckets-Bounded_example = buckets-Bounded whole whole-OrderLaws 2 1 2 refl refl calls

burst_is_admitted_example :
    (allow whole second
      (codes "a")
      (allow_all whole (polls 3 second (codes "a")) (new_memory_limiter (pos 2) (pos 1)))).0.allowed
    ≡ false
burst_is_admitted_example =
    burst_is_admitted whole whole-ExactLaws 2 1 (omega arith) (omega arith) second (codes "a") 3

-- A bucket that was emptied at the time 0
abbrev empty : MemoryLimiter ℕ
empty = record {
  limit = pos 1;
  burst = pos 0;
  buckets = (codes "a", record { tokens = 0; last = 0 }) ∷ [];
}

a_ne_b : codes "a" ≢ codes "b"
a_ne_b = ground arith

allow_all_isolates_example :
    bucket_of
      (codes "a")
      (allow_all whole ((second, codes "b") ∷ (minute, codes "b") ∷ []) empty).buckets
    ≡ bucket_of (codes "a") empty.buckets
allow_all_isolates_example =
    allow_all_isolates whole (codes "a") ((second, codes "b") ∷ (minute, codes "b") ∷ []) empty
      (a_ne_b, (a_ne_b, tt))
