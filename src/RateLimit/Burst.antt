-- ===== src/RateLimit/Burst.antt =====
-- What the memory limiter admits of requests with one key at one time.
use api_free_demo.Base.{
  ℕ, zero, suc, ◌+◌, ◌-◌, ◌≤◌, ◌^◌, ◌≡◌, refl, ◌∙◌, ap, true, false, some, List, [], ◌∷◌, Text,
  arith, pos, negsuc, ltb, leb, add_int, add_int_pos, add_int_pred, text_eq_refl,
}
use api_free_demo.Time.{Time}
use api_free_demo.RateLimit.Float.{Float64, ExactLaws, minutes, nought, one}
use api_free_demo.RateLimit.{
  Bucket, MemoryLimiter, new_memory_limiter, bucket_of, refilled, admit, visit, allow, allow_all,
  set_bucket,
}
use api_free_demo.RateLimit.Buckets.{bucket_of-set}

-- The same request several times at one time
abbrev pub polls : ℕ → Time → Text → List (Time × Text)
polls zero now key = []
polls (suc n) now key = (now, key) ∷ polls n now key

module _ {F : Type 0} (f : Float64 F) (laws : ExactLaws f) (limit burst : ℕ)
    (some_capacity : 1 ≤ limit + burst) (exact : limit + burst ≤ 2 ^ 53) (now : Time)
    (key : Text) where
  total : add_int (pos limit) (pos burst) ≡ pos (limit + burst)
  total = add_int_pos limit burst (ground arith)

  one_back : (n : ℕ) → n ≡ suc n - 1
  one_back n = omega arith

  less_one_exact : (n : ℕ) → 1 ≤ n → n ≤ 2 ^ 53 → add_int (pos n) (negsuc 0) ≡ pos (n - 1)
  less_one_exact zero h k = absurd (omega arith)
  less_one_exact (suc n) h k = add_int_pred n (ground arith) ∙ ap pos (one_back n)

  no_time : now - now ≡ 0
  no_time = omega arith

  idle : minutes f (now - now) ≡ nought f
  unfolding minutes
  idle =
      ap (minutes f) no_time
      ∙ ap (f.plus (nought f)) (laws.over_nought 59999999999)
      ∙ laws.plus_nought 0

  -- The bucket of the key, after so many requests and one more at the time
  abbrev Spent : ℕ → MemoryLimiter F → Type 0
  Spent k m =
      (m.limit ≡ pos limit)
      × (m.burst ≡ pos burst)
      × (bucket_of key m.buckets ≡ some (record { tokens = f.of_int (pos k); last = now }))

  refilled-idle :
      (k : ℕ) (m : MemoryLimiter F) (b : Bucket F)
      → k ≤ limit + burst
      → m.limit ≡ pos limit
      → m.burst ≡ pos burst
      → b ≡ record { tokens = f.of_int (pos k); last = now }
      → refilled f m now b ≡ f.of_int (pos k)
  unfolding refilled
  refilled-idle k m b h l c e =
      rw (l, c, e)
        (rw (total, idle, laws.times_nought limit, laws.plus_nought k)
          (rw (laws.less_exact (limit + burst) k exact (omega arith)) (rw (full_first k h) refl)))
    where
      full_first : (k : ℕ) → k ≤ limit + burst → ltb (limit + burst) k ≡ false
      full_first k h = ground arith

  one_there : (j : ℕ) → leb 1 (suc j) ≡ true
  one_there j = ground arith

  more : (j : ℕ) → true ≡ ltb 0 (suc j)
  more j = ground arith

  -- A request takes one token where there is one, and is denied where there is none.
  admit-exact :
      (k : ℕ) (m : MemoryLimiter F)
      → k ≤ limit + burst
      → ((admit f (f.at_least (f.of_int (pos k)) (one f)) m now now (f.of_int (pos k))).0.allowed
          ≡ ltb 0 k)
        × ((admit f (f.at_least (f.of_int (pos k)) (one f)) m now now (f.of_int (pos k))).1
            ≡ record { tokens = f.of_int (pos (k - 1)); last = now })
  admit-exact zero m h = rw (laws.at_least_exact 0 1 (omega arith) (omega arith)) (refl, refl)
  admit-exact (suc j) m h =
      rw (laws.at_least_exact (suc j) 1 (omega arith) (omega arith) ∙ one_there j) (
        more j,
        ap (λ t. record { tokens = t; last = now })
            (laws.minus_exact j (omega arith) ∙ ap (λ n. f.of_int (pos n)) (one_back j)),
      )

  visit-Spent :
      (k : ℕ) (m : MemoryLimiter F)
      → k ≤ limit + burst
      → Spent k m
      → ((visit f m now (bucket_of key m.buckets)).0.allowed ≡ ltb 0 k)
        × ((visit f m now (bucket_of key m.buckets)).1
            ≡ record { tokens = f.of_int (pos (k - 1)); last = now })
  unfolding visit
  visit-Spent k m h s = rw s.2 (
      rw (refilled-idle k m (record { tokens = f.of_int (pos k); last = now }) h s.0 s.1 refl)
        (admit-exact k m h))

  allow-Spent :
      (k : ℕ) (m : MemoryLimiter F)
      → k ≤ limit + burst
      → Spent k m
      → ((allow f now key m).0.allowed ≡ ltb 0 k) × Spent (k - 1) (allow f now key m).1
  unfolding allow
  allow-Spent k m h s =
      let (allowed, bucket) = visit-Spent k m h s in
      (
        allowed,
        (
          s.0,
          s.1,
          bucket_of-set key (visit f m now (bucket_of key m.buckets)).1 m.buckets ∙ ap some bucket,
        ),
      )

  one_later : (n k : ℕ) → ltb n (k - 1) ≡ ltb (suc n) k
  one_later n k = ground arith

  polls-Spent :
      (n k : ℕ) (m : MemoryLimiter F)
      → k ≤ limit + burst
      → Spent k m
      → (allow f now key (allow_all f (polls n now key) m)).0.allowed ≡ ltb n k
  unfolding allow_all
  polls-Spent zero k m h s = (allow-Spent k m h s).0
  polls-Spent (suc n) k m h s =
      polls-Spent n (k - 1) (allow f now key m).1 (omega arith) (allow-Spent k m h s).1
      ∙ one_later n k

  new : MemoryLimiter F
  new = record { limit = pos limit; burst = pos burst; buckets = [] }

  first-Spent :
      ((allow f now key new).0.allowed ≡ true) × Spent (limit + burst - 1) (allow f now key new).1
  unfolding allow visit bucket_of set_bucket new
  first-Spent = (
    refl,
    (
      refl,
      refl,
      rw (text_eq_refl key) (
          ap (λ z. some (record { tokens = f.of_int z; last = now }))
            (ap (λ z. add_int z (negsuc 0)) total
              ∙ less_one_exact (limit + burst) some_capacity exact)),
    ),
  )

  -- With `float64` exact on integers up to 2 ^ 53, and a limit and a burst whose sum is between 1
  -- and 2 ^ 53: of the requests with one key that come to a new limiter at one time, the first as
  -- many as limit and burst together are admitted, and every further one is denied.
  pub burst_is_admitted :
      (n : ℕ)
      → (allow f now key
          (allow_all f (polls n now key) (new_memory_limiter (pos limit) (pos burst)))).0.allowed
        ≡ ltb n (limit + burst)
  unfolding new_memory_limiter allow_all new
  burst_is_admitted zero = first-Spent.0 ∙ positive
    where
      positive : true ≡ ltb 0 (limit + burst)
      positive = ground arith
  burst_is_admitted (suc n) =
      polls-Spent n (limit + burst - 1) (allow f now key new).1 (omega arith) first-Spent.1
      ∙ one_later n (limit + burst)
