-- ===== src/RateLimit/Buckets.antt =====
-- What the buckets of the memory limiter hold.
use api_free_demo.Base.{
  ℕ, suc, ◌+◌, ◌^◌, ◌≡◌, ◌≢◌, refl, ◌∙◌, ap, Bool, true, false, Option, none, some, List, [], ◌∷◌,
  Text, text_eq, text_eq_iff, text_eq_refl, All, arith, pos, ltb, add_int, add_int_pos,
  add_int_pred, if◌then◌else◌, Bool-cases, inl, inr,
}
use api_free_demo.Time.{Time}
use api_free_demo.RateLimit.Float.{Float64, OrderLaws}
use api_free_demo.RateLimit.{
  Bucket, MemoryLimiter, new_memory_limiter, bucket_of, set_bucket, lesser, refilled, admit, visit,
  allow, allow_all,
}

module _ {F : Type 0} (f : Float64 F) (laws : OrderLaws f) where
  -- A bucket holds no more tokens than the number.
  abbrev IsBounded : F → Text × Bucket F → Type 0
  IsBounded most (k, b) = f.less most b.tokens ≡ false

  lesser-bound : (a b : F) → f.less a (lesser f a b) ≡ false
  lesser-bound a b = elim (Bool-cases (f.less a b)) [
    | inl smaller ↦ rw smaller (laws.irreflexive a)
    | inr other ↦ rw other other
  ]

  admit-bound :
      (test : Bool) (m : MemoryLimiter F) (now last : Time) (most tokens : F)
      → f.less most tokens ≡ false
      → f.less most (admit f test m now last tokens).1.tokens ≡ false
  admit-bound true m now last most tokens h = laws.one_less most tokens h
  admit-bound false m now last most tokens h = h

  module _ (limit burst n : ℕ) (sum : limit + burst ≡ suc n)
      (fits : ltb (suc n) (2 ^ 63) ≡ true) where
    total : add_int (pos limit) (pos burst) ≡ pos (suc n)
    total = add_int_pos limit burst (ap (λ x. ltb x (2 ^ 63)) sum ∙ fits) ∙ ap pos sum

    -- The limiter has these parameters, and every bucket is within their sum.
    abbrev pub Within : MemoryLimiter F → Type 0
    Within m =
        (m.limit ≡ pos limit)
        × (m.burst ≡ pos burst)
        × All (IsBounded (f.of_int (pos (suc n)))) m.buckets

    visit-bound :
        (m : MemoryLimiter F) (now : Time) (o : Option (Bucket F))
        → m.limit ≡ pos limit
        → m.burst ≡ pos burst
        → f.less (f.of_int (pos (suc n))) (visit f m now o).1.tokens ≡ false
    unfolding visit refilled
    visit-bound m now none l b =
        rw (l, b) (rw total (rw (add_int_pred n fits) (laws.monotone n (suc n) (omega arith))))
    visit-bound m now (some c) l b =
        admit-bound _ m now c.last (f.of_int (pos (suc n))) (refilled f m now c)
          (rw (l, b) (rw total (lesser-bound (f.of_int (pos (suc n))) _)))

  set_bucket-All :
      (most : F) (k : Text) (b : Bucket F) (store : List (Text × Bucket F))
      → f.less most b.tokens ≡ false
      → All (IsBounded most) store
      → All (IsBounded most) (set_bucket k b store)
  unfolding set_bucket
  set_bucket-All most k b [] h a = (h, tt)
  set_bucket-All most k b ((j, c) ∷ store) h a =
      go (text_eq k j) (set_bucket-All most k b store h a.1)
    where
      go :
          (test : Bool)
          → All (IsBounded most) (set_bucket k b store)
          → All (IsBounded most) (if test then (k, b) ∷ store else (j, c) ∷ set_bucket k b store)
      go true rest = (h, a.1)
      go false rest = (a.0, rest)

  module _ (limit burst n : ℕ) (sum : limit + burst ≡ suc n)
      (fits : ltb (suc n) (2 ^ 63) ≡ true) where
    allow-Within :
        (now : Time) (key : Text) (m : MemoryLimiter F)
        → Within limit burst n sum fits m
        → Within limit burst n sum fits (allow f now key m).1
    unfolding allow
    allow-Within now key m h = (
      h.0,
      h.1,
      set_bucket-All (f.of_int (pos (suc n))) key (visit f m now (bucket_of key m.buckets)).1
          m.buckets (visit-bound limit burst n sum fits m now (bucket_of key m.buckets) h.0 h.1)
          h.2,
    )

    allow_all-Within :
        (calls : List (Time × Text)) (m : MemoryLimiter F)
        → Within limit burst n sum fits m
        → Within limit burst n sum fits (allow_all f calls m)
    unfolding allow_all
    allow_all-Within [] m h = h
    allow_all-Within ((now, key) ∷ calls) m h =
        allow_all-Within calls (allow f now key m).1 (allow-Within now key m h)

    -- With comparisons as IEEE 754 has them, and a limit and a burst whose sum is positive and an
    -- `int`: whatever requests come to a new limiter, with whatever keys and at whatever times, no
    -- bucket ever holds more tokens than the limit and the burst together.
    pub buckets-Bounded :
        (calls : List (Time × Text))
        → All
            (λ (e : Text × Bucket F). f.less (f.of_int (pos (suc n))) e.1.tokens ≡ false)
            (allow_all f calls (new_memory_limiter (pos limit) (pos burst))).buckets
    unfolding new_memory_limiter
    buckets-Bounded calls =
        (allow_all-Within calls (record { limit = pos limit; burst = pos burst; buckets = [] })
          (refl, refl, tt)).2

bucket_of-set_ne :
    {F : Type 0} (j k : Text) (b : Bucket F) (store : List (Text × Bucket F))
    → j ≢ k
    → bucket_of j (set_bucket k b store) ≡ bucket_of j store
unfolding bucket_of set_bucket
bucket_of-set_ne j k b [] h = ground (arith, text_eq_iff j k)
bucket_of-set_ne j k b ((i, c) ∷ store) h =
    ground
      (arith, text_eq_iff j k, text_eq_iff k i, text_eq_iff j i, bucket_of-set_ne j k b store h)

pub bucket_of-set :
    {F : Type 0} (k : Text) (b : Bucket F) (store : List (Text × Bucket F))
    → bucket_of k (set_bucket k b store) ≡ some b
unfolding bucket_of set_bucket
bucket_of-set k b [] = rw (text_eq_refl k) refl
bucket_of-set k b ((i, c) ∷ store) = ground (arith, text_eq_refl k, bucket_of-set k b store)

-- Any requests with other keys leave the bucket of a key as it is.
pub allow_all_isolates :
    {F : Type 0} (f : Float64 F) (key : Text) (calls : List (Time × Text)) (m : MemoryLimiter F)
    → All (λ (c : Time × Text). key ≢ c.1) calls
    → bucket_of key (allow_all f calls m).buckets ≡ bucket_of key m.buckets
unfolding allow_all allow
allow_all_isolates f key [] m h = refl
allow_all_isolates f key ((now, k) ∷ calls) m h =
    allow_all_isolates f key calls (allow f now k m).1 h.1
    ∙ bucket_of-set_ne key k (visit f m now (bucket_of k m.buckets)).1 m.buckets h.0
