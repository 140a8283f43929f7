-- ===== src/RateLimit/Float.antt =====
-- The `float64` arithmetic of internal/infrastructure/ratelimit/limiter.go: its operations as a
-- parameter, and what IEEE 754 says of them.
use api_free_demo.Base.{ℕ, ◌≤◌, ◌/◌, ◌%◌, ◌^◌, ◌≡◌, suc, Bool, false, ℤ, pos, leb, ltb}
use api_free_demo.Time.{minute}

-- `at_least x y` is `x >= y`, and `to_int` the conversion to `int`.
pub record Float64 (F : Type 0) : Type 0 where
  pub of_int : ℤ → F
  pub to_int : F → ℤ
  pub plus : F → F → F
  pub minus : F → F → F
  pub times : F → F → F
  pub over : F → F → F
  pub less : F → F → Bool
  pub at_least : F → F → Bool

module _ {F : Type 0} (f : Float64 F) where
  abbrev pub nought : F
  nought = f.of_int (pos 0)

  abbrev pub one : F
  one = f.of_int (pos 1)

  -- `Duration.Minutes`, of nanoseconds
  unfoldable pub minutes : ℕ → F
  minutes d =
      f.plus (f.of_int (pos (d / minute)))
        (f.over (f.of_int (pos (d % minute))) (f.of_int (pos minute)))

  -- Comparisons are those of numbers, and taking 1 away never leaves more: rounding is monotone.
  pub record OrderLaws : Type 0 where
    pub irreflexive : (x : F) → f.less x x ≡ false
    pub monotone : (a b : ℕ) → a ≤ b → f.less (f.of_int (pos b)) (f.of_int (pos a)) ≡ false
    pub one_less : (x y : F) → f.less x y ≡ false → f.less x (f.minus y one) ≡ false

  -- Integers up to 2 ^ 53 are exact, and so is arithmetic with 0.
  pub record ExactLaws : Type 0 where
    pub less_exact :
        (a b : ℕ) → a ≤ 2 ^ 53 → b ≤ 2 ^ 53 → f.less (f.of_int (pos a)) (f.of_int (pos b)) ≡ ltb a b
    pub at_least_exact :
        (a b : ℕ)
        → a ≤ 2 ^ 53
        → b ≤ 2 ^ 53
        → f.at_least (f.of_int (pos a)) (f.of_int (pos b)) ≡ leb b a
    pub minus_exact :
        (n : ℕ) → suc n ≤ 2 ^ 53 → f.minus (f.of_int (pos (suc n))) one ≡ f.of_int (pos n)
    pub plus_nought : (n : ℕ) → f.plus (f.of_int (pos n)) nought ≡ f.of_int (pos n)
    pub times_nought : (n : ℕ) → f.times nought (f.of_int (pos n)) ≡ nought
    pub over_nought : (n : ℕ) → f.over nought (f.of_int (pos (suc n))) ≡ nought
