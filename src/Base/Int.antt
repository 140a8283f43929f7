-- ===== src/Base/Int.antt =====
-- Go's `int`: integers over the native numbers, and the 64-bit increment.
use Prim.Native.Nat.{ℕ, zero, suc, ◌+◌, ◌-◌, ◌*◌, ◌%◌, ◌^◌}
use mathlib.Core.Path.{◌≡◌, refl, ap}
use mathlib.Core.Logic.{◌↔◌, ◌≢◌, inl, inr}
use mathlib.Core.Bool.{Bool, true, false}
use native.Mathlib.Omega.{arith}
use api_free_demo.Base.Tests.{ltb, ◌==◌, ==_iff, Bool-cases, if◌then◌else◌}

-- `negsuc n` is -(n + 1).
pub data ℤ : Type 0 where
  pos : ℕ → ℤ
  negsuc : ℕ → ℤ

abbrev pub eq_ℤ : ℤ → ℤ → Bool
eq_ℤ (pos a) (pos b) = a == b
eq_ℤ (negsuc a) (negsuc b) = a == b
eq_ℤ (pos _) (negsuc _) = false
eq_ℤ (negsuc _) (pos _) = false

pub eq_ℤ_iff : (a b : ℤ) → (eq_ℤ a b ≡ true) ↔ (a ≡ b)
eq_ℤ_iff (pos a) (pos b) = ground arith
eq_ℤ_iff (pos a) (negsuc b) = ground arith
eq_ℤ_iff (negsuc a) (pos b) = ground arith
eq_ℤ_iff (negsuc a) (negsuc b) = ground arith

-- `x + 1` on a 64-bit `int`, with its wrap-around.
unfoldable pub increment : ℤ → ℤ
increment (pos n) = if n + 1 == 2 ^ 63 then negsuc (2 ^ 63 - 1) else pos (n + 1)
increment (negsuc zero) = pos 0
increment (negsuc (suc n)) = negsuc n

-- What an INT column of the tables holds: 32 bits, signed.
abbrev pub fits_int4 : ℤ → Bool
fits_int4 (pos n) = ltb n (2 ^ 31)
fits_int4 (negsuc n) = ltb n (2 ^ 31)

-- Below the limit the increment is plain addition.
pub increment_pos : (n : ℕ) → ltb n (2 ^ 31) ≡ true → increment (pos n) ≡ pos (n + 1)
unfolding increment
increment_pos n h = ground arith

pub eq_ℤ_ne : (a b : ℤ) → a ≢ b → eq_ℤ a b ≡ false
eq_ℤ_ne (pos a) (pos b) h = elim (Bool-cases (a == b)) [
  | inl same ↦ absurd (h (ap pos ((==_iff a b).0 same)))
  | inr other ↦ other
]
eq_ℤ_ne (pos a) (negsuc b) h = refl
eq_ℤ_ne (negsuc a) (pos b) h = refl
eq_ℤ_ne (negsuc a) (negsuc b) h = elim (Bool-cases (a == b)) [
  | inl same ↦ absurd (h (ap negsuc ((==_iff a b).0 same)))
  | inr other ↦ other
]

-- The 64-bit number of a residue
abbrev pub signed : ℕ → ℤ
signed r = if ltb r (2 ^ 63) then pos r else negsuc (2 ^ 64 - 1 - r)

-- The residue of a 64-bit number, and `x + y` on `int` with its wrap-around
abbrev pub residue : ℤ → ℕ
residue (pos n) = n % 2 ^ 64
residue (negsuc n) = 2 ^ 64 - 1 - n % 2 ^ 64

unfoldable pub add_int : ℤ → ℤ → ℤ
add_int a b = signed ((residue a + residue b) % 2 ^ 64)

-- In the range of `int` the sum is plain addition.
pub add_int_pos : (a b : ℕ) → ltb (a + b) (2 ^ 63) ≡ true → add_int (pos a) (pos b) ≡ pos (a + b)
unfolding add_int
add_int_pos a b h = ground arith

pub add_int_pred : (n : ℕ) → ltb (suc n) (2 ^ 63) ≡ true → add_int (pos (suc n)) (negsuc 0) ≡ pos n
unfolding add_int
add_int_pred n h = ground arith

-- `time.Duration(x) * unit` for a unit that is not 0, with its wrap-around
unfoldable pub times : ℕ → ℤ → ℤ
times unit (pos n) = signed (n * unit % 2 ^ 64)
times unit (negsuc n) = signed (2 ^ 64 - 1 - (suc n * unit - 1) % 2 ^ 64)
