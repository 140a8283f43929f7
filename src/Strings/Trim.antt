-- ===== src/Strings/Trim.antt =====
-- Laws of trimming and lower case.
use api_free_demo.Base.{ℕ, ◌≡◌, refl, false, [], ◌∷◌, arith, Text, ap, ◌∙◌}
use api_free_demo.Strings.{
  is_space, trim_left, keep_right, trim_right, trim_space, lower_rune, to_lower,
}

-- The first character is no space.
abbrev pub IsTrimmedLeft : Text → Type 0
IsTrimmedLeft [] = Unit
IsTrimmedLeft (c ∷ s) = is_space c ≡ false

trim_left-IsTrimmedLeft : (s : Text) → IsTrimmedLeft (trim_left s)
unfolding trim_left
trim_left-IsTrimmedLeft [] = tt
trim_left-IsTrimmedLeft (c ∷ s) = ground (arith, trim_left-IsTrimmedLeft s)

trim_left_fixed : (s : Text) → IsTrimmedLeft s → trim_left s ≡ s
unfolding trim_left
trim_left_fixed [] h = refl
trim_left_fixed (c ∷ s) h = rw h refl

keep_right-IsTrimmedLeft : (c : ℕ) (s : Text) → is_space c ≡ false → IsTrimmedLeft (keep_right c s)
keep_right-IsTrimmedLeft c [] h = rw h h
keep_right-IsTrimmedLeft c (d ∷ s) h = h

trim_right-IsTrimmedLeft : (s : Text) → IsTrimmedLeft s → IsTrimmedLeft (trim_right s)
unfolding trim_right
trim_right-IsTrimmedLeft [] h = tt
trim_right-IsTrimmedLeft (c ∷ s) h = keep_right-IsTrimmedLeft c (trim_right s) h

trim_right-keep_right :
    (c : ℕ) (s : Text) → trim_right s ≡ s → trim_right (keep_right c s) ≡ keep_right c s
unfolding trim_right
trim_right-keep_right c [] h = ground arith
trim_right-keep_right c (d ∷ s) h = rw h refl

trim_right_idem : (s : Text) → trim_right (trim_right s) ≡ trim_right s
unfolding trim_right
trim_right_idem [] = refl
trim_right_idem (c ∷ s) = trim_right-keep_right c (trim_right s) (trim_right_idem s)

-- Trimming twice is trimming once.
pub trim_space_idem : (s : Text) → trim_space (trim_space s) ≡ trim_space s
unfolding trim_space
trim_space_idem s =
    ap trim_right (
      trim_left_fixed (trim_right (trim_left s))
        (trim_right-IsTrimmedLeft (trim_left s) (trim_left-IsTrimmedLeft s)))
    ∙ trim_right_idem (trim_left s)

lower_rune_idem : (c : ℕ) → lower_rune (lower_rune c) ≡ lower_rune c
unfolding lower_rune
lower_rune_idem c = ground arith

pub to_lower_idem : (s : Text) → to_lower (to_lower s) ≡ to_lower s
unfolding to_lower
to_lower_idem [] = refl
to_lower_idem (c ∷ s) = cc (lower_rune_idem c, to_lower_idem s)
