-- ===== src/Config/Lists.antt =====
-- Lists in variables: what `splitAndTrim` reads, and what reading again gives.
use api_free_demo.Base.{
  ℕ, ◌≡◌, refl, ap, ◌∙◌, Bool, false, List, [], ◌∷◌, ◌++◌, Text, codes, any, All, arith, ◌==◌,
  Bool-cases, inl, inr,
}
use api_free_demo.Strings.{trim_left, keep_right, trim_right, trim_space}
use api_free_demo.Strings.Trim.{trim_space_idem}
use api_free_demo.Config.{
  longer, split_commas, keep_part, trim_parts, split_and_trim, is_empty, join,
}

abbrev has_comma : Text → Bool
has_comma s = any (λ c. c == b',') s

abbrev HasNoComma : Text → Type 0
HasNoComma s = has_comma s ≡ false

-- An entry as `splitAndTrim` keeps it
record IsEntry (x : Text) : Type 0 where
  is_some : is_empty x ≡ false
  is_trimmed : trim_space x ≡ x
  is_one : HasNoComma x

trim_left-HasNoComma : (s : Text) → HasNoComma s → HasNoComma (trim_left s)
unfolding trim_left
trim_left-HasNoComma [] h = refl
trim_left-HasNoComma (c ∷ s) h = ground (arith, trim_left-HasNoComma s)

keep_right-HasNoComma :
    (c : ℕ) (s : Text) → (c == b',') ≡ false → HasNoComma s → HasNoComma (keep_right c s)
keep_right-HasNoComma c [] h k = ground arith
keep_right-HasNoComma c (d ∷ s) h k = ground arith

trim_right-HasNoComma : (s : Text) → HasNoComma s → HasNoComma (trim_right s)
unfolding trim_right
trim_right-HasNoComma [] h = refl
trim_right-HasNoComma (c ∷ s) h =
    keep_right-HasNoComma c (trim_right s) (ground arith) (trim_right-HasNoComma s (ground arith))

trim_space-HasNoComma : (s : Text) → HasNoComma s → HasNoComma (trim_space s)
unfolding trim_space
trim_space-HasNoComma s h = trim_right-HasNoComma (trim_left s) (trim_left-HasNoComma s h)

longer-HasNoComma :
    (c : ℕ) (parts : List Text)
    → (c == b',') ≡ false
    → All HasNoComma parts
    → All HasNoComma (longer c parts)
longer-HasNoComma c [] h k = (ground arith, tt)
longer-HasNoComma c (part ∷ parts) h k = (ground (arith, k.0), k.1)

split_commas-HasNoComma : (s : Text) → All HasNoComma (split_commas s)
unfolding split_commas
split_commas-HasNoComma [] = (refl, tt)
split_commas-HasNoComma (c ∷ s) = elim (Bool-cases (c == b',')) [
  | inl comma ↦ rw comma (refl, split_commas-HasNoComma s)
  | inr other ↦ rw other (longer-HasNoComma c (split_commas s) other (split_commas-HasNoComma s))
]

keep_part-IsEntry :
    (x : Text) (out : List Text)
    → trim_space x ≡ x
    → HasNoComma x
    → All IsEntry out
    → All IsEntry (keep_part x out)
keep_part-IsEntry [] out h k rest = rest
keep_part-IsEntry (c ∷ s) out h k rest =
    (record { is_some = refl; is_trimmed = h; is_one = k }, rest)

trim_parts-IsEntry : (parts : List Text) → All HasNoComma parts → All IsEntry (trim_parts parts)
unfolding trim_parts
trim_parts-IsEntry [] h = tt
trim_parts-IsEntry (p ∷ parts) h =
    keep_part-IsEntry (trim_space p) (trim_parts parts) (trim_space_idem p)
      (trim_space-HasNoComma p h.0) (trim_parts-IsEntry parts h.1)

split_and_trim-parts : (s : Text) → split_and_trim s ≡ trim_parts (split_commas s)
unfolding split_and_trim trim_space
split_and_trim-parts [] = refl
split_and_trim-parts (c ∷ s) = refl

split_and_trim-IsEntry : (s : Text) → All IsEntry (split_and_trim s)
split_and_trim-IsEntry s =
    rw (split_and_trim-parts s) (trim_parts-IsEntry (split_commas s) (split_commas-HasNoComma s))

-- A part in front of a comma, and a last part
split_commas-part : (x t : Text) → HasNoComma x → split_commas (x ++ b',' ∷ t) ≡ x ∷ split_commas t
unfolding split_commas
split_commas-part [] t h = refl
split_commas-part (c ∷ x) t h = elim (Bool-cases (c == b',')) [
  | inl comma ↦ absurd (ground arith)
  | inr other ↦ rw (other, split_commas-part x t (ground arith)) refl
]

split_commas-last : (x : Text) → HasNoComma x → split_commas x ≡ x ∷ []
unfolding split_commas
split_commas-last [] h = refl
split_commas-last (c ∷ x) h = elim (Bool-cases (c == b',')) [
  | inl comma ↦ absurd (ground arith)
  | inr other ↦ rw (other, split_commas-last x (ground arith)) refl
]

-- A space in front of a part is trimmed.
trim_parts-longer : (parts : List Text) → trim_parts (longer b' ' parts) ≡ trim_parts parts
unfolding trim_parts trim_space
trim_parts-longer [] = refl
trim_parts-longer (part ∷ parts) = refl

keep_part-IsSome : (x : Text) (out : List Text) → is_empty x ≡ false → keep_part x out ≡ x ∷ out
keep_part-IsSome [] out h = absurd (ground (arith, h))
keep_part-IsSome (c ∷ s) out h = refl

trim_parts-entry :
    (x : Text) (parts : List Text) → IsEntry x → trim_parts (x ∷ parts) ≡ x ∷ trim_parts parts
unfolding trim_parts
trim_parts-entry x parts h =
    ap (λ y. keep_part y (trim_parts parts)) h.is_trimmed
    ∙ keep_part-IsSome x (trim_parts parts) h.is_some

trim_parts-none : trim_parts [] ≡ []
unfolding trim_parts
trim_parts-none = refl

no_parts : trim_parts (split_commas []) ≡ []
unfolding trim_parts split_commas trim_space
no_parts = refl

trim_parts-join :
    (items : List Text)
    → All IsEntry items
    → trim_parts (split_commas (join (codes ", ") items)) ≡ items
unfolding join split_commas
trim_parts-join [] h = no_parts
trim_parts-join (x ∷ []) h =
    ap trim_parts (split_commas-last x h.0.is_one)
    ∙ trim_parts-entry x [] h.0
    ∙ ap (λ rest. x ∷ rest) trim_parts-none
trim_parts-join (x ∷ y ∷ ys) h =
    ap trim_parts (split_commas-part x (b' ' ∷ join (codes ", ") (y ∷ ys)) h.0.is_one)
    ∙ trim_parts-entry x (split_commas (b' ' ∷ join (codes ", ") (y ∷ ys))) h.0
    ∙ ap (λ rest. x ∷ rest)
        (trim_parts-longer (split_commas (join (codes ", ") (y ∷ ys)))
          ∙ trim_parts-join (y ∷ ys) h.1)

-- The list that `splitAndTrim` reads from any text, written with `", "` between its entries as
-- the CORS middleware writes it, is read again as the same list.
pub split_and_trim-join :
    (val : Text) → split_and_trim (join (codes ", ") (split_and_trim val)) ≡ split_and_trim val
split_and_trim-join val =
    split_and_trim-parts (join (codes ", ") (split_and_trim val))
    ∙ trim_parts-join (split_and_trim val) (split_and_trim-IsEntry val)
