-- ===== src/Strings/Atoi.antt =====
-- `strconv.Atoi` and `strconv.ParseBool`.
use api_free_demo.Base.{
  ℕ, ◌^◌, zero, suc, Bool, true, false, Option, none, some, List, [], ◌∷◌, Text, codes, text_eq,
  any, ltb, ◌==◌, ℤ, pos, negsuc, if◌then◌else◌,
}
use api_free_demo.Strings.{digits_from}

-- The digits of a number; there is at least one.
abbrev pub digits : Text → Option ℕ
digits [] = none
digits (c ∷ s) = digits_from 0 (c ∷ s)

-- A value in the range of a 64-bit `int`
abbrev pub positive : Option ℕ → Option ℤ
positive none = none
positive (some n) = if ltb n (2 ^ 63) then some (pos n) else none

abbrev pub negative : Option ℕ → Option ℤ
negative none = none
negative (some zero) = some (pos 0)
negative (some (suc n)) = if ltb n (2 ^ 63) then some (negsuc n) else none

-- `strconv.Atoi`
unfoldable pub atoi : Text → Option ℤ
unfolding digits_from
atoi [] = none
atoi (c ∷ s) =
    if c == b'-'
    then negative (digits s)
    else if c == b'+'
    then positive (digits s)
    else positive (digits (c ∷ s))

abbrev pub truths : List Text
truths = codes "1" ∷ codes "t" ∷ codes "T" ∷ codes "true" ∷ codes "TRUE" ∷ codes "True" ∷ []

abbrev pub falsehoods : List Text
falsehoods = codes "0" ∷ codes "f" ∷ codes "F" ∷ codes "false" ∷ codes "FALSE" ∷ codes "False" ∷ []

-- `strconv.ParseBool`
unfoldable pub parse_bool : Text → Option Bool
parse_bool s =
    if any (text_eq s) truths
    then some true
    else if any (text_eq s) falsehoods
    then some false
    else none
