-- ===== src/Time/Rfc3339.antt =====
-- `Format` and `time.Parse` with the layout `time.RFC3339`. A parsed time before the year 0, which
-- only an offset at its start can give, is taken for the start of the year 0: no row is older.
use api_free_demo.Base.{
  ℕ, ◌+◌, ◌-◌, ◌*◌, ◌/◌, ◌%◌, ◌&&◌, ◌||◌, Option, none, some, [], ◌∷◌, ◌++◌, Text, ltb, ◌==◌,
  if◌then◌else◌,
}
use api_free_demo.Strings.{is_digit}
use api_free_demo.Strings.Decimal.{decimal}
use api_free_demo.Time.{Time, second, digit, date}
use api_free_demo.Time.Calendar.{day, civil}

abbrev pub two : ℕ → Text
two n = (n / 10 % 10 + b'0') ∷ (n % 10 + b'0') ∷ []

-- At least four digits
abbrev pub four : ℕ → Text
four y = if ltb y 1000 then two (y / 100) ++ two (y % 100) else decimal y

-- The time of day, with the zone of UTC
abbrev pub clock : ℕ → Text
clock s = two (s / 3600) ++ (b':' ∷ (two (s / 60 % 60) ++ (b':' ∷ (two (s % 60) ++ b'Z' ∷ []))))

abbrev pub calendar : ℕ × ℕ × ℕ → Text → Text
calendar (y, m, d) rest = four y ++ (b'-' ∷ (two m ++ (b'-' ∷ (two d ++ rest))))

-- `t.Format(time.RFC3339)` of a time in UTC
unfoldable pub format_rfc3339 : Time → Text
format_rfc3339 t = calendar (civil (t / day)) (b'T' ∷ clock (t / second % 86400))

-- A field that is read, with what is left of the text
abbrev pub Read : Type 0
Read = Option (ℕ × Text)

abbrev pub then_read {ℓ} : {A : Type ℓ} → Read → (ℕ → Text → Option A) → Option A
then_read none k = none
then_read (some (n, s)) k = k n s

-- Two digits
unfoldable pub two_digits : Text → Read
two_digits (a ∷ b ∷ s) = if is_digit a && is_digit b then some (digit a * 10 + digit b, s) else none
two_digits _ = none

-- The hour may have one digit only.
unfoldable pub hour_digits : Text → Read
hour_digits (a ∷ b ∷ s) =
    if is_digit a && is_digit b
    then some (digit a * 10 + digit b, s)
    else if is_digit a
    then some (digit a, b ∷ s)
    else none
hour_digits (a ∷ []) = if is_digit a then some (digit a, []) else none
hour_digits [] = none

unfoldable pub four_digits : Text → Read
four_digits s =
    then_read (two_digits s) λ a t. then_read (two_digits t) λ b u. some (a * 100 + b, u)

abbrev pub below : ℕ → Read → Read
below n none = none
below n (some (k, s)) = if ltb k n then some (k, s) else none

-- A field behind a separator
abbrev pub after : ℕ → (Text → Read) → Text → Read
after sep field [] = none
after sep field (c ∷ s) = if c == sep then field s else none

-- The digits of a fraction: nine of them count.
unfoldable pub fraction_from : ℕ → ℕ → Text → ℕ × Text
fraction_from unit acc [] = (acc, [])
fraction_from unit acc (c ∷ s) =
    let rest = fraction_from (unit / 10) (acc + digit c * unit) s in
    if is_digit c then rest else (acc, c ∷ s)

-- A fraction of a second, if there is one
abbrev pub fraction : Text → ℕ × Text
fraction (c ∷ d ∷ s) =
    if (c == b'.' || c == b',') && is_digit d
    then fraction_from 100_000_000 0 (d ∷ s)
    else (0, c ∷ d ∷ s)
fraction s = (0, s)

-- The zone at the end: `Z`, or a sign with hours and minutes. The result is the time in UTC.
abbrev pub shifted : ℕ → Time → Read → Option Time
shifted sign t (some (offset, [])) =
    if sign == b'+'
    then some (t - offset * second)
    else if sign == b'-'
    then some (t + offset * second)
    else none
shifted sign t (some (offset, _ ∷ _)) = none
shifted sign t none = none

unfoldable pub offset : Text → Read
offset s =
    then_read (below 25 (two_digits s))
      λ h t. then_read (below 61 (after b':' two_digits t)) λ m u. some (h * 3600 + m * 60, u)

unfoldable pub zoned : Time → Text → Option Time
zoned t [] = none
zoned t (c ∷ s) =
    if c == b'Z' then elim s [ [] ↦ some t | _ ∷ _ ↦ none ] else shifted c t (offset s)

unfoldable pub at_clock : Option Time → ℕ → ℕ × Text → Option Time
at_clock none seconds (ns, rest) = none
at_clock (some midnight) seconds (ns, rest) = zoned (midnight + seconds * second + ns) rest

-- `time.Parse(time.RFC3339, s)`
unfoldable pub parse_rfc3339 : Text → Option Time
parse_rfc3339 s = then_read (four_digits s) λ year s. then_read (after b'-' two_digits s) λ month s.
    then_read (after b'-' two_digits s) λ dom s.
      then_read (below 24 (after b'T' hour_digits s)) λ hour s.
        then_read (below 60 (after b':' two_digits s)) λ min s.
          then_read (below 60 (after b':' two_digits s))
            λ sec s. at_clock (date year month dom) (hour * 3600 + min * 60 + sec) (fraction s)
