-- ===== src/Time/RoundTrip.antt =====
-- Writing and reading times in the layout `time.RFC3339`.
use api_free_demo.Base.{
  ℕ, ◌+◌, ◌-◌, ◌*◌, ◌/◌, ◌%◌, ◌≤◌, ◌<◌, ◌≡◌, refl, ap, ◌∙◌, true, false, ltb, arith, some, [], ◌∷◌,
  ◌++◌, Text, Bool-cases, inl, inr,
}
use api_free_demo.Strings.{is_digit}
use api_free_demo.Strings.Decimal.{decimal}
use api_free_demo.Time.{Time, second, date}
use api_free_demo.Time.Calendar.{day, civil}
use api_free_demo.Time.Civil.{date-civil, civil-fits}
use api_free_demo.Time.Rfc3339.{
  two, four, calendar, format_rfc3339, two_digits, hour_digits, four_digits, at_clock, zoned,
  parse_rfc3339,
}

ltb-true : (a b : ℕ) → a < b → ltb a b ≡ true
ltb-true a b h = ground arith

-- The start of the year 10000
abbrev pub date_limit : Time
date_limit = 3652425 * day

digit-mod : (n : ℕ) → is_digit (n % 10 + b'0') ≡ true
digit-mod n = ground arith

two-value : (n : ℕ) → n < 100 → (n / 10 % 10 + b'0' - b'0') * 10 + (n % 10 + b'0' - b'0') ≡ n
two-value n h = omega (arith, h)

two_digits-two : (n : ℕ) (s : Text) → n < 100 → two_digits (two n ++ s) ≡ some (n, s)
unfolding two_digits
two_digits-two n s h = rw (digit-mod (n / 10), digit-mod n) (ap (λ k. some (k, s)) (two-value n h))

hour_digits-two : (n : ℕ) (s : Text) → n < 100 → hour_digits (two n ++ s) ≡ some (n, s)
unfolding hour_digits
hour_digits-two n s h = rw (digit-mod (n / 10), digit-mod n) (ap (λ k. some (k, s)) (two-value n h))

decimal-four : (y : ℕ) → 1000 ≤ y → y < 10000 → decimal y ≡ two (y / 100) ++ two (y % 100)
unfolding decimal
decimal-four y h k = rw (long, two_long, three_long, short) (cc (thousands, hundreds, tens, ones))
  where
    long : ltb y 10 ≡ false
    long = ground arith

    two_long : ltb (y / 10) 10 ≡ false
    two_long = ground arith

    three_long : ltb (y / 10 / 10) 10 ≡ false
    three_long = ground arith

    short : ltb (y / 10 / 10 / 10) 10 ≡ true
    short = ground arith

    thousands : y / 10 / 10 / 10 ≡ y / 100 / 10 % 10
    thousands = omega (arith, h, k)

    hundreds : y / 10 / 10 % 10 ≡ y / 100 % 10
    hundreds = omega arith

    tens : y / 10 % 10 ≡ y % 100 / 10 % 10
    tens = omega arith

    ones : y % 10 ≡ y % 100 % 10
    ones = omega arith

four-two : (y : ℕ) → y < 10000 → four y ≡ two (y / 100) ++ two (y % 100)
four-two y h = elim (Bool-cases (ltb y 1000)) [
  | inl short ↦ rw short refl
  | inr long ↦ rw long (decimal-four y (ground arith) h)
]

four_digits-four : (y : ℕ) (s : Text) → y < 10000 → four_digits (four y ++ s) ≡ some (y, s)
unfolding four_digits
four_digits-four y s h = rw (four-two y h) (
    rw
      (
        two_digits-two (y / 100) (two (y % 100) ++ s) (omega arith),
        two_digits-two (y % 100) s (omega arith),
      )
      (ap (λ k. some (k, s)) (omega arith)))

-- The fields of a date and of a clock, with the end of the text in UTC
parse-fields :
    (y m d h i s : ℕ) (t : Time)
    → y < 10000
    → m < 100
    → d < 100
    → h < 24
    → i < 60
    → s < 60
    → date y m d ≡ some t
    → parse_rfc3339
        (calendar (y, m, d) (b'T' ∷ (two h ++ (b':' ∷ (two i ++ (b':' ∷ (two s ++ b'Z' ∷ [])))))))
      ≡ some (t + (h * 3600 + i * 60 + s) * second + 0)
unfolding parse_rfc3339 at_clock zoned
parse-fields y m d h i s t hy hm hd hh hi hs e = rw (four_digits-four y _ hy) (
    rw (two_digits-two m _ hm) (
      rw (two_digits-two d _ hd) (
        rw (hour_digits-two h _ (omega (arith, hh)), ltb-true h 24 hh)
          (rw (two_digits-two i _ (omega (arith, hi)), ltb-true i 60 hi)
            (rw (two_digits-two s (b'Z' ∷ []) (omega (arith, hs)), ltb-true s 60 hs)
              (rw e refl))))))

-- A time before the year 10000 that is written in the layout `time.RFC3339` is read again without
-- the fraction of its second.
pub parse-format :
    (t : Time) → t < date_limit → parse_rfc3339 (format_rfc3339 t) ≡ some (t / second * second)
unfolding format_rfc3339
parse-format t h =
    let secs = t / second % 86400 in
    let c = civil (t / day) in
    let fits = civil-fits (t / day) (omega (arith, h)) in
    parse-fields c.0 c.1 c.2 (secs / 3600) (secs / 60 % 60) (secs % 60) (t / day * day) fits.0
      fits.1 fits.2 (omega arith) (omega arith) (omega arith) (date-civil (t / day))
    ∙ ap some (omega arith)
