-- ===== src/Time.antt =====
-- Go's `time.Time` as nanoseconds since the start of the year 0, in UTC, and `time.Parse` with
-- the layout `2006-01-02`.
pub mod Calendar
pub mod Rfc3339
pub mod Civil
pub mod RoundTrip
mod Tests
use api_free_demo.Base.{
  ℕ, ◌+◌, ◌-◌, ◌*◌, ◌/◌, ◌%◌, Bool, not, ◌&&◌, ◌||◌, Option, none, some, [], ◌∷◌, Text, leb, ◌==◌,
  if◌then◌else◌,
}
use api_free_demo.Strings.{is_digit}

abbrev pub Time : Type 0
Time = ℕ

abbrev pub second : ℕ
second = 1_000_000_000

abbrev pub minute : ℕ
minute = 60 * second

-- `t.Add(d)`
abbrev pub add : Time → ℕ → Time
add t d = t + d

abbrev pub digit : ℕ → ℕ
digit c = c - b'0'

abbrev pub is_leap : ℕ → Bool
is_leap y = y % 4 == 0 && (not (y % 100 == 0) || y % 400 == 0)

unfoldable pub days_in : ℕ → ℕ → ℕ
days_in m y =
    if m == 2
    then (if is_leap y then 29 else 28)
    else if m == 4 || m == 6 || m == 9 || m == 11
    then 30
    else 31

-- Days from the start of the year to the start of the month.
unfoldable pub days_before_month : ℕ → ℕ → ℕ
unfolding days_in
days_before_month ℕ.zero y = 0
days_before_month (ℕ.suc m) y = if m == 0 then 0 else days_before_month m y + days_in m y

unfoldable pub days_before_year : ℕ → ℕ
days_before_year y = 365 * y + (y + 3) / 4 - (y + 99) / 100 + (y + 399) / 400

-- The start of a day of the calendar, if there is such a day.
unfoldable pub date : ℕ → ℕ → ℕ → Option Time
unfolding days_in days_before_month days_before_year
date y m d =
    if leb 1 m && leb m 12 && leb 1 d && leb d (days_in m y)
    then some ((days_before_year y + days_before_month m y + d - 1) * (86400 * second))
    else none

-- `time.Parse("2006-01-02", s)`
unfoldable pub parse_date : Text → Option Time
unfolding date
parse_date (y₁ ∷ y₂ ∷ y₃ ∷ y₄ ∷ s₁ ∷ m₁ ∷ m₂ ∷ s₂ ∷ d₁ ∷ d₂ ∷ []) =
    if is_digit y₁
      && is_digit y₂
      && is_digit y₃
      && is_digit y₄
      && s₁ == b'-'
      && is_digit m₁
      && is_digit m₂
      && s₂ == b'-'
      && is_digit d₁
      && is_digit d₂
    then date (digit y₁ * 1000 + digit y₂ * 100 + digit y₃ * 10 + digit y₄)
        (digit m₁ * 10 + digit m₂) (digit d₁ * 10 + digit d₂)
    else none
parse_date _ = none
