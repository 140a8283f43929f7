-- ===== src/Time/Civil.antt =====
-- The year, the month and the day that `civil` reads, and `date`.
use api_free_demo.Base.{
  ℕ, zero, suc, ◌+◌, ◌-◌, ◌*◌, ◌/◌, ◌%◌, ◌≤◌, ◌<◌, ◌≡◌, refl, ap, ◌∙◌, true, false, leb, ◌==◌,
  arith, some, Bool-cases, inl, inr, if◌then◌else◌,
}
use api_free_demo.Time.{days_in, days_before_month, days_before_year, is_leap, date}
use api_free_demo.Time.Calendar.{day, year_in_cycle, year_of, month_from, civil}

-- A cycle of 400 years has 146097 days.
days_before_year-cycle :
    (c g : ℕ) → days_before_year (c * 400 + g) ≡ c * 146097 + days_before_year g
unfolding days_before_year
days_before_year-cycle c g = omega arith

year_in_cycle-bounds :
    (r : ℕ)
    → r < 146097
    → (days_before_year (year_in_cycle r) ≤ r) × (r < days_before_year (year_in_cycle r + 1))
unfolding year_in_cycle days_before_year
year_in_cycle-bounds r h = elim (Bool-cases (leb (days_before_year (r / 366 + 1)) r)) [
  | inl later ↦ rw later (ground arith)
  | inr same ↦ rw same (ground arith)
]

leb-true : (a b : ℕ) → a ≤ b → leb a b ≡ true
leb-true a b h = ground arith

year_length :
    (y : ℕ) → days_before_year (y + 1) ≡ days_before_year y + (if is_leap y then 366 else 365)
unfolding days_before_year
year_length y = ground arith

pub year_of-bounds :
    (d : ℕ) → (days_before_year (year_of d) ≤ d) × (d < days_before_year (year_of d + 1))
unfolding year_of
year_of-bounds d =
    let g = year_in_cycle (d % 146097) in
    let b = year_in_cycle-bounds (d % 146097) (omega arith) in
    (
      omega (arith, days_before_year-cycle (d / 146097) g, b.0),
      omega (arith, days_before_year-cycle (d / 146097) (g + 1), b.1),
    )

-- The month of a day is the one that contains it.
record IsMonth (most y n k : ℕ) : Type 0 where
  first : 1 ≤ k
  last : k ≤ most
  begun : days_before_month k y ≤ n
  open_end : n < days_before_month (k + 1) y

first_month : (y n : ℕ) → n < days_before_month 1 y → ⊥
unfolding days_before_month
first_month y n h = omega (arith, h)

month_from-IsMonth :
    (m y n : ℕ) → n < days_before_month (m + 1) y → IsMonth m y n (month_from m y n)
unfolding month_from
month_from-IsMonth zero y n h = absurd (first_month y n h)
month_from-IsMonth (suc m) y n h = elim (Bool-cases (leb (days_before_month (suc m) y) n)) [
  | inl begun ↦
      rw begun
        (record { first = omega arith; last = omega arith; begun = ground arith; open_end = h })
  | inr later ↦
      let earlier = month_from-IsMonth m y n (ground arith) in
      rw later (record {
        first = earlier.first;
        last = omega (arith, earlier.last);
        begun = earlier.begun;
        open_end = earlier.open_end;
      })
]

one_more : (k : ℕ) → k + 1 ≡ suc k
one_more k = omega arith

month_suc : (y k : ℕ) → 1 ≤ k → days_before_month (suc k) y ≡ days_before_month k y + days_in k y
unfolding days_before_month
month_suc y k h = rw not_first refl
  where
    not_first : (k == 0) ≡ false
    not_first = ground arith

month_length : (y k : ℕ) → 1 ≤ k → days_before_month (k + 1) y ≡ days_before_month k y + days_in k y
month_length y k h = ap (λ j. days_before_month j y) (one_more k) ∙ month_suc y k h

months_of_year : (y : ℕ) → days_before_month 13 y ≡ (if is_leap y then 366 else 365)
unfolding days_before_month days_in
months_of_year y = elim (Bool-cases (is_leap y)) [
  | inl leap ↦ rw leap refl
  | inr common ↦ rw common refl
]

date_of :
    (y m d : ℕ)
    → 1 ≤ m
    → m ≤ 12
    → 1 ≤ d
    → d ≤ days_in m y
    → date y m d ≡ some ((days_before_year y + days_before_month m y + d - 1) * day)
unfolding date
date_of y m d h k i j =
    rw (leb-true 1 m h, leb-true m 12 k, leb-true 1 d i, leb-true d (days_in m y) j) refl

civil-IsMonth : (d : ℕ) → IsMonth 12 (year_of d) (d - days_before_year (year_of d)) (civil d).1
unfolding civil
civil-IsMonth d =
    let y = year_of d in
    let bounds = year_of-bounds d in
    month_from-IsMonth 12 y (d - days_before_year y)
      (omega (arith, bounds.0, bounds.1, year_length y, months_of_year y))

-- `date` gives back the start of the day that `civil` names.
pub date-civil : (d : ℕ) → date (civil d).0 (civil d).1 (civil d).2 ≡ some (d * day)
unfolding civil
date-civil d =
    let y = year_of d in
    let bounds = year_of-bounds d in
    let month = civil-IsMonth d in
    date_of y (civil d).1 (civil d).2 month.first month.last (omega arith)
      (omega (arith, month.begun, month.open_end, month_length y (civil d).1 month.first))
    ∙ ap (λ k. some (k * day)) (omega (arith, month.begun, bounds.0))

year_limit : (y d : ℕ) → days_before_year y ≤ d → d < 3652425 → y < 10000
unfolding days_before_year
year_limit y d h k = omega (arith, h, k)

days_in_limit : (m y : ℕ) → days_in m y ≤ 31
unfolding days_in
days_in_limit m y = ground arith

-- Before the year 10000 the three numbers fit their fields.
pub civil-fits :
    (d : ℕ) → d < 3652425 → ((civil d).0 < 10000) × ((civil d).1 < 100) × ((civil d).2 < 100)
unfolding civil
civil-fits d h =
    let y = year_of d in
    let month = civil-IsMonth d in
    (
      year_limit y d (year_of-bounds d).0 h,
      omega (arith, month.last),
      omega (
        arith,
        month.begun,
        month.open_end,
        month_length y (civil d).1 month.first,
        days_in_limit (civil d).1 y,
      ),
    )
