-- ===== src/Calendar/Days.antt =====
-- Days counted from the first day of year 0: dates are ordered as their numbers are, and steps of
-- days and months move by them.
use carma.Base.{
  ℕ, zero, suc, ◌+◌, ◌-◌, ◌*◌, ◌/◌, ◌≤◌, ◌<◌, ◌≡◌, refl, ap, inl, inr, true, false, ◌↔◌, arith,
  if◌then◌else◌, Bool-cases,
}
use carma.Calendar.{Date, is_leap, days_in_month, before, next}

pub record IsValid (t : Date) : Type 0 where
  pub month_bounds : (1 ≤ t.month) × (t.month ≤ 12)
  pub day_bounds : (1 ≤ t.day) × (t.day ≤ days_in_month t.year t.month)

unfoldable pub month_start : ℕ → ℕ → ℕ
month_start y zero = 0
month_start y (suc zero) = 0
month_start y (suc (suc m)) = month_start y (suc m) + days_in_month y (suc m)

unfoldable pub days_in_year : ℕ → ℕ
days_in_year y = if is_leap y then 366 else 365

-- The leap years below y are counted by its multiples of 4, 100 and 400.
unfoldable pub year_start : ℕ → ℕ
year_start y = y * 365 + (y + 3) / 4 - (y + 99) / 100 + (y + 399) / 400

-- The number of a date: Go's Unix seconds of its midnight in UTC over 86400, less a constant.
unfoldable pub day_number : Date → ℕ
unfolding month_start year_start
day_number t = year_start t.year + month_start t.year t.month + t.day - 1

year_start-suc : (y : ℕ) → year_start (suc y) ≡ year_start y + days_in_year y
unfolding year_start days_in_year is_leap
year_start-suc y = ground arith

month_start-suc : (y i : ℕ) → 1 ≤ i → month_start y (suc i) ≡ month_start y i + days_in_month y i
unfolding month_start
month_start-suc y zero h = absurd (omega arith)
month_start-suc y (suc i) h = refl

month_start-december : (y : ℕ) → month_start y 13 ≡ days_in_year y
unfolding days_in_month days_in_year month_start
month_start-december y = ground arith

pub days_in_month_bounds : (y m : ℕ) → (28 ≤ days_in_month y m) × (days_in_month y m ≤ 31)
unfolding days_in_month
days_in_month_bounds y m = ground arith

-- The calendar step is the step of day numbers.
pub day_number-next : (t : Date) → IsValid t → day_number (next t) ≡ day_number t + 1
unfolding day_number next
day_number-next t v =
    ground
      (arith, month_start-suc t.year t.month, year_start-suc t.year, month_start-december t.year)

pub next-IsValid : (t : Date) → IsValid t → IsValid (next t)
unfolding next
next-IsValid t v =
    ground (arith, days_in_month_bounds t.year (t.month + 1), days_in_month_bounds (t.year + 1) 1)

month_start-lt :
    (y m k : ℕ) → 1 ≤ m → month_start y m + days_in_month y m ≤ month_start y (suc m + k)
month_start-lt y m zero h = omega (arith, month_start-suc y m h, ap (month_start y) plain)
  where
    plain : suc m + 0 ≡ suc m
    plain = omega arith
month_start-lt y m (suc k) h =
    let carry : suc m + suc k ≡ suc (suc m + k) = omega arith in
    rw carry (omega (arith, month_start-suc y (suc m + k) (omega arith), month_start-lt y m k h))

pub month_start_mono :
    (y a b : ℕ) → 1 ≤ a → a < b → month_start y a + days_in_month y a ≤ month_start y b
month_start_mono y a b h lt =
    let apart : suc a + (b - suc a) ≡ b = omega arith in
    rw apart at (month_start-lt y a (b - suc a) h)

year_start-lt : (y k : ℕ) → year_start y + days_in_year y ≤ year_start (suc y + k)
year_start-lt y zero = omega (arith, year_start-suc y, ap year_start plain)
  where
    plain : suc y + 0 ≡ suc y
    plain = omega arith
year_start-lt y (suc k) =
    let carry : suc y + suc k ≡ suc (suc y + k) = omega arith in
    rw carry (omega (arith, year_start-suc (suc y + k), year_start-lt y k))

pub year_start_mono : (a b : ℕ) → a < b → year_start a + days_in_year a ≤ year_start b
year_start_mono a b lt =
    let apart : suc a + (b - suc a) ≡ b = omega arith in rw apart at (year_start-lt a (b - suc a))

-- The day of the year lies within the year.
pub day_of_year_range :
    (t : Date) → IsValid t → month_start t.year t.month + t.day ≤ days_in_year t.year
day_of_year_range t v = omega (
  arith,
  month_start-december t.year,
  month_start_mono t.year t.month 13 v.month_bounds.0 (omega arith),
)

-- The parts of a day number, with the year's and the month's shares kept whole.
pub day_number-eq :
    (t : Date) → day_number t ≡ year_start t.year + month_start t.year t.month + t.day - 1
unfolding day_number
day_number-eq t = refl

pub before→lt :
    (a b : Date) → IsValid a → IsValid b → before a b ≡ true → day_number a < day_number b
unfolding before
before→lt a b va vb h = ground (
  arith,
  day_number-eq a,
  day_number-eq b,
  λ (lt : a.year < b.year). year_start_mono a.year b.year lt,
  λ (lt : a.month < b.month). month_start_mono a.year a.month b.month va.month_bounds.0 lt,
  day_of_year_range a va,
  day_of_year_range b vb,
)

-- Dates are ordered as their day numbers are.
pub before_iff :
    (a b : Date) → IsValid a → IsValid b → (before a b ≡ true) ↔ (day_number a < day_number b)
before_iff a b va vb = (
  before→lt a b va vb,
  λ lt. elim (Bool-cases (before a b)) [
    | inl yes_before ↦ yes_before
    | inr not_before ↦ absurd (not_later not_before lt)
  ],
)
  where
    same : before a b ≡ false → before b a ≡ false → day_number a ≡ day_number b
    same p q = unfold day_number before in ground arith

    not_later : before a b ≡ false → day_number a < day_number b → ⊥
    not_later p lt = elim (Bool-cases (before b a)) [
      | inl q ↦ omega (arith, before→lt b a vb va q)
      | inr q ↦ omega (arith, same p q)
    ]
