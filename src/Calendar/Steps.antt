-- ===== src/Calendar/Steps.antt =====
-- Steps of days and months, by day numbers.
use carma.Base.{
  ℕ, zero, suc, ◌+◌, ◌-◌, ◌/◌, ◌%◌, ◌≤◌, ◌<◌, ◌≡◌, refl, ap, inl, inr, arith, ltb, Bool-cases,
}
use carma.Calendar.{
  Date, is_leap, days_in_month, next, previous, add_days, sub_days, normal_date, add_months,
  sub_months,
}
use carma.Calendar.Days.{
  IsValid, day_number, day_number-next, next-IsValid, days_in_month_bounds, days_in_year,
  year_start_mono, month_start_mono, day_number-eq,
}

pub add_days-IsValid : (n : ℕ) (t : Date) → IsValid t → IsValid (add_days n t)
unfolding add_days
add_days-IsValid zero t v = v
add_days-IsValid (suc n) t v = add_days-IsValid n (next t) (next-IsValid t v)

-- `n` days on, the day number is larger by n.
pub day_number-add_days :
    (n : ℕ) (t : Date) → IsValid t → day_number (add_days n t) ≡ day_number t + n
unfolding add_days
day_number-add_days zero t v = omega arith
day_number-add_days (suc n) t v =
    omega (arith, day_number-add_days n (next t) (next-IsValid t v), day_number-next t v)

pub previous-IsValid : (t : Date) → IsValid t → IsValid (previous t)
unfolding previous days_in_month
previous-IsValid t v = ground arith

pub december : (y : ℕ) → days_in_month y 12 ≡ 31
unfolding days_in_month
december y = refl

day_number_zero : (t : Date) → t.year ≡ 0 → t.month ≡ 1 → t.day ≡ 1 → day_number t ≡ 0
unfolding day_number
day_number_zero t y m d = rw (y, m, d)

first_day : (t : Date) → IsValid t → day_number t ≡ 0 → (t.year ≡ 0) × (t.month ≡ 1) × (t.day ≡ 1)
first_day t v z = ground (
  arith,
  day_number-eq t,
  λ (lt : 0 < t.year). year_start_mono 0 t.year lt,
  λ (lt : 1 < t.month). month_start_mono t.year 1 t.month (omega arith) lt,
  days_in_month_bounds t.year 1,
  year_zero,
)
  where
    year_zero : 366 ≤ days_in_year 0
    year_zero = unfold days_in_year is_leap in omega arith

-- The day after the day before is the day itself, but on the first day of year 0.
pub next-previous : (t : Date) → IsValid t → 0 < day_number t → next (previous t) ≡ t
unfolding next previous
next-previous t v h =
    ground
      (arith, december (t.year - 1), days_in_month_bounds t.year (t.month - 1), day_number_zero t)

pub day_number-previous : (t : Date) → IsValid t → day_number (previous t) ≡ day_number t - 1
day_number-previous t v = elim (Bool-cases (ltb 0 (day_number t))) [
  | inl h ↦ omega (
    arith,
    ap day_number (next-previous t v (ground arith)),
    day_number-next (previous t) (previous-IsValid t v),
  )
  | inr h ↦ at_zero (ground arith)
]
  where
    stays : t.year ≡ 0 → t.month ≡ 1 → t.day ≡ 1 → previous t ≡ t
    stays y m d = unfold previous in ground arith

    at_zero : day_number t ≡ 0 → day_number (previous t) ≡ day_number t - 1
    at_zero z = let (y, m, d) = first_day t v z in omega (arith, ap day_number (stays y m d))

pub sub_days-IsValid : (n : ℕ) (t : Date) → IsValid t → IsValid (sub_days n t)
unfolding sub_days
sub_days-IsValid zero t v = v
sub_days-IsValid (suc n) t v = sub_days-IsValid n (previous t) (previous-IsValid t v)

-- `n` days back, the day number is smaller by n, and stops at 0.
pub day_number-sub_days :
    (n : ℕ) (t : Date) → IsValid t → day_number (sub_days n t) ≡ day_number t - n
unfolding sub_days
day_number-sub_days zero t v = omega arith
day_number-sub_days (suc n) t v =
    omega
      (arith, day_number-sub_days n (previous t) (previous-IsValid t v), day_number-previous t v)

-- time.Date gives a real date for every month from 1 on and every day from 1 to 31.
pub normal_date-IsValid : (y m d : ℕ) → 1 ≤ m → 1 ≤ d → d ≤ 31 → IsValid (normal_date y m d)
unfolding normal_date
normal_date-IsValid y m d hm hd hi = ground (
  arith,
  days_in_month_bounds (y + (m - 1) / 12) ((m - 1) % 12 + 1),
  days_in_month_bounds (y + (m - 1) / 12) ((m - 1) % 12 + 1 + 1),
  days_in_month_bounds (y + (m - 1) / 12 + 1) 1,
)

pub add_months-IsValid : (n : ℕ) (t : Date) → IsValid t → IsValid (add_months n t)
unfolding add_months
add_months-IsValid n t v =
    normal_date-IsValid t.year (t.month + n) t.day (omega (arith, v)) v.day_bounds.0
      (omega (arith, days_in_month_bounds t.year t.month))

pub sub_months-IsValid : (n : ℕ) (t : Date) → IsValid t → IsValid (sub_months n t)
unfolding sub_months
sub_months-IsValid n t v =
    normal_date-IsValid _ _ t.day (omega arith) v.day_bounds.0
      (omega (arith, days_in_month_bounds t.year t.month))
