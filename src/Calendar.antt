-- ===== src/Calendar.antt =====
-- Calendar dates as Go's time package computes with them: the code keeps dates as midnights of one
-- location, so that only their year, month and day matter. Years are not negative, and a step back
-- past the first day of year 0 stays there; the dates of the program lie far above.
pub mod Days
pub mod Steps
pub mod Zone
use carma.Base.{
  ℕ, zero, suc, ◌+◌, ◌-◌, ◌*◌, ◌/◌, ◌%◌, Bool, true, false, not, ◌||◌, ◌&&◌, ltb, leb, ◌==◌,
  if◌then◌else◌,
}

pub record Date : Type 0 where
  pub year : ℕ
  pub month : ℕ
  pub day : ℕ

unfoldable pub is_leap : ℕ → Bool
is_leap y = y % 4 == 0 && (not (y % 100 == 0) || y % 400 == 0)

-- A date by its parts, as time.Date takes them.
abbrev pub date : (y m d : ℕ) → Date
date y m d = record { month = m; day = d; year = y }

unfoldable pub days_in_month : ℕ → ℕ → ℕ
unfolding is_leap
days_in_month y m =
    if (m == 4) || (m == 6) || (m == 9) || (m == 11)
    then 30
    else if not (m == 2)
    then 31
    else if is_leap y
    then 29
    else 28

-- t.Before(u), t.After(u) and t.Equal(u) on midnights of one location.
unfoldable pub before : Date → Date → Bool
before a b =
    if a.year == b.year
    then (if a.month == b.month then ltb a.day b.day else ltb a.month b.month)
    else ltb a.year b.year

abbrev pub after : Date → Date → Bool
after a b = before b a

-- The day after and the day before.
unfoldable pub next : Date → Date
next t =
    if leb (days_in_month t.year t.month) t.day
    then (if leb 12 t.month then date (t.year + 1) 1 1 else date t.year (t.month + 1) 1)
    else record t { day = t.day + 1 }

unfoldable pub previous : Date → Date
previous t =
    if ltb 1 t.day
    then record t { day = t.day - 1 }
    else if ltb 1 t.month
    then date t.year (t.month - 1) (days_in_month t.year (t.month - 1))
    else if t.year == 0
    then t
    else date (t.year - 1) 12 31

-- t.AddDate(0, 0, n) and t.AddDate(0, 0, -n), a day at a time.
unfoldable pub add_days : ℕ → Date → Date
add_days zero t = t
add_days (suc n) t = add_days n (next t)

unfoldable pub sub_days : ℕ → Date → Date
sub_days zero t = t
sub_days (suc n) t = sub_days n (previous t)

-- time.Date(year, month, day): a month above 12 carries into the year, and a day past the end of its
-- month into the next. A day is at most 31 here, so it carries once.
unfoldable pub normal_date : ℕ → ℕ → ℕ → Date
normal_date y m d =
    let y' = y + (m - 1) / 12 in
    let m' = (m - 1) % 12 + 1 in
    if leb d (days_in_month y' m')
    then date y' m' d
    else if m' == 12
    then date (y' + 1) 1 (d - days_in_month y' m')
    else date y' (m' + 1) (d - days_in_month y' m')

-- t.AddDate(0, n, 0)
unfoldable pub add_months : ℕ → Date → Date
add_months n t = normal_date t.year (t.month + n) t.day

-- t.AddDate(0, -n, 0)
unfoldable pub sub_months : ℕ → Date → Date
sub_months n t =
    let months = t.year * 12 + t.month - 1 - n in normal_date (months / 12) (months % 12 + 1) t.day
