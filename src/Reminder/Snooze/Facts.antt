-- ===== src/Reminder/Snooze/Facts.antt =====
-- What a resolved snooze holds, and when a stored one is active.
use carma.Base.{
  ℕ, ◌+◌, ◌-◌, ◌/◌, ◌%◌, ◌==◌, ◌≤◌, ◌<◌, ◌≡◌, ◌≢◌, refl, ap, ◌⊎◌, ◌↔◌, true, Option, none, some,
  arith, if◌then◌else◌, min,
}
use carma.Base.Int.{
  ℤ, pos, pos_part, neg_part, ◌+int64◌, ◌+ℤ◌, ◌<ℤ◌, ◌≤ℤ◌, max_int64, +ℤ_parts, wrap64-eq, IsInt64,
}
use carma.Base.Text.{Text, text, text_eq_iff, trim_space}
use carma.Base.Result.{ok}
use carma.Calendar.{Date, date, before, add_days, days_in_month, normal_date, previous}
use carma.Calendar.Days.{IsValid, before_iff, days_in_month_bounds}
use carma.Calendar.Steps.{add_days-IsValid, day_number-add_days, december}
use carma.Model.{Reminder}
use carma.Reminder.Snooze.{
  Snooze, snooze, snooze_mile_step, plus_step, add_one_month, custom_snooze, resolve_snooze,
  active_snooze,
}

-- A threshold that today has not reached, and a mileage that the reading has not reached.
abbrev pub DateHolds : Option Date → Date → Type 0
DateHolds none today = ⊥
DateHolds (some until) today = before today until ≡ true

abbrev pub MilesHold : Option ℤ → Option ℤ → Type 0
MilesHold none latest = ⊥
MilesHold (some until) none = Unit {0}
MilesHold (some until) (some reading) = reading <ℤ until

-- A snooze holds just while one of its set thresholds has not been reached.
pub active_snooze_iff :
    {F : Type 0} (r : Reminder F) (today : Date)
    → (active_snooze r today ≢ none)
      ↔ (DateHolds r.snoozed_until_on today ⊎ MilesHold r.snoozed_until_miles r.latest_odometer)
unfolding active_snooze
active_snooze_iff r today = ground arith

-- The first of the next month, by cases.
next_month-eq :
    (y m : ℕ)
    → 1 ≤ m
    → m ≤ 12
    → normal_date y (m + 1) 1 ≡ (if m == 12 then date (y + 1) 1 1 else date y (m + 1) 1)
unfolding normal_date
next_month-eq y m lo hi =
    ground (arith, days_in_month_bounds (y + (m + 1 - 1) / 12) ((m + 1 - 1) % 12 + 1))

-- The day before the first of the next month is the last of this one.
last_day-eq :
    (y m : ℕ) → 1 ≤ m → m ≤ 12 → (previous (normal_date y (m + 1) 1)).day ≡ days_in_month y m
unfolding previous
last_day-eq y m lo hi =
    rw (next_month-eq y m lo hi) (ground (arith, december y, ap (days_in_month y) (back m)))
  where
    back : (n : ℕ) → n + 1 - 1 ≡ n
    back n = omega arith

january : (y : ℕ) → days_in_month y 1 ≡ 31
unfolding days_in_month
january y = refl

-- addOneMonth goes to the same day of the next month, and to that month's last day where it is
-- shorter.
pub add_one_month-eq :
    (t : Date)
    → IsValid t
    → add_one_month t ≡ (
        if t.month == 12
        then date (t.year + 1) 1 t.day
        else date t.year (t.month + 1) (min t.day (days_in_month t.year (t.month + 1))))
unfolding add_one_month
add_one_month-eq t v = ground (
  arith,
  next_month-eq t.year t.month v.month_bounds.0 v.month_bounds.1,
  last_day-eq (t.year + 1) 1 (omega arith) (omega arith),
  λ (lt : t.month < 12). last_day-eq t.year (t.month + 1) (omega arith) (omega arith),
  january (t.year + 1),
  december t.year,
)

pub add_one_month-IsValid : (t : Date) → IsValid t → IsValid (add_one_month t)
add_one_month-IsValid t v = rw (add_one_month-eq t v) (
    ground
      (arith, january (t.year + 1), december t.year, days_in_month_bounds t.year (t.month + 1)))

before-add_one_month : (t : Date) → IsValid t → before t (add_one_month t) ≡ true
unfolding before
before-add_one_month t v = rw (add_one_month-eq t v) (ground arith)

before-add_days : (n : ℕ) (t : Date) → IsValid t → 0 < n → before t (add_days n t) ≡ true
before-add_days n t v pos_n =
    (before_iff t (add_days n t) v (add_days-IsValid n t v)).1
      (omega (arith, day_number-add_days n t v))

-- A threshold of the snooze holds today, at the reading that it was made with.
abbrev pub Holds : Snooze → Date → Option ℤ → Type 0
Holds s today latest = DateHolds s.until_on today ⊎ MilesHold s.until_miles latest

custom_snooze-Holds :
    (on miles : Text) (today : Date) (latest : Option ℤ) (s : Snooze)
    → custom_snooze on miles today latest ≡ ok s
    → Holds s today latest
unfolding custom_snooze
custom_snooze-Holds on miles today latest s h = ground arith

-- A nonnegative reading to which a step of 500 miles can be added in an int64.
abbrev pub StepFits : Option ℤ → Type 0
StepFits none = Unit {0}
StepFits (some reading) = (pos 0 ≤ℤ reading) × (reading +ℤ snooze_mile_step ≤ℤ max_int64)

plus_step_grows :
    (reading : ℤ) → StepFits (some reading) → reading <ℤ reading +int64 snooze_mile_step
unfolding ◌+int64◌
plus_step_grows reading (low, fits) =
    rw (wrap64-eq (reading +ℤ snooze_mile_step) in_range) (omega (arith, sum))
  where
    sum :
        pos_part (reading +ℤ snooze_mile_step) + neg_part reading
        ≡ neg_part (reading +ℤ snooze_mile_step) + pos_part reading + 500
    sum = omega (arith, +ℤ_parts reading snooze_mile_step)

    in_range : IsInt64 (reading +ℤ snooze_mile_step)
    in_range = record { above = omega (arith, sum); below = fits }

plus_step-Holds :
    (today : Date) (latest : Option ℤ) (s : Snooze)
    → StepFits latest
    → plus_step latest ≡ ok s
    → Holds s today latest
plus_step-Holds today none s fits h = cc
plus_step-Holds today (some reading) s fits h = ground (arith, plus_step_grows reading fits)

-- A snooze that the reminders page can make either clears both thresholds, and then "clear" was
-- chosen, or holds on the day and at the reading that it was made with.
pub resolve_snooze-Holds :
    (preset on miles : Text) (today : Date) (latest : Option ℤ) (s : Snooze)
    → IsValid today
    → StepFits latest
    → resolve_snooze preset on miles today latest ≡ ok s
    → (trim_space preset ≡ text "clear") × (s ≡ snooze none none) ⊎ Holds s today latest
unfolding resolve_snooze
resolve_snooze-Holds preset on miles today latest s v fits h = ground (
  arith,
  before-add_days 14 today v,
  before-add_one_month today v,
  plus_step-Holds today latest s fits,
  text_eq_iff (trim_space preset) (text "clear"),
  custom_snooze-Holds on miles today latest s,
)
