-- ===== src/Reminder/Evaluate/Overdue.antt =====
-- When a reminder is overdue, due soon or snoozed.
use carma.Base.{
  ℕ, ◌≡◌, refl, ◌∙◌, ◌⊎◌, inl, inr, ◌↔◌, Bool, true, false, ◌||◌, Option, none, some, arith,
  Bool-cases,
}
use carma.Base.Int.{ℤ, ◌+int64◌, ◌-int64◌, ◌≤ℤ◌, leb_ℤ}
use carma.Base.Float.{Float}
use carma.Calendar.{Date, before, sub_days, add_months}
use carma.Calendar.Zone.{Zone}
use carma.Model.{Reminder}
use carma.Reminder.Snooze.{active_snooze}
use carma.Reminder.Evaluate.{
  up_to_date, due, soon_days, Evaluation, Progress, blank, baseline_date, check_months,
  baseline_odometer, project, check_reading, check_baseline, check_miles, finish, classify,
  evaluate,
}

-- The due date has come.
abbrev pub DueByDate : Option ℕ → Date → Date → Type 0
DueByDate none base day = ⊥
DueByDate (some months) base day = before day (add_months months base) ≡ false

-- The latest reading has come to the mileage that is due.
abbrev pub DueByMiles : Option ℤ → Option ℤ → Option ℤ → Type 0
DueByMiles (some miles) (some base) (some reading) = base +int64 miles ≤ℤ reading
DueByMiles none base latest = ⊥
DueByMiles (some miles) none latest = ⊥
DueByMiles (some miles) (some base) none = ⊥

-- The due date is at most 30 days off.
abbrev pub SoonByDate : Option ℕ → Date → Date → Type 0
SoonByDate none base day = ⊥
SoonByDate (some months) base day = before day (sub_days soon_days (add_months months base)) ≡ false

check_months-is_due :
    {F : Type 0} (zone : Zone) (r : Reminder F) (day : Date) (m : Option ℕ) (e : Evaluation F)
    → ((check_months zone r day m e).is_due ≡ true) ↔ DueByDate m (baseline_date zone r) day
unfolding check_months
check_months-is_due zone r day none e = (λ h. cc, λ h. absurd h)
check_months-is_due zone r day (some m) e = ground arith

abbrev pub at_least : Option ℤ → ℤ → Bool
at_least none d = false
at_least (some reading) d = leb_ℤ d reading

pub at_least_iff :
    (base miles : ℤ) (latest : Option ℤ)
    → (at_least latest (base +int64 miles) ≡ true) ↔ DueByMiles (some miles) (some base) latest
at_least_iff base miles none = (λ h. cc, λ h. absurd h)
at_least_iff base miles (some reading) = ground arith

through : {A B C D : Type 0} → B ↔ D → A ↔ (C ⊎ B) → A ↔ (C ⊎ D)
through e f = (
  λ a. elim (f.0 a) [ inl c ↦ inl c | inr b ↦ inr (e.0 b) ],
  λ t. elim t [ inl c ↦ f.1 (inl c) | inr d ↦ f.1 (inr (e.1 d)) ],
)

module _ (fl : Float) where
  open fl use {F, of_int, div, lt, le, round}

  project-is_due :
      (r : Reminder F) (day : Date) (left : ℤ) (rate : Option F) (p : Progress F)
      → (project fl r day left rate p).is_due ≡ p.is_due
  unfolding project
  project-is_due r day left none p = refl
  project-is_due r day left (some rate) p = ground arith

  check_reading-is_due :
      (r : Reminder F) (day : Date) (d : ℤ) (latest : Option ℤ) (p : Progress F)
      → (check_reading fl r day d latest p).is_due ≡ (p.is_due || at_least latest d)
  unfolding check_reading
  check_reading-is_due r day d none p = ground arith
  check_reading-is_due r day d (some reading) p = elim (Bool-cases (leb_ℤ d reading)) [
    | inl reached ↦ rw reached (ground arith)
    | inr ahead ↦
        rw ahead (project-is_due r day (d -int64 reading) r.miles_per_day _ ∙ ground arith)
  ]

  pub check_miles-is_due :
      (r : Reminder F) (day : Date) (m : Option ℤ) (p : Progress F)
      → ((check_miles fl r day m p).is_due ≡ true)
        ↔ ((p.is_due ≡ true) ⊎ DueByMiles m (baseline_odometer r) r.latest_odometer)
  unfolding check_miles
  check_miles-is_due r day none p = ground arith
  check_miles-is_due r day (some miles) p = by_baseline (baseline_odometer r)
    where
      by_reading :
          (d : ℤ) (latest : Option ℤ) (q : Progress F)
          → ((check_reading fl r day d latest q).is_due ≡ true)
            ↔ ((q.is_due ≡ true) ⊎ (at_least latest d ≡ true))
      by_reading d latest q = rw (check_reading-is_due r day d latest q) (ground arith)

      by_baseline :
          (base : Option ℤ)
          → ((check_baseline fl r day miles base p).is_due ≡ true)
            ↔ ((p.is_due ≡ true) ⊎ DueByMiles (some miles) base r.latest_odometer)
      by_baseline none = unfold check_baseline in ground arith
      by_baseline (some base) =
          unfold check_baseline in
          through (at_least_iff base miles r.latest_odometer)
            (by_reading (base +int64 miles) r.latest_odometer _)

  -- An enabled reminder is overdue exactly when no snooze holds and its due date has come or the
  -- latest reading has come to the mileage that is due, wrapped as an int64.
  pub evaluate-due_iff :
      (zone : Zone) (r : Reminder F) (day : Date)
      → ((evaluate fl zone r day).status ≡ due) ↔ (
          (r.enabled ≡ true)
          × (active_snooze r day ≡ none)
          × (DueByDate r.interval_months (baseline_date zone r) day
              ⊎ DueByMiles r.interval_miles (baseline_odometer r) r.latest_odometer))
  unfolding evaluate classify finish
  evaluate-due_iff zone r day = ground (
    arith,
    check_months-is_due zone r day r.interval_months (blank r up_to_date),
    check_miles-is_due r day r.interval_miles
        (check_months zone r day r.interval_months (blank r up_to_date)),
  )
