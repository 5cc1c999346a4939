-- ===== src/Reminder/Evaluate/Passing.antt =====
-- How the evaluation moves as days pass, as the rate changes and as a snooze is stored.
use carma.Base.{
  ℕ, suc, ◌+◌, ◌≤◌, ◌≡◌, ◌≢◌, sym, ◌∙◌, ◌⊎◌, inl, inr, ◌↔◌, Bool, true, false, Option, none, some,
  arith, Bool-cases, Option-cases,
}
use carma.Base.Int.{ℤ, pos, negsuc, ◌+int64◌, ◌-int64◌, ◌≤ℤ◌, leb_ℤ}
use carma.Base.Text.{Text}
use carma.Base.Float.{Float, Rounds}
use carma.Calendar.{Date, before, add_months}
use carma.Calendar.Days.{IsValid, day_number}
use carma.Calendar.Steps.{day_number-add_days, day_number-sub_days}
use carma.Calendar.Zone.{Zone, add_days_ℤ}
use carma.Model.{Reminder}
use carma.Reminder.Snooze.{active_snooze, Snooze}
use carma.Reminder.Snooze.Facts.{DateHolds, MilesHold, active_snooze_iff, Holds}
use carma.Reminder.Evaluate.{
  up_to_date, due, snoozed, max_projection_days, Progress, blank, baseline_date, check_months,
  baseline_odometer, project, check_reading, check_baseline, check_miles, finish, classify,
  evaluate,
}
use carma.Reminder.Evaluate.Overdue.{DueByDate, DueByMiles, evaluate-due_iff}

-- A date that is before the later of two days, or one that the earlier has reached.
before_later :
    (day later until : Date)
    → before later day ≡ false
    → before later until ≡ true
    → before day until ≡ true
unfolding before
before_later day later until p q = ground arith

active_snooze_passes :
    {F : Type 0} (r : Reminder F) (day later : Date)
    → before later day ≡ false
    → active_snooze r day ≡ none
    → active_snooze r later ≡ none
active_snooze_passes r day later p none_now = elim (Option-cases (active_snooze r later)) [
  | inl still ↦ still
  | inr (phrase, e) ↦ absurd (
      (active_snooze_iff r day).1
        (earlier r.snoozed_until_on ((active_snooze_iff r later).0 (λ n. some_ne (sym e ∙ n))))
        none_now)
]
  where
    some_ne : {x : Text} → some x ≢ none
    some_ne h = cc

    earlier :
        (on : Option Date)
        → DateHolds on later ⊎ MilesHold r.snoozed_until_miles r.latest_odometer
        → DateHolds on day ⊎ MilesHold r.snoozed_until_miles r.latest_odometer
    earlier none h = h
    earlier (some until) (inl h) = inl (before_later day later until p h)
    earlier (some until) (inr h) = inr h

DueByDate-passes :
    (m : Option ℕ) (base day later : Date)
    → before later day ≡ false
    → DueByDate m base day
    → DueByDate m base later
DueByDate-passes none base day later p h = h
DueByDate-passes (some m) base day later p h =
    elim (Bool-cases (before later (add_months m base))) [
      | inl q ↦ absurd (clash (sym (before_later day later (add_months m base) p q) ∙ h))
      | inr q ↦ q
    ]
  where
    clash : ◌≢◌ {A = Bool} true false
    clash e = cc

module _ (fl : Float) where
  open fl use {F, of_int, div, lt, le, round}

  -- A reminder that is overdue on one day is overdue on every later day, until the record, its
  -- snooze or the reading changes.
  pub evaluate-due_stays :
      (zone : Zone) (r : Reminder F) (day later : Date)
      → before later day ≡ false
      → (evaluate fl zone r day).status ≡ due
      → (evaluate fl zone r later).status ≡ due
  evaluate-due_stays zone r day later p h =
      let (enabled, awake, reached) = (evaluate-due_iff fl zone r day).0 h in
      (evaluate-due_iff fl zone r later).1
        (enabled, active_snooze_passes r day later p awake, still reached)
    where
      still :
          DueByDate r.interval_months (baseline_date zone r) day
            ⊎ DueByMiles r.interval_miles (baseline_odometer r) r.latest_odometer
          → DueByDate r.interval_months (baseline_date zone r) later
            ⊎ DueByMiles r.interval_miles (baseline_odometer r) r.latest_odometer
      still (inl d) = inl (DueByDate-passes r.interval_months (baseline_date zone r) day later p d)
      still (inr m) = inr m

  -- Neither the driving rate nor the hint makes a reminder overdue or keeps it from being so.
  pub evaluate-due_rate :
      (zone : Zone) (r : Reminder F) (day : Date) (rate : Option F) (hint : Text)
      → ((evaluate fl zone (record r { miles_per_day = rate; estimate_hint = hint }) day).status
          ≡ due)
        ↔ ((evaluate fl zone r day).status ≡ due)
  unfolding active_snooze baseline_date baseline_odometer
  evaluate-due_rate zone r day rate hint = (
    λ h. (evaluate-due_iff fl zone r day).1 ((evaluate-due_iff fl zone changed day).0 h),
    λ h. (evaluate-due_iff fl zone changed day).1 ((evaluate-due_iff fl zone r day).0 h),
  )
    where
      changed : Reminder F
      changed = record r { miles_per_day = rate; estimate_hint = hint }

  -- An enabled reminder that stores a snooze is snoozed on each day on which a threshold of it holds.
  pub evaluate_snoozed :
      (zone : Zone) (r : Reminder F) (day : Date) (s : Snooze)
      → r.enabled ≡ true
      → Holds s day r.latest_odometer
      → (evaluate fl zone
          (record r { snoozed_until_on = s.until_on; snoozed_until_miles = s.until_miles })
          day).status
        ≡ snoozed
  unfolding evaluate classify
  evaluate_snoozed zone r day s on holds = ground (
    arith,
    (active_snooze_iff
          (record r { snoozed_until_on = s.until_on; snoozed_until_miles = s.until_miles }) day).1
        holds,
  )

  add_days_ℤ-le :
      (z : ℤ) (day : Date) (n : ℕ)
      → IsValid day
      → z ≤ℤ pos n
      → day_number (add_days_ℤ z day) ≤ day_number day + n
  unfolding add_days_ℤ
  add_days_ℤ-le (pos m) day n v h = omega (arith, day_number-add_days m day v)
  add_days_ℤ-le (negsuc m) day n v h = omega (arith, day_number-sub_days (suc m) day v)

  module _ (rounds : Rounds fl) (r : Reminder F) (day projected : Date) (v : IsValid day) where
    project_bound :
        (left : ℤ) (rate : Option F) (p : Progress F)
        → p.result.projected_due_date ≡ none
        → (project fl r day left rate p).result.projected_due_date ≡ some projected
        → day_number projected ≤ day_number day + max_projection_days
    unfolding project
    project_bound left none p e h = absurd (clash (sym e ∙ h))
      where
        clash : ◌≢◌ {A = Option Date} none (some projected)
        clash x = cc
    project_bound left (some rate) p e h = ground (
      arith,
      rounds.round_le (div (of_int left) rate) max_projection_days (omega arith),
      add_days_ℤ-le (round (div (of_int left) rate)) day max_projection_days v,
    )

    check_reading_bound :
        (d : ℤ) (latest : Option ℤ) (p : Progress F)
        → p.result.projected_due_date ≡ none
        → (check_reading fl r day d latest p).result.projected_due_date ≡ some projected
        → day_number projected ≤ day_number day + max_projection_days
    unfolding check_reading
    check_reading_bound d none p e h = ground arith
    check_reading_bound d (some reading) p e h = elim (Bool-cases (leb_ℤ d reading)) [
      | inl reached ↦ absurd (clash (sym e ∙ (rw reached at h)))
      | inr ahead ↦ project_bound (d -int64 reading) r.miles_per_day _ e (rw ahead at h)
    ]
      where
        clash : ◌≢◌ {A = Option Date} none (some projected)
        clash x = cc

    check_miles_bound :
        (m : Option ℤ) (p : Progress F)
        → p.result.projected_due_date ≡ none
        → (check_miles fl r day m p).result.projected_due_date ≡ some projected
        → day_number projected ≤ day_number day + max_projection_days
    unfolding check_miles
    check_miles_bound none p e h = ground arith
    check_miles_bound (some miles) p e h = by_baseline (baseline_odometer r) h
      where
        by_baseline :
            (base : Option ℤ)
            → (check_baseline fl r day miles base p).result.projected_due_date ≡ some projected
            → day_number projected ≤ day_number day + max_projection_days
        by_baseline none k = unfold check_baseline in ground arith
        by_baseline (some base) k =
            unfold check_baseline in check_reading_bound (base +int64 miles) r.latest_odometer _ e k

  -- A projected due date is at most ten years of 365 days off.
  pub evaluate-projected_bound :
      (zone : Zone) (r : Reminder F) (day projected : Date)
      → Rounds fl
      → IsValid day
      → (evaluate fl zone r day).projected_due_date ≡ some projected
      → day_number projected ≤ day_number day + max_projection_days
  unfolding evaluate classify finish check_months
  evaluate-projected_bound zone r day projected rounds v h = ground (
    arith,
    check_miles_bound rounds r day projected v r.interval_miles
        (check_months zone r day r.interval_months (blank r up_to_date)),
  )
