-- ===== src/Reminder/Evaluate/Soon.antt =====
-- When a reminder is due soon.
use carma.Base.{
  ℕ, ◌≡◌, ◌≢◌, refl, ◌⊎◌, inl, inr, ◌↔◌, Bool, true, false, ◌||◌, Option, none, some, arith,
  Bool-cases,
}
use carma.Base.Int.{ℤ, pos, ◌+int64◌, ◌-int64◌, ◌≤ℤ◌, ◌<ℤ◌, leb_ℤ}
use carma.Base.Float.{Float}
use carma.Calendar.{Date, before, add_days}
use carma.Calendar.Zone.{Zone, add_days_ℤ}
use carma.Model.{Reminder}
use carma.Reminder.Snooze.{active_snooze}
use carma.Reminder.Evaluate.{
  up_to_date, soon, due, soon_days, soon_miles, max_projection_days, Evaluation, Progress, blank,
  baseline_date, check_months, baseline_odometer, project, check_reading, check_baseline,
  check_miles, finish, classify, evaluate,
}
use carma.Reminder.Evaluate.Overdue.{check_miles-is_due, SoonByDate}

check_months-is_soon :
    {F : Type 0} (zone : Zone) (r : Reminder F) (day : Date) (m : Option ℕ) (e : Evaluation F)
    → (check_months zone r day m e).is_due ≡ false
    → ((check_months zone r day m e).is_soon ≡ true) ↔ SoonByDate m (baseline_date zone r) day
unfolding check_months
check_months-is_soon zone r day none e h = (λ k. cc, λ k. absurd k)
check_months-is_soon zone r day (some m) e h = ground arith

chain : {A B C : Type 0} → A ↔ B → B ↔ C → A ↔ C
chain e f = (λ a. f.0 (e.0 a), λ c. e.1 (f.1 c))

regroup :
    (a b : Bool) {H L R : Type 0}
    → H
    → (b ≡ true) ↔ L
    → (((a || b) ≡ true) ⊎ R) ↔ ((a ≡ true) ⊎ (H × (L ⊎ R)))
regroup true b h e = (λ x. inl refl, λ x. inl refl)
regroup false b h e = (
  λ x. elim x [ inl y ↦ inr (h, inl (e.0 y)) | inr r ↦ inr (h, inr r) ],
  λ x. elim x [
    | inl y ↦ absurd (false-not y)
    | inr (k, inl l) ↦ inl (e.1 l)
    | inr (k, inr r) ↦ inr r
  ],
)
  where
    false-not : ◌≢◌ {A = Bool} false true
    false-not y = cc

module _ (fl : Float) where
  open fl use {F, of_int, div, lt, le, round}

  -- At the driving rate the miles left run out within 30 days; a projection past ten years counts
  -- for nothing.
  abbrev pub SoonByRate : Option F → ℤ → Date → Type 0
  SoonByRate none left day = ⊥
  SoonByRate (some rate) left day =
      (lt (of_int (pos 0)) rate ≡ true)
      × (le (div (of_int left) rate) (of_int (pos max_projection_days)) ≡ true)
      × (before (add_days soon_days day) (add_days_ℤ (round (div (of_int left) rate)) day) ≡ false)

  -- The mileage that is due is ahead, by at most 500 miles or by a rate that soon covers it.
  abbrev pub SoonByMiles : Option F → Date → Option ℤ → Option ℤ → Option ℤ → Type 0
  SoonByMiles rate day (some miles) (some base) (some reading) =
      let left = (base +int64 miles) -int64 reading in
      (reading <ℤ base +int64 miles) × ((left ≤ℤ soon_miles) ⊎ SoonByRate rate left day)
  SoonByMiles rate day none base latest = ⊥
  SoonByMiles rate day (some miles) none latest = ⊥
  SoonByMiles rate day (some miles) (some base) none = ⊥

  project-is_soon :
      (r : Reminder F) (day : Date) (left : ℤ) (rate : Option F) (p : Progress F)
      → ((project fl r day left rate p).is_soon ≡ true)
        ↔ ((p.is_soon ≡ true) ⊎ SoonByRate rate left day)
  unfolding project
  project-is_soon r day left none p = ground arith
  project-is_soon r day left (some rate) p = ground arith

  check_reading-is_soon :
      (r : Reminder F) (day : Date) (miles base : ℤ) (latest : Option ℤ) (p : Progress F)
      → (check_reading fl r day (base +int64 miles) latest p).is_due ≡ false
      → ((check_reading fl r day (base +int64 miles) latest p).is_soon ≡ true)
        ↔ ((p.is_soon ≡ true) ⊎ SoonByMiles r.miles_per_day day (some miles) (some base) latest)
  unfolding check_reading
  check_reading-is_soon r day miles base none p h = ground arith
  check_reading-is_soon r day miles base (some reading) p h =
      elim (Bool-cases (leb_ℤ (base +int64 miles) reading)) [
        | inl reached ↦ absurd (true≢false (rw reached at h))
        | inr ahead ↦ rw ahead (joined (project-is_soon r day left r.miles_per_day _))
      ]
    where
      left : ℤ
      left = base +int64 miles -int64 reading

      true≢false : ◌≢◌ {A = Bool} true false
      true≢false e = cc

      joined :
          {A : Type 0}
          → A ↔ ((p.is_soon || leb_ℤ left soon_miles ≡ true) ⊎ SoonByRate r.miles_per_day left day)
          → A ↔ (
              (p.is_soon ≡ true)
              ⊎ SoonByMiles r.miles_per_day day (some miles) (some base) (some reading))
      joined e = chain e (regroup p.is_soon (leb_ℤ left soon_miles) (ground arith) (ground arith))

  check_miles-is_soon :
      (r : Reminder F) (day : Date) (m : Option ℤ) (p : Progress F)
      → (check_miles fl r day m p).is_due ≡ false
      → ((check_miles fl r day m p).is_soon ≡ true) ↔ (
          (p.is_soon ≡ true)
          ⊎ SoonByMiles r.miles_per_day day m (baseline_odometer r) r.latest_odometer)
  unfolding check_miles
  check_miles-is_soon r day none p h = ground arith
  check_miles-is_soon r day (some miles) p h = by_baseline (baseline_odometer r) h
    where
      by_baseline :
          (base : Option ℤ)
          → (check_baseline fl r day miles base p).is_due ≡ false
          → ((check_baseline fl r day miles base p).is_soon ≡ true) ↔ (
              (p.is_soon ≡ true)
              ⊎ SoonByMiles r.miles_per_day day (some miles) base r.latest_odometer)
      by_baseline none h = unfold check_baseline in ground arith
      by_baseline (some base) h =
          unfold check_baseline in check_reading-is_soon r day miles base r.latest_odometer _ h

  -- An enabled reminder is due soon exactly when no snooze holds, it is not overdue, and its due date
  -- is at most 30 days off, at most 500 miles are left, or the driving rate covers the miles left
  -- within 30 days.
  pub evaluate-soon_iff :
      (zone : Zone) (r : Reminder F) (day : Date)
      → ((evaluate fl zone r day).status ≡ soon) ↔ (
          (r.enabled ≡ true)
          × (active_snooze r day ≡ none)
          × ((evaluate fl zone r day).status ≢ due)
          × (SoonByDate r.interval_months (baseline_date zone r) day
              ⊎ SoonByMiles r.miles_per_day day r.interval_miles
                  (baseline_odometer r)
                  r.latest_odometer))
  unfolding evaluate classify finish
  evaluate-soon_iff zone r day = ground (
    arith,
    check_miles-is_due fl r day r.interval_miles months,
    check_miles-is_soon r day r.interval_miles months,
    check_months-is_soon zone r day r.interval_months (blank r up_to_date),
  )
    where
      months : Progress F
      months = check_months zone r day r.interval_months (blank r up_to_date)
