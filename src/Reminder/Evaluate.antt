-- ===== src/Reminder/Evaluate.antt =====
-- The classification of a reminder on a calendar date (Evaluate, ProjectionVehicles and EvaluateAll
-- of internal/reminder/reminder.go).
pub mod Overdue
pub mod Soon
pub mod Passing
pub mod Batch
use carma.Base.{
  ℕ, ◌*◌, ◌==◌, Bool, true, false, not, ◌&&◌, ◌||◌, Option, none, some, List, [], ◌∷◌, ◌++◌,
  if◌then◌else◌, map, filter, any, reverse,
}
use carma.Base.Int.{ℤ, pos, ◌+int64◌, ◌-int64◌, ltb_ℤ, leb_ℤ}
use carma.Base.Text.{Text, text}
use carma.Base.Float.{Float}
use carma.Calendar.{Date, before, after, add_days, sub_days, add_months}
use carma.Calendar.Zone.{Zone, today, add_days_ℤ}
use carma.Model.{Uuid, Record, Reminder, MileagePoint}
use carma.Reminder.Format.{group_thousands, short_date}
use carma.Reminder.Snooze.{active_snooze}
use carma.Reminder.Estimate.{no_history_hint, estimate_miles_per_day, estimate_hint}

pub data Status : Type 0 where
  up_to_date soon due disabled snoozed : Status

abbrev pub soon_days : ℕ
soon_days = 30

abbrev pub soon_miles : ℤ
soon_miles = pos 500

-- maxProjectionDays
abbrev pub max_projection_days : ℕ
max_projection_days = 3650

-- The reminder package's Result.
pub record Evaluation (F : Type 0) : Type 0 where
  pub reminder : Reminder F
  pub status : Status
  pub detail : Text
  pub due_date : Option Date
  pub due_mileage : Option ℤ
  pub miles_left : Option ℤ
  pub projected_due_date : Option Date

-- The local variables `due` and `soon` beside the result that is being filled in.
pub record Progress (F : Type 0) : Type 0 where
  pub is_due : Bool
  pub is_soon : Bool
  pub result : Evaluation F

abbrev pub blank : {F : Type 0} → Reminder F → Status → Evaluation F
blank r s = record {
  reminder = r;
  status = s;
  detail = [];
  due_date = none;
  due_mileage = none;
  miles_left = none;
  projected_due_date = none;
}

abbrev pub final_status : Bool → Bool → Status
final_status is_due is_soon = if is_due then due else if is_soon then soon else up_to_date

unfoldable pub baseline_date : {F : Type 0} → Zone → Reminder F → Date
baseline_date zone r = elim (r.baseline) [
  | none ↦ zone.date_of r.created_at
  | some latest ↦ latest.occurred_on
]

-- The interval of months.
unfoldable pub check_months :
    {F : Type 0} → Zone → Reminder F → Date → Option ℕ → Evaluation F → Progress F
check_months zone r day none res = record { is_due = false; is_soon = false; result = res }
check_months zone r day (some months) res =
    let d = add_months months (baseline_date zone r) in
    let res' = record res { due_date = some d } in
    if not (before day d)
    then record { is_due = true; is_soon = false; result = res' }
    else record { is_due = false; is_soon = not (before day (sub_days soon_days d)); result = res' }

unfoldable pub baseline_odometer : {F : Type 0} → Reminder F → Option ℤ
baseline_odometer r = elim (r.baseline) [
  | none ↦ r.starting_odometer
  | some latest ↦ latest.odometer_miles
]

abbrev pub hint_or_default : Text → Text
hint_or_default [] = no_history_hint
hint_or_default (c ∷ s) = c ∷ s

-- The points of a vehicle, in order.
abbrev pub points_of : Uuid → List MileagePoint → List MileagePoint
points_of v points = filter (λ p. p.vehicle_id == v) points

module _ (fl : Float) where
  open fl use {F, of_int, div, lt, le, round}

  unfoldable pub rate_usable : Option F → Bool
  rate_usable none = false
  rate_usable (some rate) = lt (of_int (pos 0)) rate

  -- The projection from a driving rate, or the hint that it needs more history.
  unfoldable pub project : Reminder F → Date → ℤ → Option F → Progress F → Progress F
  project r day left none p = record p {
    result = record (p.result) {
      detail = p.result.detail ++ text " · " ++ hint_or_default r.estimate_hint;
    };
  }
  project r day left (some rate) p =
      let projected = add_days_ℤ (round (div (of_int left) rate)) day in
      if not (lt (of_int (pos 0)) rate)
      then record p {
        result = record (p.result) {
          detail = p.result.detail ++ text " · " ++ hint_or_default r.estimate_hint;
        };
      }
      else if le (div (of_int left) rate) (of_int (pos max_projection_days))
      then record p {
        is_soon = p.is_soon || not (after projected (add_days soon_days day));
        result = record (p.result) {
          projected_due_date = some projected;
          detail = p.result.detail ++ text ", est. " ++ short_date projected day;
        };
      }
      else p

  -- The interval of miles, once a baseline reading gives the mileage that is due.
  unfoldable pub check_reading : Reminder F → Date → ℤ → Option ℤ → Progress F → Progress F
  check_reading r day d none p = p
  check_reading r day d (some reading) p =
      let left = d -int64 reading in
      if leb_ℤ d reading
      then record p { is_due = true }
      else project r day left r.miles_per_day (record p {
        is_soon = p.is_soon || leb_ℤ left soon_miles;
        result = record (p.result) {
          miles_left = some left;
          detail = text "~" ++ group_thousands left ++ text " mi left";
        };
      })

  unfoldable pub check_baseline : Reminder F → Date → ℤ → Option ℤ → Progress F → Progress F
  check_baseline r day miles none p = p
  check_baseline r day miles (some base) p =
      let d = base +int64 miles in
      check_reading r day d r.latest_odometer
        (record p { result = record (p.result) { due_mileage = some d } })

  unfoldable pub check_miles : Reminder F → Date → Option ℤ → Progress F → Progress F
  check_miles r day none p = p
  check_miles r day (some miles) p = check_baseline r day miles (baseline_odometer r) p

  unfoldable pub finish : Progress F → Evaluation F
  finish p = record (p.result) { status = final_status p.is_due p.is_soon }

  unfoldable pub classify : Zone → Reminder F → Date → Option Text → Evaluation F
  classify zone r day (some phrase) = record (blank r snoozed) { detail = phrase }
  classify zone r day none = finish (
      check_miles r day r.interval_miles
        (check_months zone r day r.interval_months (blank r up_to_date)))

  unfoldable pub evaluate : Zone → Reminder F → Date → Evaluation F
  evaluate zone r day =
      if not r.enabled then blank r disabled else classify zone r day (active_snooze r day)

  abbrev pub has_miles : Reminder F → Bool
  has_miles r = elim (r.interval_miles) [ none ↦ false | some miles ↦ true ]

  abbrev pub projection_step : List Uuid → Reminder F → List Uuid
  projection_step seen r =
      if r.enabled && has_miles r && not (any (λ v. v == r.vehicle_id) seen)
      then seen ++ r.vehicle_id ∷ []
      else seen

  -- The vehicles in the order of their first reminder that counts; `seen` are those taken so far.
  unfoldable pub projection_loop : List Uuid → List (Reminder F) → List Uuid
  projection_loop seen [] = seen
  projection_loop seen (r ∷ reminders) = projection_loop (projection_step seen r) reminders

  unfoldable pub projection_vehicles : List (Reminder F) → List Uuid
  unfolding projection_loop
  projection_vehicles reminders = projection_loop [] reminders

  -- The map lookups of EvaluateAll: a vehicle that is not projected has neither a rate nor a hint.
  unfoldable pub with_estimate : List Uuid → List MileagePoint → Date → Reminder F → Reminder F
  with_estimate projected points day r =
      let known = any (λ v. v == r.vehicle_id) projected in
      let mine = points_of r.vehicle_id points in
      record r {
        miles_per_day = if known then estimate_miles_per_day fl mine day else none;
        estimate_hint = if known then estimate_hint fl mine day else [];
      }

  unfoldable pub evaluate_all :
      Zone → List (Reminder F) → List MileagePoint → Date → List (Evaluation F)
  evaluate_all zone reminders points day =
      let projected = projection_vehicles reminders in
      map (λ r. evaluate zone (with_estimate projected points day r) day) reminders
