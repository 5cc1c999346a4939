-- ===== src/Reminder/Evaluate/Batch.antt =====
-- The batch evaluation: which vehicles are projected, and that projecting only those loses nothing.
use carma.Base.{
  ◌≡◌, refl, ◌∙◌, inl, inr, Bool, true, false, not, ◌&&◌, ◌||◌, Option, List, [], ◌∷◌, ◌++◌, arith,
  ◌==◌, Bool-cases, any, any-append, map, ==_iff,
}
use carma.Base.Int.{ℤ}
use carma.Base.Text.{Text}
use carma.Base.Float.{Float}
use carma.Calendar.{Date}
use carma.Calendar.Zone.{Zone}
use carma.Model.{Uuid, Reminder, MileagePoint}
use carma.Reminder.Snooze.{active_snooze}
use carma.Reminder.Estimate.{estimate_miles_per_day, estimate_hint}
use carma.Reminder.Evaluate.{
  Status, Evaluation, baseline_date, check_months, check_miles, finish, classify, evaluate,
  has_miles, with_estimate, projection_step, projection_loop, projection_vehicles, points_of,
  evaluate_all,
}

-- No element stands twice in the list.
abbrev pub distinct : List Uuid → Bool
distinct [] = true
distinct (v ∷ vs) = not (any (λ w. w == v) vs) && distinct vs

distinct-snoc :
    (vs : List Uuid) (v : Uuid)
    → distinct vs ≡ true
    → any (λ w. w == v) vs ≡ false
    → distinct (vs ++ v ∷ []) ≡ true
distinct-snoc [] v d n = refl
distinct-snoc (u ∷ vs) v d n =
    ground (arith, distinct-snoc vs v, any-append (λ w. w == u) vs (v ∷ []), ==_iff u v, ==_iff v u)

module _ (fl : Float) where
  open fl use {F}

  -- An enabled reminder with a mileage interval.
  abbrev pub counts : Reminder F → Bool
  counts r = r.enabled && has_miles fl r

  projection_loop-any :
      (v : Uuid) (seen : List Uuid) (reminders : List (Reminder F))
      → any (λ w. w == v) (projection_loop fl seen reminders)
        ≡ (any (λ w. w == v) seen || any (λ r. counts r && r.vehicle_id == v) reminders)
  unfolding projection_loop
  projection_loop-any v seen [] = ground arith
  projection_loop-any v seen (r ∷ reminders) =
      projection_loop-any v (projection_step fl seen r) reminders
      ∙ ground (arith, any-append (λ w. w == v) seen (r.vehicle_id ∷ []), ==_iff r.vehicle_id v)

  projection_loop-distinct :
      (seen : List Uuid) (reminders : List (Reminder F))
      → distinct seen ≡ true
      → distinct (projection_loop fl seen reminders) ≡ true
  unfolding projection_loop
  projection_loop-distinct seen [] d = d
  projection_loop-distinct seen (r ∷ reminders) d =
      projection_loop-distinct (projection_step fl seen r) reminders
        (ground (arith, distinct-snoc seen r.vehicle_id d))

  -- ProjectionVehicles names exactly the vehicles with an enabled mileage reminder, each once.
  pub projection_vehicles-distinct :
      (reminders : List (Reminder F))
      → (distinct (projection_vehicles fl reminders) ≡ true)
        × ((v : Uuid)
            → any (λ w. w == v) (projection_vehicles fl reminders)
              ≡ any (λ r. counts r && r.vehicle_id == v) reminders)
  unfolding projection_vehicles
  projection_vehicles-distinct reminders =
      (projection_loop-distinct [] reminders refl, λ v. projection_loop-any v [] reminders)

  -- What is shown of an evaluation: all but the reminder itself.
  pub record Shown : Type 0 where
    pub status : Status
    pub detail : Text
    pub due_date : Option Date
    pub due_mileage : Option ℤ
    pub miles_left : Option ℤ
    pub projected_due_date : Option Date

  abbrev pub shown : Evaluation F → Shown
  shown e = record {
    status = e.status;
    detail = e.detail;
    due_date = e.due_date;
    due_mileage = e.due_mileage;
    miles_left = e.miles_left;
    projected_due_date = e.projected_due_date;
  }

  -- A reminder that does not count is shown alike whatever the rate and the hint.
  shown_uncounted :
      (zone : Zone) (day : Date) (r : Reminder F) (a b : Option F) (g h : Text)
      → counts r ≡ false
      → shown (evaluate fl zone (record r { miles_per_day = a; estimate_hint = g }) day)
        ≡ shown (evaluate fl zone (record r { miles_per_day = b; estimate_hint = h }) day)
  unfolding evaluate classify finish check_miles check_months active_snooze baseline_date
  shown_uncounted zone day r a b g h uncounted = elim (Bool-cases r.enabled) [
    | inl on ↦ ground arith
    | inr off ↦ ground arith
  ]

  -- The reminder with the estimate of its own vehicle's points.
  abbrev pub estimated : List MileagePoint → Date → Reminder F → Reminder F
  estimated points day r =
      let mine = points_of r.vehicle_id points in
      record r {
        miles_per_day = estimate_miles_per_day fl mine day;
        estimate_hint = estimate_hint fl mine day;
      }

  shown_each :
      (zone : Zone) (points : List MileagePoint) (day : Date) (projected : List Uuid)
      (r : Reminder F)
      → (counts r ≡ true → any (λ v. v == r.vehicle_id) projected ≡ true)
      → shown (evaluate fl zone (with_estimate fl projected points day r) day)
        ≡ shown (evaluate fl zone (estimated points day r) day)
  unfolding with_estimate
  shown_each zone points day projected r known = elim (Bool-cases (counts r)) [
    | inl counted ↦ rw (known counted)
    | inr uncounted ↦ shown_uncounted zone day r _ _ _ _ uncounted
  ]

  shown_all :
      (zone : Zone) (points : List MileagePoint) (day : Date) (projected : List Uuid)
      (reminders : List (Reminder F))
      → ((v : Uuid)
          → any (λ r. counts r && r.vehicle_id == v) reminders ≡ true
          → any (λ w. w == v) projected ≡ true)
      → map shown
          (map (λ r. evaluate fl zone (with_estimate fl projected points day r) day) reminders)
        ≡ map (λ r. shown (evaluate fl zone (estimated points day r) day)) reminders
  shown_all zone points day projected [] known = refl
  shown_all zone points day projected (r ∷ reminders) known = cc (
    shown_each zone points day projected r
        (λ c. known r.vehicle_id (ground (arith, ==_iff r.vehicle_id r.vehicle_id))),
    shown_all zone points day projected reminders (λ v h. known v (ground arith)),
  )

  -- Estimating only the vehicles of enabled mileage reminders shows the same as estimating every
  -- reminder's vehicle.
  pub evaluate_all_lem :
      (zone : Zone) (reminders : List (Reminder F)) (points : List MileagePoint) (day : Date)
      → map shown (evaluate_all fl zone reminders points day)
        ≡ map (λ r. shown (evaluate fl zone (estimated points day r) day)) reminders
  unfolding evaluate_all
  evaluate_all_lem zone reminders points day =
      shown_all zone points day (projection_vehicles fl reminders) reminders
        (λ v h. (projection_vehicles-distinct reminders).1 v ∙ h)
