-- ===== src/Server/Reminders/Plans.antt =====
-- Every reminder comes due by something.
use carma.Base.{
  ℕ, ◌≡◌, refl, inl, inr, Bool, true, false, not, ◌&&◌, ◌||◌, Option, none, some, List, [], ◌∷◌,
  ◌++◌, ◌==◌, map, any, All, All-filter, ltb, Bool-cases, arith,
}
use carma.Base.Int.{ℤ, pos, negsuc, ltb_ℤ}
use carma.Base.Result.{Result, ok, err}
use carma.Base.Text.{Text, text, text_eq, trim_space}
use carma.Base.Decimal.{parse_int64}
use carma.Calendar.{Date}
use carma.Model.{Uuid, Instant, Vehicle, Reminder}
use carma.Garage.Writes.{settle_keeps, settle_done_keeps}
use carma.Garage.{Write, Garage, GarageError}
use carma.Garage.Reminders.{
  list_reminders, same_plan, replan, new_plan, put_plan, upsert_reminder, snooze_columns,
  set_reminder_snooze, delete_reminder,
}
use carma.Reminder.Snooze.{SnoozeError, Snooze, resolve_snooze}
use carma.Server.{Parsers, Field, unset, wrong, value, parsed, read_field, requested_vehicle}
use carma.Server.Reminders.{
  positive, optional_positive, is_wrong, is_blank, ReminderRequest, new_reminder, upserted,
  upsert_fields, upsert_type, upsert_for, serve_upsert, row_of, changed, snooze_window, snooze_row,
  snooze_id, snooze_for, serve_snooze, delete_id, delete_for, serve_delete_reminder,
}

abbrev pub positive_months : Option ℕ → Bool
positive_months none = true
positive_months (some n) = ltb 0 n

abbrev pub positive_miles : Option ℤ → Bool
positive_miles none = true
positive_miles (some n) = ltb_ℤ (pos 0) n

abbrev pub is_due_by : Option ℕ → Option ℤ → Bool
is_due_by none none = false
is_due_by none (some miles) = true
is_due_by (some months) miles = true

-- An interval is set, and those that are set are positive.
abbrev pub HasPlan : {F : Type 0} → Reminder F → Type 0
HasPlan r =
    (positive_months r.interval_months
      && positive_miles r.interval_miles
      && is_due_by r.interval_months r.interval_miles)
    ≡ true

abbrev FieldPositive : Field ℤ → Type 0
FieldPositive unset = Unit {0}
FieldPositive wrong = Unit {0}
FieldPositive (value n) = ltb_ℤ (pos 0) n ≡ true

parsed-Positive : (o : Option ℤ) → FieldPositive (parsed (positive o))
parsed-Positive none = tt
parsed-Positive (some n) = elim (Bool-cases (ltb_ℤ (pos 0) n)) [
  | inl more ↦ rw more more
  | inr less ↦ rw less tt
]

optional_positive-Positive : (raw : Text) → FieldPositive (optional_positive raw)
unfolding read_field
optional_positive-Positive raw = elim (Bool-cases (text_eq (trim_space raw) [])) [
  | inl empty ↦ rw empty tt
  | inr full ↦ rw full (parsed-Positive (parse_int64 (trim_space raw)))
]

new_reminder-HasPlan :
    (F : Type 0) (q : ReminderRequest) (v : Vehicle) (id : Uuid) (months miles : Field ℤ)
    → FieldPositive months
    → FieldPositive miles
    → (is_wrong months || is_wrong miles || (is_blank months && is_blank miles)) ≡ false
    → HasPlan (new_reminder {F = F} q v id months miles)
new_reminder-HasPlan F q v id unset unset a b h = cc
new_reminder-HasPlan F q v id unset wrong a b h = cc
new_reminder-HasPlan F q v id unset (value n) a b h = ground arith
new_reminder-HasPlan F q v id wrong miles a b h = cc
new_reminder-HasPlan F q v id (value (pos m)) unset a b h = ground arith
new_reminder-HasPlan F q v id (value (pos m)) wrong a b h = cc
new_reminder-HasPlan F q v id (value (pos m)) (value n) a b h = ground arith
new_reminder-HasPlan F q v id (value (negsuc m)) miles a b h = ground arith

module _ {F : Type 0} where
  replan-HasPlan : (r s : Reminder F) → HasPlan r → HasPlan s → HasPlan (replan r s)
  replan-HasPlan r s h k = elim (Bool-cases (same_plan r s)) [
    | inl same ↦ simp same h
    | inr other ↦ simp other k
  ]

  All-map_to :
      (f : Reminder F → Reminder F)
      → ((s : Reminder F) → HasPlan s → HasPlan (f s))
      → (reminders : List (Reminder F)) → All HasPlan reminders
      → All HasPlan (map f reminders)
  All-map_to f step [] k = tt
  All-map_to f step (s ∷ reminders) k = (step s k.0, All-map_to f step reminders k.1)

  All-snoc :
      (r : Reminder F) (reminders : List (Reminder F))
      → All HasPlan reminders
      → HasPlan r
      → All HasPlan (reminders ++ r ∷ [])
  All-snoc r [] k h = (h, tt)
  All-snoc r (s ∷ reminders) k h = (k.0, All-snoc r reminders k.1 h)

  put_plan-HasPlan :
      (r : Reminder F) (reminders : List (Reminder F))
      → HasPlan r
      → All HasPlan reminders
      → All HasPlan (put_plan r reminders)
  unfolding put_plan
  put_plan-HasPlan r reminders h k = elim (Bool-cases (any (same_plan r) reminders)) [
    | inl there ↦ rw there (All-map_to (replan r) (λ s g. replan-HasPlan r s h g) reminders k)
    | inr absent ↦ rw absent (All-snoc (new_plan r) reminders k h)
  ]

  -- Each reminder of the store has a plan.
  abbrev pub Planned : Garage F → Type 0
  Planned t = All HasPlan t.reminders

  upserted_garage :
      (q : ReminderRequest) (v : Vehicle) (o : Garage F × Result GarageError (Reminder F))
      → (upserted q v o).garage ≡ o.0
  upserted_garage q v (t, ok r) = refl
  upserted_garage q v (t, err e) = refl

  upserted-Planned :
      (q : ReminderRequest) (v : Vehicle) (r : Reminder F) (write : Write) (t : Garage F)
      → HasPlan r
      → Planned t
      → Planned (upserted q v (upsert_reminder r write t)).garage
  unfolding upsert_reminder
  upserted-Planned q v r write t h k =
      rw (upserted_garage q v (upsert_reminder r write t))
        (settle_keeps Planned write t _ _ k (put_plan-HasPlan r t.reminders h k))

  upsert_fields-Planned :
      (q : ReminderRequest) (v : Vehicle) (t : Garage F) (id : Uuid) (months miles : Field ℤ)
      → FieldPositive months
      → FieldPositive miles
      → Planned t
      → Planned (upsert_fields q v t id months miles).garage
  upsert_fields-Planned q v t id months miles a b k =
      elim (Bool-cases (is_wrong months || is_wrong miles || (is_blank months && is_blank miles))) [
        | inl bad ↦ rw bad k
        | inr fine ↦ rw fine (
            upserted-Planned q v (new_reminder q v id months miles) q.write t
              (new_reminder-HasPlan F q v id months miles a b fine) k)
      ]

  upsert_for-Planned :
      (p : Parsers) (q : ReminderRequest) (t : Garage F) (o : Result GarageError Vehicle)
      → Planned t
      → Planned (upsert_for p q t o).garage
  upsert_for-Planned p q t (err e) k = k
  upsert_for-Planned p q t (ok v) k = elim (Bool-cases q.is_form) [
    | inr no_form ↦ rw no_form k
    | inl form ↦ rw form (typed (p.parse_uuid (q.form (text "service_type_id"))))
  ]
    where
      typed : (o : Option Uuid) → Planned (upsert_type q v t o).garage
      typed none = k
      typed (some id) =
          upsert_fields-Planned q v t id (optional_positive (q.form (text "months")))
            (optional_positive (q.form (text "miles")))
            (optional_positive-Positive (q.form (text "months")))
            (optional_positive-Positive (q.form (text "miles"))) k

  snooze_columns-HasPlan :
      (vehicle_id id : Uuid) (on : Option Date) (miles : Option ℤ) (at : Instant) (s : Reminder F)
      → HasPlan s
      → HasPlan (snooze_columns vehicle_id id on miles at s)
  snooze_columns-HasPlan vehicle_id id on miles at s k =
      elim (Bool-cases (s.id == id && s.vehicle_id == vehicle_id)) [
        | inl own ↦ simp own k
        | inr other ↦ simp other k
      ]

  changed_garage :
      (q : ReminderRequest) (v : Vehicle) (o : Garage F × Option GarageError)
      → (changed q v o).garage ≡ o.0
  changed_garage q v (t, none) = refl
  changed_garage q v (t, some e) = refl

  set_snooze-Planned :
      (vehicle_id id : Uuid) (on : Option Date) (miles : Option ℤ) (at : Instant) (write : Write)
      (t : Garage F)
      → Planned t
      → Planned (set_reminder_snooze vehicle_id id on miles at write t).0
  unfolding set_reminder_snooze
  set_snooze-Planned vehicle_id id on miles at write t k =
      elim (Bool-cases
        (any (λ (r : Reminder F). r.id == id && r.vehicle_id == vehicle_id) t.reminders)) [
          | inl there ↦ rw there (
              settle_done_keeps Planned write t _ k (
                All-map_to (snooze_columns vehicle_id id on miles at)
                  (snooze_columns-HasPlan vehicle_id id on miles at) t.reminders k))
          | inr absent ↦ rw absent k
        ]

  delete_reminder-Planned :
      (id : Uuid) (write : Write) (t : Garage F)
      → Planned t
      → Planned (delete_reminder id write t).0
  unfolding delete_reminder
  delete_reminder-Planned id write t k =
      elim (Bool-cases (any (λ (r : Reminder F). r.id == id) t.reminders)) [
        | inl there ↦ rw there (
            settle_done_keeps Planned write t _ k
              (All-filter HasPlan (λ (r : Reminder F). not (r.id == id)) t.reminders k))
        | inr absent ↦ rw absent k
      ]

  snooze_for-Planned :
      (q : ReminderRequest) (t : Garage F) (o : Result GarageError Vehicle)
      → Planned t
      → Planned (snooze_for q t o).garage
  snooze_for-Planned q t (err e) k = k
  snooze_for-Planned q t (ok v) k = by_id q.reminder_id
    where
      window :
          (id : Uuid) (o : Result SnoozeError Snooze) → Planned (snooze_window q v t id o).garage
      window id (err e) = k
      window id (ok s) =
          rw
            (changed_garage q v
              (set_reminder_snooze v.id id s.until_on s.until_miles q.now q.write t))
            (set_snooze-Planned v.id id s.until_on s.until_miles q.now q.write t k)

      row : (id : Uuid) (o : Option (Reminder F)) → Planned (snooze_row q v t id o).garage
      row id none = k
      row id (some current) = window id (
          resolve_snooze (q.form (text "preset")) (q.form (text "until_on"))
            (q.form (text "until_miles")) q.today current.latest_odometer)

      by_id : (o : Option Uuid) → Planned (snooze_id q v t o).garage
      by_id none = k
      by_id (some id) = elim (Bool-cases q.is_form) [
        | inr no_form ↦ rw no_form k
        | inl form ↦ rw form (elim (Bool-cases q.list_fails) [
          | inl broken ↦ rw broken k
          | inr fine ↦ rw fine (row id (row_of id (list_reminders (some v.id) true t)))
        ])
      ]

  delete_for-Planned :
      (q : ReminderRequest) (t : Garage F) (o : Result GarageError Vehicle)
      → Planned t
      → Planned (delete_for q t o).garage
  delete_for-Planned q t (err e) k = k
  delete_for-Planned q t (ok v) k = by_id q.reminder_id
    where
      by_id : (o : Option Uuid) → Planned (delete_id q v t o).garage
      by_id none = k
      by_id (some id) = elim (Bool-cases q.list_fails) [
        | inl broken ↦ rw broken k
        | inr fine ↦
            rw fine
              (elim (Bool-cases
                (any (λ (r : Reminder F). r.id == id) (list_reminders (some v.id) true t))) [
                  | inr absent ↦ rw absent k
                  | inl there ↦
                      rw (there, changed_garage q v (delete_reminder id q.write t))
                        (delete_reminder-Planned id q.write t k)
                ])
      ]

-- The stores that the reminder handlers make of one, in any order.
pub data Managed {F : Type 0} (p : Parsers) (t : Garage F) : Garage F → Type 0 where
  start : Managed p t t
  posted_plan :
      (u : Garage F)
      → Managed p t u
      → (q : ReminderRequest) → Managed p t (serve_upsert p q u).garage
  posted_snooze :
      (u : Garage F) → Managed p t u → (q : ReminderRequest) → Managed p t (serve_snooze q u).garage
  posted_end :
      (u : Garage F)
      → Managed p t u
      → (q : ReminderRequest) → Managed p t (serve_delete_reminder q u).garage

-- However the reminder forms are posted, in any order and with any failures, each reminder keeps a plan:
-- an interval of months or of miles is set, and those that are set are positive.
pub Managed-Planned :
    {F : Type 0} (p : Parsers) (t u : Garage F) → Managed p t u → Planned t → Planned u
unfolding serve_upsert serve_snooze serve_delete_reminder
Managed-Planned p t u start k = k
Managed-Planned p t _ (posted_plan u steps q) k =
    upsert_for-Planned p q u (requested_vehicle q.vehicle_id q.vehicle_fails u)
      (Managed-Planned p t u steps k)
Managed-Planned p t _ (posted_snooze u steps q) k =
    snooze_for-Planned q u (requested_vehicle q.vehicle_id q.vehicle_fails u)
      (Managed-Planned p t u steps k)
Managed-Planned p t _ (posted_end u steps q) k =
    delete_for-Planned q u (requested_vehicle q.vehicle_id q.vehicle_fails u)
      (Managed-Planned p t u steps k)
