-- ===== src/Garage/Reminders.antt =====
-- The reminders in the store (internal/repository/postgres_reminders.go).
pub mod Baseline
use carma.Base.{
  ℕ, Bool, true, false, not, ◌&&◌, ◌||◌, Option, none, some, List, [], ◌∷◌, ◌++◌, ◌==◌,
  if◌then◌else◌, map, any, filter,
}
use carma.Base.Int.{ℤ}
use carma.Base.Result.{Result, ok, err}
use carma.Base.Text.{Text, text_eq, text_lt, to_lower}
use carma.Calendar.{Date, date}
use carma.Model.{Uuid, Instant, Record, ServiceType, Vehicle, Reminder}
use carma.Garage.{
  Write, settle, settle_done, refusal, Garage, GarageError, not_found, database_error, greatest,
  max_record, vehicle_row,
}
use carma.Garage.Records.{latest_match}

-- The columns of the baseline that ListReminders reads.
abbrev pub baseline_columns : Record → Record
baseline_columns r = record {
  id = r.id;
  vehicle_id = r.vehicle_id;
  service_type_id = r.service_type_id;
  created_by = 0;
  vehicle_name = [];
  service_type_name = [];
  created_by_name = [];
  occurred_on = r.occurred_on;
  odometer_miles = r.odometer_miles;
  cost_cents = none;
  vendor = [];
  notes = [];
  warranty_until_on = none;
  warranty_until_miles = none;
  created_at = r.created_at;
  updated_at = 0;
  attachment_count = 0;
}

abbrev pub option_map {ℓ κ} : {A : Type ℓ} {B : Type κ} → (A → B) → Option A → Option B
option_map f none = none
option_map f (some a) = some (f a)

abbrev pub type_row : Uuid → List ServiceType → Option ServiceType
type_row id [] = none
type_row id (s ∷ types) = if s.id == id then some s else type_row id types

abbrev pub is_active : Vehicle → Bool
is_active v = elim v.archived_at [ none ↦ true | some at ↦ false ]

-- A reminder of all active vehicles, or of one vehicle.
abbrev pub is_asked : Option Uuid → Bool → Vehicle → Uuid → Bool → Bool
is_asked none disabled v id enabled = (disabled || enabled) && is_active v
is_asked (some asked) disabled v id enabled = id == asked && (disabled || enabled)

module _ {F : Type 0} where
  abbrev pub joined : List Record → Vehicle → ServiceType → Reminder F → Reminder F
  joined records v s r = record r {
    vehicle_name = v.nickname;
    service_type_name = s.name;
    baseline = option_map baseline_columns (latest_match r.vehicle_id r.service_type_id records);
    latest_odometer = greatest v.current_odometer (max_record r.vehicle_id records);
    miles_per_day = none;
    estimate_hint = [];
  }

  abbrev pub join_row :
      Option Uuid
      → Bool
      → List Record
      → Reminder F
      → Option Vehicle
      → Option ServiceType
      → List (Reminder F)
  join_row vehicle_id disabled records r none s = []
  join_row vehicle_id disabled records r (some v) none = []
  join_row vehicle_id disabled records r (some v) (some s) =
      if is_asked vehicle_id disabled v r.vehicle_id r.enabled
      then joined records v s r ∷ []
      else []

  unfoldable pub join_reminders :
      Option Uuid → Bool → Garage F → List (Reminder F) → List (Reminder F)
  join_reminders vehicle_id disabled t [] = []
  join_reminders vehicle_id disabled t (r ∷ reminders) =
      join_row vehicle_id disabled t.records r (vehicle_row r.vehicle_id t.vehicles)
        (type_row r.service_type_id t.service_types)
      ++ join_reminders vehicle_id disabled t reminders

  -- ORDER BY lower(v.nickname),lower(st.name), by bytes; equal names keep the order of the table.
  abbrev pub named_before : Reminder F → Reminder F → Bool
  named_before a b =
      if text_eq (to_lower a.vehicle_name) (to_lower b.vehicle_name)
      then text_lt (to_lower a.service_type_name) (to_lower b.service_type_name)
      else text_lt (to_lower a.vehicle_name) (to_lower b.vehicle_name)

  unfoldable pub insert_named : Reminder F → List (Reminder F) → List (Reminder F)
  insert_named r [] = r ∷ []
  insert_named r (s ∷ reminders) =
      let rest = insert_named r reminders in
      if named_before s r then s ∷ rest else r ∷ s ∷ reminders

  unfoldable pub sort_named : List (Reminder F) → List (Reminder F)
  unfolding insert_named
  sort_named [] = []
  sort_named (r ∷ reminders) = insert_named r (sort_named reminders)

  unfoldable pub list_reminders : Option Uuid → Bool → Garage F → List (Reminder F)
  unfolding join_reminders sort_named
  list_reminders vehicle_id disabled t =
      sort_named (join_reminders vehicle_id disabled t t.reminders)

  abbrev pub same_plan : Reminder F → Reminder F → Bool
  same_plan r s = s.vehicle_id == r.vehicle_id && s.service_type_id == r.service_type_id

  abbrev pub replan : Reminder F → Reminder F → Reminder F
  replan r s =
      if same_plan r s
      then record s {
        interval_months = r.interval_months;
        interval_miles = r.interval_miles;
        enabled = r.enabled;
        updated_at = r.updated_at;
      }
      else s

  -- A new row of upsertReminderSQL has no snooze.
  abbrev pub new_plan : Reminder F → Reminder F
  new_plan r = record r { snoozed_until_on = none; snoozed_until_miles = none }

  unfoldable pub put_plan : Reminder F → List (Reminder F) → List (Reminder F)
  put_plan r reminders =
      if any (same_plan r) reminders then map (replan r) reminders else reminders ++ new_plan r ∷ []

  -- RETURNING id,created_at,starting_odometer_miles,starting_odometer_pending
  abbrev pub returned : Reminder F → List (Reminder F) → Reminder F
  returned r [] = r
  returned r (s ∷ reminders) =
      if same_plan r s
      then record r {
        id = s.id;
        created_at = s.created_at;
        starting_odometer = s.starting_odometer;
        starting_odometer_pending = s.starting_odometer_pending;
      }
      else returned r reminders

  unfoldable pub upsert_reminder :
      Reminder F → Write → Garage F → Garage F × Result GarageError (Reminder F)
  unfolding put_plan
  upsert_reminder r write t =
      settle write t (record t { reminders = put_plan r t.reminders }) (returned r t.reminders)

  abbrev pub snooze_columns :
      Uuid → Uuid → Option Date → Option ℤ → Instant → Reminder F → Reminder F
  snooze_columns vehicle_id id until_on until_miles at r =
      if r.id == id && r.vehicle_id == vehicle_id
      then record r {
        snoozed_until_on = until_on;
        snoozed_until_miles = until_miles;
        updated_at = at;
      }
      else r

  unfoldable pub set_reminder_snooze :
      Uuid
      → Uuid
      → Option Date
      → Option ℤ
      → Instant
      → Write
      → Garage F
      → Garage F × Option GarageError
  set_reminder_snooze vehicle_id id until_on until_miles at write t =
      if not (any (λ (r : Reminder F). r.id == id && r.vehicle_id == vehicle_id) t.reminders)
      then (t, some (refusal write not_found))
      else settle_done write t (record t {
        reminders = map (snooze_columns vehicle_id id until_on until_miles at) t.reminders;
      })

  unfoldable pub delete_reminder : Uuid → Write → Garage F → Garage F × Option GarageError
  delete_reminder id write t =
      if not (any (λ (r : Reminder F). r.id == id) t.reminders)
      then (t, some (refusal write not_found))
      else settle_done write t
          (record t { reminders = filter (λ (r : Reminder F). not (r.id == id)) t.reminders })
