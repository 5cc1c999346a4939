-- ===== src/Garage/Vehicles.antt =====
-- The writes of vehicles (CreateVehicle, UpdateVehicle and ArchiveVehicle of
-- internal/repository/postgres_vehicles.go).
pub mod Photos
use carma.Base.{
  ℕ, ◌≡◌, ◌≢◌, refl, sym, ap, ◌∙◌, inl, inr, Bool, true, false, not, ◌&&◌, ◌||◌, Option, none, some,
  List, [], ◌∷◌, ◌++◌, ◌==◌, ==_iff, if◌then◌else◌, map, any, Bool-cases, arith,
}
use carma.Base.Int.{ℤ, ltb_ℤ, eq_ℤ}
use carma.Base.Result.{Result, ok, err}
use carma.Base.Text.{Text, text_eq}
use carma.Calendar.{Date, before}
use carma.Model.{Uuid, Instant, Record, Vehicle, Reminder}
use carma.Garage.{
  Write, settle_answer, settle_done, refusal, Garage, GarageError, not_found, database_error,
  greatest, max_record, vehicle_row, get_vehicle, or_no_vehicle, initialize_reminder,
}

-- COALESCE(NULLIF($8,''),v.photo_key)
abbrev pub photo_or : Text → Text → Text
photo_or [] old = old
photo_or (c ∷ key) old = c ∷ key

unfoldable pub replaced_photo_key : Text → Text → Text
replaced_photo_key new_key previous_key =
    if text_eq new_key [] || text_eq new_key previous_key then [] else previous_key

abbrev pub is_miles : ℤ → Option ℤ → Bool
is_miles a none = false
is_miles a (some b) = eq_ℤ a b

abbrev pub later : Date → Option Date → Option Date
later a none = some a
later a (some b) = some (if before b a then a else b)

-- SELECT max(occurred_on) FROM records WHERE vehicle_id=$1 AND odometer_miles=$10
unfoldable pub max_occurred_on : Uuid → ℤ → List Record → Option Date
max_occurred_on id miles [] = none
max_occurred_on id miles (r ∷ records) =
    let rest = max_occurred_on id miles records in
    if r.vehicle_id == id && is_miles miles r.odometer_miles then later r.occurred_on rest else rest

-- current_odometer_on of an update, by the row it changes.
abbrev pub updated_on : List Record → Vehicle → Vehicle → Option ℤ → Option Date
updated_on records v row none = none
updated_on records v row (some miles) =
    if is_miles miles row.current_odometer
    then row.current_odometer_on
    else if is_miles miles (max_record v.id records)
    then max_occurred_on v.id miles records
    else v.current_odometer_on

abbrev pub update_columns : List Record → Vehicle → Vehicle → Vehicle
update_columns records v row =
    if row.id == v.id
    then record row {
      nickname = v.nickname;
      year = v.year;
      make = v.make;
      model = v.model;
      vin = v.vin;
      license_plate = v.license_plate;
      photo_key = photo_or v.photo_key row.photo_key;
      notes = v.notes;
      current_odometer = v.current_odometer;
      updated_at = v.updated_at;
      current_odometer_on = updated_on records v row v.current_odometer;
    }
    else row

abbrev pub archive_columns : Uuid → Instant → Vehicle → Vehicle
archive_columns id now v =
    if v.id == id then record v { archived_at = some now; updated_at = now } else v

-- The vehicle, and the key of a photo that was replaced.
abbrev pub with_old_photo : Text → Text → Option Vehicle → Result GarageError (Vehicle × Text)
with_old_photo new_key previous_key none = err not_found
with_old_photo new_key previous_key (some v) = ok (v, replaced_photo_key new_key previous_key)

module _ {F : Type 0} where
  abbrev pub initialize_if : Uuid → Option ℤ → Garage F → List (Reminder F)
  initialize_if id none t = t.reminders
  initialize_if id (some miles) t = map (initialize_reminder id (some miles) t.records) t.reminders

  unfoldable pub with_update : Vehicle → Garage F → Garage F
  with_update v t = record t {
    vehicles = map (update_columns t.records v) t.vehicles;
    reminders = initialize_if v.id v.current_odometer t;
  }

  abbrev pub update_row_of :
      Vehicle → Write → Garage F → Option Vehicle → Garage F × Result GarageError (Vehicle × Text)
  update_row_of v write t none = (t, err not_found)
  update_row_of v write t (some previous) =
      settle_answer write t (with_update v t)
        (with_old_photo v.photo_key previous.photo_key (get_vehicle v.id (with_update v t)))

  unfoldable pub update_vehicle :
      Vehicle → Write → Garage F → Garage F × Result GarageError (Vehicle × Text)
  update_vehicle v write t = update_row_of v write t (vehicle_row v.id t.vehicles)

  unfoldable pub archive_vehicle : Uuid → Instant → Write → Garage F → Garage F × Option GarageError
  archive_vehicle id now write t =
      if not (any (λ (v : Vehicle). v.id == id) t.vehicles)
      then (t, some (refusal write not_found))
      else settle_done write t (record t { vehicles = map (archive_columns id now) t.vehicles })
