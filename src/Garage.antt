-- ===== src/Garage.antt =====
-- Vehicles, their mileage and its history in the store (internal/repository/postgres_odometer.go and
-- postgres_vehicles.go).
pub mod Odometer
pub mod Vehicles
pub mod Writes
pub mod Records
pub mod Reminders
use carma.Base.{
  ℕ, Bool, true, false, not, ◌&&◌, ◌||◌, Option, none, some, List, [], ◌∷◌, ◌++◌, ◌==◌,
  if◌then◌else◌, map, any,
}
use carma.Base.Int.{ℤ, ltb_ℤ, eq_ℤ}
use carma.Base.Result.{Result, ok, err}
use carma.Base.Text.{Text, text_eq}
use carma.Calendar.{Date, before}
use carma.Model.{
  Uuid, Instant, User, Record, ServiceType, Attachment, Vehicle, Reminder, MileagePoint,
}
use carma.Digest.Store.{same_date}

pub record OdometerReading : Type 0 where
  pub id : Uuid
  pub vehicle_id : Uuid
  pub created_by : Uuid
  pub read_on : Date
  pub odometer_miles : ℤ
  pub created_at : Instant

pub record Garage (F : Type 0) : Type 0 where
  pub vehicles : List Vehicle
  pub records : List Record
  pub readings : List OdometerReading
  pub reminders : List (Reminder F)
  pub service_types : List ServiceType
  pub attachments : List Attachment
  pub users : List User

pub data GarageError : Type 0 where
  not_found below_latest conflict database_error : GarageError

-- What becomes of a write: its transaction is committed, it is committed and the answer to that is lost,
-- or it is rolled back.
pub data Write : Type 0 where
  committed unconfirmed rolled_back : Write

-- The store before and after the write, with what is answered when the commit is confirmed.
abbrev pub settle {ℓ} :
    {F : Type 0} {A : Type ℓ} → Write → Garage F → Garage F → A → Garage F × Result GarageError A
settle committed before after a = (after, ok a)
settle unconfirmed before after a = (after, err database_error)
settle rolled_back before after a = (before, err database_error)

-- The same for an answer that is read back in the transaction.
abbrev pub settle_answer {ℓ} :
    {F : Type 0} {A : Type ℓ}
    → Write
    → Garage F
    → Garage F
    → Result GarageError A
    → Garage F × Result GarageError A
settle_answer committed before after answer = (after, answer)
settle_answer unconfirmed before after answer = (after, err database_error)
settle_answer rolled_back before after answer = (before, err database_error)

abbrev pub settle_done : {F : Type 0} → Write → Garage F → Garage F → Garage F × Option GarageError
settle_done committed before after = (after, none)
settle_done unconfirmed before after = (after, some database_error)
settle_done rolled_back before after = (before, some database_error)

-- The error where the statement finds that there is nothing to write: then there is no commit.
abbrev pub refusal : Write → GarageError → GarageError
refusal committed e = e
refusal unconfirmed e = e
refusal rolled_back e = database_error

abbrev pub max_ℤ : ℤ → ℤ → ℤ
max_ℤ a b = if ltb_ℤ a b then b else a

-- GREATEST, which leaves NULL out.
abbrev pub greatest : Option ℤ → Option ℤ → Option ℤ
greatest none b = b
greatest (some a) none = some a
greatest (some a) (some b) = some (max_ℤ a b)

-- SELECT max(odometer_miles) FROM records WHERE vehicle_id=$1
unfoldable pub max_record : Uuid → List Record → Option ℤ
max_record id [] = none
max_record id (r ∷ records) =
    let rest = max_record id records in
    if r.vehicle_id == id then greatest r.odometer_miles rest else rest

abbrev pub vehicle_row : Uuid → List Vehicle → Option Vehicle
vehicle_row id [] = none
vehicle_row id (v ∷ vehicles) = if v.id == id then some v else vehicle_row id vehicles

-- The columns of selectVehicleSQL.
abbrev pub scan_vehicle : List Record → Option Vehicle → Option Vehicle
scan_vehicle records none = none
scan_vehicle records (some v) = some (record v {
  latest_odometer = greatest v.current_odometer (max_record v.id records);
  current_odometer_on = none;
  last_record = none;
})

abbrev pub is_point : Uuid → Date → ℤ → MileagePoint → Bool
is_point id on miles p = id == p.vehicle_id && same_date on p.on && eq_ℤ miles p.miles

-- Is the point that of a reading, or of a record?
abbrev pub is_reading : MileagePoint → OdometerReading → Bool
is_reading p r = is_point r.vehicle_id r.read_on r.odometer_miles p

abbrev pub has_miles : Uuid → Date → Option ℤ → MileagePoint → Bool
has_miles id on none p = false
has_miles id on (some miles) p = is_point id on miles p

abbrev pub is_record : MileagePoint → Record → Bool
is_record p r = has_miles r.vehicle_id r.occurred_on r.odometer_miles p

-- The vehicle's dated mileage.
abbrev pub dated : Uuid → Option Date → Option ℤ → Option MileagePoint
dated id none miles = none
dated id (some on) none = none
dated id (some on) (some miles) = some (record { vehicle_id = id; on = on; miles = miles })

abbrev pub current_point : Vehicle → Option MileagePoint
current_point v = dated v.id v.current_odometer_on v.current_odometer

-- archiveVehicleMileageSQL, of one row.
abbrev pub archived :
    Uuid → Uuid → Instant → ℤ → (MileagePoint → Bool) → Option MileagePoint → List OdometerReading
archived new_id created_by created_at next known none = []
archived new_id created_by created_at next known (some p) =
    if not (eq_ℤ p.miles next) && not (known p)
    then record {
      id = new_id;
      vehicle_id = p.vehicle_id;
      created_by = created_by;
      read_on = p.on;
      odometer_miles = p.miles;
      created_at = created_at;
    }
      ∷ []
    else []

unfoldable pub archive_vehicle_mileage :
    Uuid → OdometerReading → ℤ → (MileagePoint → Bool) → List Vehicle → List OdometerReading
archive_vehicle_mileage new_id r next known [] = []
archive_vehicle_mileage new_id r next known (v ∷ vehicles) =
    (if v.id == r.vehicle_id
      then archived new_id r.created_by r.created_at next known (current_point v)
      else [])
    ++ archive_vehicle_mileage new_id r next known vehicles

-- UPDATE vehicles SET current_odometer_miles=GREATEST(...),current_odometer_on=CASE ...
abbrev pub raises : ℤ → Option ℤ → Bool
raises miles none = true
raises miles (some current) = ltb_ℤ current miles

abbrev pub raise_vehicle : OdometerReading → Vehicle → Vehicle
raise_vehicle r v =
    if v.id == r.vehicle_id
    then record v {
      current_odometer = greatest v.current_odometer (some r.odometer_miles);
      current_odometer_on =
          if raises r.odometer_miles v.current_odometer
          then some r.read_on
          else v.current_odometer_on;
    }
    else v

abbrev pub is_unset : Option ℤ → Bool
is_unset none = true
is_unset (some miles) = false

abbrev pub next_miles : ℤ → Option ℤ → ℤ
next_miles miles none = miles
next_miles miles (some current) = max_ℤ miles current

abbrev pub is_below : ℤ → Option ℤ → Bool
is_below miles none = false
is_below miles (some latest) = ltb_ℤ miles latest

abbrev pub or_no_vehicle : Option Vehicle → Result GarageError Vehicle
or_no_vehicle none = err not_found
or_no_vehicle (some v) = ok v

-- The points of ListMileagePoints, of all vehicles and days and without its order.
abbrev pub reading_points : List OdometerReading → List MileagePoint
reading_points rs =
    map (λ r. record { vehicle_id = r.vehicle_id; on = r.read_on; miles = r.odometer_miles }) rs

abbrev pub record_point : Uuid → Date → Option ℤ → List MileagePoint
record_point id on none = []
record_point id on (some miles) = record { vehicle_id = id; on = on; miles = miles } ∷ []

unfoldable pub record_points : List Record → List MileagePoint
record_points [] = []
record_points (r ∷ rs) =
    record_point r.vehicle_id r.occurred_on r.odometer_miles ++ record_points rs

abbrev pub unless_known : (MileagePoint → Bool) → Option MileagePoint → List MileagePoint
unless_known known none = []
unless_known known (some p) = if known p then [] else p ∷ []

unfoldable pub vehicle_points : (MileagePoint → Bool) → List Vehicle → List MileagePoint
vehicle_points known [] = []
vehicle_points known (v ∷ vs) = unless_known known (current_point v) ++ vehicle_points known vs

module _ {F : Type 0} where
  unfoldable pub get_vehicle : Uuid → Garage F → Option Vehicle
  get_vehicle id t = scan_vehicle t.records (vehicle_row id t.vehicles)

  abbrev pub known_point : Garage F → MileagePoint → Bool
  known_point t p = any (is_reading p) t.readings || any (is_record p) t.records

  -- initializeReminderOdometerSQL
  abbrev pub initialize_reminder : Uuid → Option ℤ → List Record → Reminder F → Reminder F
  initialize_reminder id current records r =
      if r.vehicle_id == id && r.starting_odometer_pending && is_unset r.starting_odometer
      then record r {
        starting_odometer = greatest current (max_record id records);
        starting_odometer_pending = false;
      }
      else r

  unfoldable pub with_reading : Uuid → OdometerReading → ℤ → Option ℤ → Garage F → Garage F
  unfolding archive_vehicle_mileage
  with_reading new_id r next current t = record t {
    readings =
        (t.readings ++ archive_vehicle_mileage new_id r next (known_point t) t.vehicles) ++ r ∷ [];
    vehicles = map (raise_vehicle r) t.vehicles;
    reminders = map (initialize_reminder r.vehicle_id current t.records) t.reminders;
  }

  abbrev pub add_to :
      Uuid
      → OdometerReading
      → Bool
      → Write
      → Garage F
      → Option Vehicle
      → Garage F × Result GarageError Vehicle
  add_to new_id r allow_lower write t none = (t, err not_found)
  add_to new_id r allow_lower write t (some v) =
      let after =
        with_reading new_id r (next_miles r.odometer_miles v.current_odometer)
          (greatest v.current_odometer (some r.odometer_miles)) t in
      if not allow_lower && is_below r.odometer_miles v.latest_odometer
      then (t, err below_latest)
      else settle_answer write t after (or_no_vehicle (get_vehicle r.vehicle_id after))

  -- `new_id` is that of gen_random_uuid.
  unfoldable pub add_odometer_reading :
      Uuid → OdometerReading → Bool → Write → Garage F → Garage F × Result GarageError Vehicle
  add_odometer_reading new_id r allow_lower write t =
      add_to new_id r allow_lower write t (get_vehicle r.vehicle_id t)

  unfoldable pub mileage_points : Garage F → List MileagePoint
  unfolding record_points vehicle_points
  mileage_points t =
      (reading_points t.readings ++ record_points t.records)
      ++ vehicle_points (known_point t) t.vehicles
