-- ===== src/Examples/Mileage.antt =====
-- A mileage check-in at work.
use carma.Base.{◌≡◌, refl, true, false, none, some, [], ◌∷◌, any}
use carma.Base.Int.{ℤ, pos}
use carma.Base.Text.{text}
use carma.Calendar.{date}
use carma.Model.{Vehicle, MileagePoint}
use carma.Garage.{
  committed, OdometerReading, Garage, max_record, get_vehicle, archive_vehicle_mileage,
  with_reading, add_odometer_reading, mileage_points,
}
use carma.Garage.Odometer.{same_point, add_odometer_reading-keeps}

abbrev sedan : Vehicle
sedan = record {
  id = 2;
  nickname = text "Sedan";
  year = none;
  make = [];
  model = [];
  vin = [];
  license_plate = [];
  photo_key = [];
  notes = [];
  archived_at = none;
  created_at = 1;
  updated_at = 1;
  current_odometer = some (pos 1000);
  current_odometer_on = some (date 2026 1 1);
  latest_odometer = none;
  last_record = none;
}

abbrev garage : Garage ℤ
garage = record {
  vehicles = sedan ∷ [];
  records = [];
  readings = [];
  reminders = [];
  service_types = [];
  attachments = [];
  users = [];
}

abbrev check_in : OdometerReading
check_in = record {
  id = 5;
  vehicle_id = 2;
  created_by = 3;
  read_on = date 2026 2 1;
  odometer_miles = pos 1500;
  created_at = 9;
}

abbrev old_point : OdometerReading
old_point = record check_in { id = 6; read_on = date 2026 1 1; odometer_miles = pos 1000 }

abbrev raised : Vehicle
raised = record sedan {
  current_odometer = some (pos 1500);
  current_odometer_on = some (date 2026 2 1);
}

abbrev driven : Garage ℤ
driven = record garage { vehicles = raised ∷ []; readings = old_point ∷ check_in ∷ [] }

abbrev first_point : MileagePoint
first_point = record { vehicle_id = 2; on = date 2026 1 1; miles = pos 1000 }

add_odometer_reading-keeps_example : any (same_point first_point) (mileage_points driven) ≡ true
unfolding mileage_points add_odometer_reading get_vehicle max_record with_reading
    archive_vehicle_mileage
add_odometer_reading-keeps_example =
    add_odometer_reading-keeps first_point 6 check_in false committed garage driven
      (record raised { latest_odometer = some (pos 1500); current_odometer_on = none }) refl refl
