-- ===== src/Examples/Logbook.antt =====
-- A vehicle's service history at work.
use carma.Base.{
  ℕ, ◌≡◌, arith, refl, Bool, true, false, ◌&&◌, ◌==◌, none, some, [], ◌∷◌, map, count, All,
}
use carma.Base.Int.{pos}
use carma.Base.Text.{text}
use carma.Calendar.{date, before}
use carma.Model.{User, Record, ServiceType, Attachment, Vehicle, Reminder, RecordQuery}
use carma.Garage.{Garage, committed}
use carma.Garage.Records.{is_later, create_record}
use carma.Garage.Records.Snooze.{is_snoozed, create_record-is_snoozed}
use carma.Garage.Records.Search.{
  escape_like_pattern, search_matches, is_asked_for, select_records, list_records,
}
use carma.Garage.Records.Search.Like.{search_matches-contains}
use carma.Garage.Records.Search.Wanted.{Wanted, is_asked_for_iff}
use carma.Garage.Records.Search.Sorted.{Sorted, list_records-Sorted}
use carma.Garage.Reminders.{list_reminders}
use carma.Garage.Reminders.Baseline.{StartsFrom, create_record-StartsFrom}

abbrev pub wagon : Vehicle
wagon = record {
  id = 2;
  nickname = text "Wagon";
  year = none;
  make = [];
  model = [];
  vin = [];
  license_plate = [];
  photo_key = [];
  notes = [];
  archived_at = none;
  created_at = 1;
  updated_at = 1;
  current_odometer = some (pos 1000);
  current_odometer_on = some (date 2026 1 1);
  latest_odometer = none;
  last_record = none;
}

abbrev pub first_oil : Record
first_oil = record {
  id = 10;
  vehicle_id = 2;
  service_type_id = 4;
  created_by = 3;
  vehicle_name = [];
  service_type_name = [];
  created_by_name = [];
  occurred_on = date 2025 6 1;
  odometer_miles = some (pos 500);
  cost_cents = some (pos 4999);
  vendor = text "100% Oil";
  notes = [];
  warranty_until_on = none;
  warranty_until_miles = none;
  created_at = 2;
  updated_at = 2;
  attachment_count = 0;
}

abbrev second_oil : Record
second_oil = record first_oil {
  id = 11;
  occurred_on = date 2026 2 1;
  odometer_miles = some (pos 1200);
  created_at = 7;
  updated_at = 7;
}

abbrev pub oil_change : ServiceType
oil_change = record { id = 4; name = text "Oil change"; seeded = true; created_at = 1 }

abbrev pub driver : User
driver = record {
  id = 3;
  oauth_provider = [];
  oauth_subject = [];
  email = text "d@x.org";
  display_name = [];
  avatar_url = [];
  created_at = 1;
  updated_at = 1;
  last_login_at = 1;
}

abbrev pub receipt : Attachment
receipt = record {
  id = 20;
  record_id = 10;
  original_filename = text "oil.png";
  content_type = text "image/png";
  storage_key = text "ab/k.png";
  byte_size = pos 9;
  created_at = 2;
}

abbrev pub oil_reminder : Reminder ℕ
oil_reminder = record {
  id = 30;
  vehicle_id = 2;
  service_type_id = 4;
  vehicle_name = [];
  service_type_name = [];
  interval_months = some 6;
  interval_miles = none;
  starting_odometer = none;
  starting_odometer_pending = false;
  enabled = true;
  snoozed_until_on = some (date 2026 3 1);
  snoozed_until_miles = none;
  created_at = 1;
  updated_at = 1;
  baseline = none;
  latest_odometer = none;
  miles_per_day = none;
  estimate_hint = [];
}

abbrev pub logbook : Garage ℕ
logbook = record {
  vehicles = wagon ∷ [];
  records = first_oil ∷ [];
  readings = [];
  reminders = oil_reminder ∷ [];
  service_types = oil_change ∷ [];
  attachments = receipt ∷ [];
  users = driver ∷ [];
}

-- The snooze ends with the record.
create_record-is_snoozed_example :
    map is_snoozed (create_record second_oil [] committed logbook).0.reminders ≡ false ∷ []
unfolding is_later before
create_record-is_snoozed_example = create_record-is_snoozed second_oil [] logbook (refl, tt)

create_record-StartsFrom_example :
    All
      (StartsFrom second_oil)
      (list_reminders none true (create_record second_oil [] committed logbook).0)
unfolding is_later before
create_record-StartsFrom_example =
    create_record-StartsFrom second_oil [] none true logbook (refl, tt) refl

abbrev emptied : Garage ℕ
emptied = record logbook { records = []; attachments = [] }

-- "% o" is found in "100% Oil", where the percent sign stands for itself.
search_matches-contains_example :
    search_matches (escape_like_pattern (text "% o")) (text "100% Oil") ≡ true
search_matches-contains_example = search_matches-contains (text "% o") (text "100% Oil")

abbrev by_cost_desc : RecordQuery
by_cost_desc = record {
  vehicle_id = some 2;
  search = text "oil";
  service_type_id = none;
  since = none;
  until = none;
  sort = text "cost";
  desc = true;
}

-- The record that is logged is wanted, and stands in the list.
abbrev oil_asked : Record → Bool
oil_asked r = is_asked_for by_cost_desc r && r.id == 10

oil_asked-Wanted : (r : Record) → oil_asked r ≡ true → Wanted by_cost_desc r
oil_asked-Wanted r h = (is_asked_for_iff by_cost_desc r).0 (ground arith)

list_records-Sorted_example :
    Sorted by_cost_desc (list_records by_cost_desc logbook)
    × (All (Wanted by_cost_desc) (list_records by_cost_desc logbook)
        × (count oil_asked (list_records by_cost_desc logbook)
            ≡ count oil_asked (select_records logbook logbook.records)))
list_records-Sorted_example = list_records-Sorted by_cost_desc logbook oil_asked oil_asked-Wanted
