-- ===== src/Examples.antt =====
-- Concrete data, tests of the definitions and the theorems at inputs that meet their hypotheses.
mod Reminders
mod Amounts
mod Digests
mod Accounts
mod Emails
mod Recalls
mod Files
mod Logbook
mod Exports
mod Mileage
mod Requests
mod Settings
use carma.Base.{
  ℕ, ◌*◌, ◌/◌, ◌≡◌, Bool, true, false, Option, none, some, [], ◌∷◌, if◌then◌else◌, arith,
}
use carma.Base.Int.{ℤ, pos, negsuc, pos_part, ◌+ℤ◌, ◌-ℤ◌, ◌≤ℤ◌, ltb_ℤ, leb_ℤ}
use carma.Base.Text.{text}
use carma.Base.Float.{Float, Rounds}
use carma.Calendar.{Date, date}
use carma.Calendar.Zone.{Zone}
use carma.Model.{Record, Reminder, MileagePoint}

-- Whole numbers in the place of float64; a product or a quotient counts a negative number as 0.
abbrev pub whole_numbers : Float
whole_numbers = record {
  F = ℤ;
  of_int = λ z. z;
  add = λ a b. a +ℤ b;
  sub = λ a b. a -ℤ b;
  mul = λ a b. pos (pos_part a * pos_part b);
  div = λ a b. pos (pos_part a / pos_part b);
  lt = ltb_ℤ;
  le = leb_ℤ;
  is_inf = λ a. false;
  round = λ a. a;
}

pub whole_numbers-Rounds : Rounds whole_numbers
whole_numbers-Rounds = record { round_le = λ x n small h. ground arith }

-- A day to the second, and every instant on one date.
abbrev pub one_day : Zone
one_day = record { date_of = λ now. date 2026 1 15; midnight = λ day. 0 }

abbrev pub oil_change : Record
oil_change = record {
  id = 7;
  vehicle_id = 1;
  service_type_id = 2;
  created_by = 3;
  vehicle_name = text "Wagon";
  service_type_name = text "Oil change";
  created_by_name = text "Sam";
  occurred_on = date 2026 1 31;
  odometer_miles = some (pos 40000);
  cost_cents = some (pos 6450);
  vendor = [];
  notes = [];
  warranty_until_on = some (date 2027 1 31);
  warranty_until_miles = none;
  created_at = 5;
  updated_at = 5;
  attachment_count = 0;
}

abbrev pub every_six_months : Reminder ℤ
every_six_months = record {
  id = 9;
  vehicle_id = 1;
  service_type_id = 2;
  vehicle_name = text "Wagon";
  service_type_name = text "Oil change";
  interval_months = some 6;
  interval_miles = some (pos 5000);
  starting_odometer = none;
  starting_odometer_pending = false;
  enabled = true;
  snoozed_until_on = none;
  snoozed_until_miles = none;
  created_at = 5;
  updated_at = 5;
  baseline = some oil_change;
  latest_odometer = some (pos 44800);
  miles_per_day = some (pos 40);
  estimate_hint = [];
}
