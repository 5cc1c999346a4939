-- ===== src/Examples/Recalls.antt =====
-- Recall checks at work.
use carma.Base.{◌≡◌, refl, true, false, none, some, List, [], ◌∷◌, any, map, All, ◌==◌, arith}
use carma.Base.Int.{pos}
use carma.Base.Text.{Text, text, text_eq}
use carma.Calendar.{date}
use carma.Model.{Instant, Vehicle, Recall}
use carma.Digest.Store.{same_key, recall_key, announced}
use carma.Email.Recipients.{contains, distinct}
use carma.Nhtsa.Campaigns.{CampaignResult, DayParser, campaigns, collect, names}
use carma.Nhtsa.Campaigns.{collect-names}
use carma.Recalls.Store.{
  RecallRow, RecallTables, campaign_of, is_covered, has_row, dismissal_of, save_recall_check,
  set_recall_dismissed, list_unnotified,
}
use carma.Recalls.Store.Mirror.{after_save, after_set, run_saves, dismissed_stays}
use carma.Recalls.Store.Baseline.{first_check_quiet}
use carma.Recalls.Store.News.{campaign_key, found_campaign_listed}
use carma.Recalls.Check.{CheckAnswers, is_check_due}
use carma.Recalls.Check.Due.{saved-not_due}

abbrev wagon : Vehicle
wagon = record {
  id = 1;
  nickname = text "Wagon";
  year = some (pos 2020);
  make = text "Subaru";
  model = text "Outback";
  vin = [];
  license_plate = [];
  photo_key = [];
  notes = [];
  archived_at = none;
  created_at = 1;
  updated_at = 1;
  current_odometer = none;
  current_odometer_on = none;
  latest_odometer = none;
  last_record = none;
}

abbrev fuel_pump : Recall
fuel_pump = record {
  vehicle_id = 1;
  vehicle_name = [];
  vehicle_vin = [];
  campaign_number = text "20V218000";
  component = text "FUEL SYSTEM";
  summary = text "The pump may fail.";
  consequence = text "The engine may stall.";
  remedy = text "A new pump.";
  report_received_on = some (date 2020 4 16);
  park_it = false;
  park_outside = false;
  first_seen_at = 0;
  dismissed_at = none;
}

abbrev empty_tables : RecallTables
empty_tables = record {
  vehicles = wagon ∷ [];
  checks = [];
  recalls = [];
  dismissals = [];
  notifications = [];
}

-- A check that found nothing.
abbrev checked_tables : RecallTables
checked_tables = record empty_tables {
  checks =
      record {
        vehicle_id = 1;
        checked_at = 10;
        model_year = pos 2020;
        make = text "Subaru";
        model = text "Outback";
      }
      ∷ [];
}

abbrev pump_row : RecallRow
pump_row = record {
  key = recall_key fuel_pump;
  campaign = campaign_of fuel_pump;
  first_seen_at = 10;
  dismissed_at = none;
}

abbrev pump_tables : RecallTables
pump_tables = record checked_tables { recalls = pump_row ∷ [] }

-- The campaign vanishes and comes back.
abbrev two_checks : List (Vehicle × List Recall × Instant)
two_checks = (wagon, [], 20) ∷ (wagon, fuel_pump ∷ [], 30) ∷ []

dismissed_stays_example :
    All
      (λ (row : RecallRow).
        same_key row.key (recall_key fuel_pump) ≡ true → row.dismissed_at ≡ some 15)
      (run_saves two_checks (
        after_set pump_tables
          (set_recall_dismissed (recall_key fuel_pump) (some 15) pump_tables))).recalls
unfolding dismissal_of has_row text_eq
dismissed_stays_example =
    dismissed_stays (recall_key fuel_pump) (some 15) pump_tables two_checks (refl, tt) refl

first_check_quiet_example :
    any
      (λ (r : Recall). r.vehicle_id == 1)
      (list_unnotified
        (after_save empty_tables (save_recall_check wagon (fuel_pump ∷ []) 10 empty_tables)))
    ≡ false
unfolding is_covered
first_check_quiet_example =
    first_check_quiet wagon (pos 2020) (fuel_pump ∷ []) 10 empty_tables refl refl refl

found_campaign_listed_example :
    any
      (λ q. same_key (recall_key q) (campaign_key wagon (text "20V218000")))
      (list_unnotified
        (after_save checked_tables (save_recall_check wagon (fuel_pump ∷ []) 20 checked_tables)))
    ≡ true
unfolding is_covered announced dismissal_of text_eq
found_campaign_listed_example =
    found_campaign_listed wagon wagon (pos 2020) (fuel_pump ∷ []) 20 checked_tables
      (text "20V218000") refl refl refl refl refl refl refl refl refl refl tt

saved-not_due_example :
    is_check_due 15
      (after_save empty_tables (save_recall_check wagon (fuel_pump ∷ []) 20 empty_tables)).checks
      wagon
    ≡ false
saved-not_due_example =
    saved-not_due wagon wagon (pos 2020) (fuel_pump ∷ []) 20 15 empty_tables refl refl refl refl
      refl refl (omega arith)

abbrev no_day : DayParser
no_day value = none

abbrev two_results : List CampaignResult
two_results =
    map
      (λ n. record {
        nhtsa_campaign_number = n;
        component = [];
        summary = [];
        consequence = [];
        remedy = [];
        report_received_date = [];
        park_it = false;
        park_outside = false;
      })
      (text " 20V1 " ∷ text "20V1" ∷ text " " ∷ [])

collect-names_example :
    (distinct (campaigns no_day (collect no_day [] two_results)) ≡ true)
    × ((c : Text)
        → contains (campaigns no_day (collect no_day [] two_results)) c
          ≡ any (names no_day c) two_results)
collect-names_example = collect-names no_day two_results

abbrev one_answer : CheckAnswers
one_answer = record {
  lock = some true;
  unlock_fails = false;
  due_fails = false;
  now = 700000000000000;
  vehicle = λ i. record {
    canceled = false;
    response = some (record { status = 200; message = []; results = two_results });
    now = 700000000000001;
    save_fails = false;
  };
}
