-- ===== src/Server/Reminders.antt =====
-- The reminder handlers (internal/server/reminders.go). The pages that they render are named by their
-- vehicle and their message; reading the data of a page may fail.
pub mod Plans
use carma.Base.{
  ℕ, Bool, true, false, not, ◌&&◌, ◌||◌, Option, none, some, List, [], ◌∷◌, ◌==◌, if◌then◌else◌,
  any,
}
use carma.Base.Int.{ℤ, pos, pos_part, ltb_ℤ}
use carma.Base.Result.{Result, ok, err}
use carma.Base.Text.{Text, text, text_eq, trim_space}
use carma.Base.Decimal.{parse_int64}
use carma.Calendar.{Date}
use carma.Model.{Uuid, Instant, Vehicle, Reminder}
use carma.Garage.{Write, Garage, GarageError}
use carma.Garage.Reminders.{
  option_map, list_reminders, upsert_reminder, set_reminder_snooze, delete_reminder,
}
use carma.Reminder.Snooze.{
  SnoozeError, mileage_unknown, bad_date, bad_miles, miles_low, empty, bad_preset, Snooze,
  resolve_snooze,
}
use carma.Server.{
  Parsers, PageAnswer, not_found_page, failed_page, invalid_form, bad_request, see_reminders,
  reminder_list, reminder_error, Served, error_page, Field, unset, wrong, value, read_field,
  requested_vehicle,
}

abbrev pub positive : Option ℤ → Option ℤ
positive none = none
positive (some n) = if ltb_ℤ (pos 0) n then some n else none

-- optionalPositiveInt and optionalPositiveInt64: an int has 64 bits.
abbrev pub optional_positive : Text → Field ℤ
optional_positive raw = read_field (λ s. positive (parse_int64 s)) raw

abbrev pub field_value : Field ℤ → Option ℤ
field_value unset = none
field_value wrong = none
field_value (value n) = some n

abbrev pub is_wrong : Field ℤ → Bool
is_wrong unset = false
is_wrong wrong = true
is_wrong (value n) = false

abbrev pub is_blank : Field ℤ → Bool
is_blank unset = true
is_blank wrong = false
is_blank (value n) = false

unfoldable pub snooze_form_error : SnoozeError → Text
snooze_form_error mileage_unknown = text "Set a current mileage before snoozing by miles."
snooze_form_error bad_date = text "Choose a snooze date after today."
snooze_form_error bad_miles = text "Snooze mileage must be a positive whole number."
snooze_form_error miles_low = text "Snooze mileage must be above the current reading."
snooze_form_error empty = text "Choose a date or a mileage."
snooze_form_error bad_preset = text "Choose a snooze option."

pub record ReminderRequest : Type 0 where
  -- The IDs in the path, if they parse.
  pub vehicle_id : Option Uuid
  pub reminder_id : Option Uuid
  pub form : Text → Text
  pub is_form : Bool
  pub is_htmx : Bool
  pub new_id : Uuid
  pub now : Instant
  pub today : Date
  pub vehicle_fails : Bool
  pub list_fails : Bool
  pub write : Write
  pub page_fails : Bool

abbrev pub page : ReminderRequest → PageAnswer → PageAnswer
page q response = if q.page_fails then failed_page else response

-- The answer of a write: the list for htmx, and a redirect to the page else.
abbrev pub written : ReminderRequest → Vehicle → PageAnswer
written q v = if q.is_htmx then page q (reminder_list v.id) else see_reminders v.id

module _ {F : Type 0} where
  abbrev pub respond : Garage F → PageAnswer → Served F
  respond t response = record { garage = t; deleted = []; response = response }

  abbrev pub new_reminder : ReminderRequest → Vehicle → Uuid → Field ℤ → Field ℤ → Reminder F
  new_reminder q v service_type_id months miles = record {
    id = q.new_id;
    vehicle_id = v.id;
    service_type_id = service_type_id;
    vehicle_name = [];
    service_type_name = [];
    interval_months = option_map pos_part (field_value months);
    interval_miles = field_value miles;
    starting_odometer = v.latest_odometer;
    starting_odometer_pending = false;
    enabled = text_eq (q.form (text "enabled")) (text "true");
    snoozed_until_on = none;
    snoozed_until_miles = none;
    created_at = q.now;
    updated_at = q.now;
    baseline = none;
    latest_odometer = none;
    miles_per_day = none;
    estimate_hint = [];
  }

  abbrev pub upserted :
      ReminderRequest → Vehicle → Garage F × Result GarageError (Reminder F) → Served F
  upserted q v (t, ok r) = respond t (written q v)
  upserted q v (t, err e) = respond t failed_page

  abbrev pub upsert_fields :
      ReminderRequest → Vehicle → Garage F → Uuid → Field ℤ → Field ℤ → Served F
  upsert_fields q v t service_type_id months miles =
      if is_wrong months || is_wrong miles || (is_blank months && is_blank miles)
      then respond t bad_request
      else upserted q v (upsert_reminder (new_reminder q v service_type_id months miles) q.write t)

  abbrev pub upsert_type : ReminderRequest → Vehicle → Garage F → Option Uuid → Served F
  upsert_type q v t none = respond t bad_request
  upsert_type q v t (some service_type_id) =
      upsert_fields q v t service_type_id (optional_positive (q.form (text "months")))
        (optional_positive (q.form (text "miles")))

  abbrev pub upsert_for :
      Parsers → ReminderRequest → Garage F → Result GarageError Vehicle → Served F
  upsert_for p q t (err e) = respond t (error_page e)
  upsert_for p q t (ok v) =
      if not q.is_form
      then respond t invalid_form
      else upsert_type q v t (p.parse_uuid (q.form (text "service_type_id")))

  -- upsertReminder
  unfoldable pub serve_upsert : Parsers → ReminderRequest → Garage F → Served F
  unfolding requested_vehicle read_field
  serve_upsert p q t = upsert_for p q t (requested_vehicle q.vehicle_id q.vehicle_fails t)

  -- The first row with the ID.
  abbrev pub row_of : Uuid → List (Reminder F) → Option (Reminder F)
  row_of id [] = none
  row_of id (r ∷ reminders) = if r.id == id then some r else row_of id reminders

  abbrev pub changed : ReminderRequest → Vehicle → Garage F × Option GarageError → Served F
  changed q v (t, none) = respond t (written q v)
  changed q v (t, some e) = respond t (error_page e)

  abbrev pub snooze_window :
      ReminderRequest → Vehicle → Garage F → Uuid → Result SnoozeError Snooze → Served F
  snooze_window q v t id (err e) = respond t (page q (reminder_error v.id id (snooze_form_error e)))
  snooze_window q v t id (ok s) =
      changed q v (set_reminder_snooze v.id id s.until_on s.until_miles q.now q.write t)

  abbrev pub snooze_row :
      ReminderRequest → Vehicle → Garage F → Uuid → Option (Reminder F) → Served F
  snooze_row q v t id none = respond t not_found_page
  snooze_row q v t id (some current) = snooze_window q v t id (
      resolve_snooze (q.form (text "preset")) (q.form (text "until_on"))
        (q.form (text "until_miles")) q.today current.latest_odometer)

  abbrev pub snooze_id : ReminderRequest → Vehicle → Garage F → Option Uuid → Served F
  snooze_id q v t none = respond t not_found_page
  snooze_id q v t (some id) =
      if not q.is_form
      then respond t invalid_form
      else if q.list_fails
      then respond t failed_page
      else snooze_row q v t id (row_of id (list_reminders (some v.id) true t))

  abbrev pub snooze_for : ReminderRequest → Garage F → Result GarageError Vehicle → Served F
  snooze_for q t (err e) = respond t (error_page e)
  snooze_for q t (ok v) = snooze_id q v t q.reminder_id

  -- snoozeReminder
  unfoldable pub serve_snooze : ReminderRequest → Garage F → Served F
  unfolding requested_vehicle list_reminders
  serve_snooze q t = snooze_for q t (requested_vehicle q.vehicle_id q.vehicle_fails t)

  abbrev pub delete_id : ReminderRequest → Vehicle → Garage F → Option Uuid → Served F
  delete_id q v t none = respond t not_found_page
  delete_id q v t (some id) =
      if q.list_fails
      then respond t failed_page
      else if not (any (λ (r : Reminder F). r.id == id) (list_reminders (some v.id) true t))
      then respond t not_found_page
      else changed q v (delete_reminder id q.write t)

  abbrev pub delete_for : ReminderRequest → Garage F → Result GarageError Vehicle → Served F
  delete_for q t (err e) = respond t (error_page e)
  delete_for q t (ok v) = delete_id q v t q.reminder_id

  -- deleteReminder
  unfoldable pub serve_delete_reminder : ReminderRequest → Garage F → Served F
  unfolding requested_vehicle list_reminders
  serve_delete_reminder q t = delete_for q t (requested_vehicle q.vehicle_id q.vehicle_fails t)
