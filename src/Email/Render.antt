-- ===== src/Email/Render.antt =====
-- The digest's and the reminder's messages (RenderDigest of internal/reminderemail/digest.go and
-- Render of internal/reminderemail/runner.go).
use carma.Base.{
  ℕ, ◌+◌, Bool, true, false, not, ◌&&◌, Option, none, some, List, [], ◌∷◌, ◌++◌, ltb, leb, ◌==◌,
  if◌then◌else◌, any, filter, map, length, take, count,
}
use carma.Base.Int.{ℤ}
use carma.Base.Text.{Text, text, join, trim_right}
use carma.Base.Decimal.{decimal, format_int}
use carma.Calendar.{Date}
use carma.Model.{Uuid, Recall}
use carma.Nhtsa.{lookup_vin}
use carma.Reminder.Format.{group_thousands, format_date, format_long_date}
use carma.Reminder.Evaluate.{Status, due, Evaluation}
use carma.Email.{Message, clean_body_value}

-- uuid.UUID.String behind url.PathEscape, and url.QueryEscape.
pub record Links : Type 0 where
  pub uuid_path : Uuid → Text
  pub query_escape : Text → Text

abbrev pub newline : Text
newline = 10 ∷ []

abbrev pub is_due : Status → Bool
is_due due = true
is_due _ = false

-- strings.LastIndex(s, " "), where it is above 0.
unfoldable pub last_space : ℕ → Option ℕ → Text → Option ℕ
last_space i found [] = found
last_space i found (c ∷ s) = last_space (i + 1) (if c == b' ' && ltb 0 i then some i else found) s

abbrev pub cut_at : Option ℕ → Text → Text
cut_at none cut = cut
cut_at (some i) cut = take i cut

-- The code counts runes: the text is the list of its runes.
unfoldable pub truncate : Text → ℕ → Text
unfolding last_space
truncate value limit =
    let cut = take limit value in
    if leb (length value) limit
    then value
    else trim_right (cut_at (last_space 0 none cut) cut) (text " ,;:.") ++ text "..."

abbrev pub recall_summary_limit : ℕ
recall_summary_limit = 300

abbrev pub when : Bool → List Text → List Text
when b lines = if b then lines else []

abbrev pub differs : Option Uuid → Uuid → Bool
differs none id = true
differs (some other) id = not (other == id)

abbrev pub first_vehicle : List Recall → Option Uuid
first_vehicle [] = none
first_vehicle (r ∷ recalls) = some r.vehicle_id

abbrev pub reported : Option Date → Text
reported none = []
reported (some on) = text ", reported " ++ format_date on

abbrev pub component_or_recall : Text → Text
component_or_recall [] = text "Recall"
component_or_recall (c ∷ s) = c ∷ s

abbrev pub indented : Text → List Text
indented [] = []
indented (c ∷ s) = (text "    " ++ c ∷ s) ∷ []

abbrev pub due_text : Option Date → List Text
due_text none = []
due_text (some on) = (text "due " ++ format_date on) ∷ []

abbrev pub mileage_text : Option ℤ → List Text
mileage_text none = []
mileage_text (some miles) = (text "due at " ++ group_thousands miles ++ text " mi") ∷ []

-- The detail, or else the reading, where there is a mileage that is due.
abbrev pub detail_text : Text → Option ℤ → Option ℤ → List Text
detail_text (c ∷ s) mileage latest = (c ∷ s) ∷ []
detail_text [] (some mileage) (some reading) =
    (text "now " ++ group_thousands reading ++ text " mi") ∷ []
detail_text [] (some mileage) none = []
detail_text [] none latest = []

abbrev pub in_brackets : List Text → Text
in_brackets [] = []
in_brackets (d ∷ details) = text " (" ++ join (text "; ") (d ∷ details) ++ text ")"

abbrev pub has_any {ℓ} : {A : Type ℓ} → List A → Bool
has_any [] = false
has_any (x ∷ xs) = true

abbrev pub counted : ℕ → Text → List Text
counted n what = when (ltb 0 n) ((decimal n ++ what) ∷ [])

abbrev pub latest_text : Option ℤ → Text
latest_text none = []
latest_text (some reading) = text " (latest: " ++ format_int reading ++ text " miles)"

abbrev pub due_date_line : Option Date → List Text
due_date_line none = []
due_date_line (some on) = (text "Due date: " ++ format_long_date on) ∷ []

abbrev pub due_mileage_line : Option ℤ → Option ℤ → List Text
due_mileage_line none latest = []
due_mileage_line (some miles) latest =
    (text "Due mileage: " ++ format_int miles ++ text " miles" ++ latest_text latest) ∷ []

module _ (links : Links) where
  abbrev pub vin_lines : Text → List Text
  vin_lines [] = []
  vin_lines (c ∷ s) =
      (text "    Check this VIN: https://www.nhtsa.gov/recalls?vymm=" ++ links.query_escape (c ∷ s))
      ∷ []

  abbrev pub vehicle_url : Text → Uuid → Text
  vehicle_url public_url id = public_url ++ text "/vehicles/" ++ links.uuid_path id

  -- The lines of one recall, between the vehicles of the recall before it and of the one behind it.
  unfoldable pub recall_entry : Text → Option Uuid → Recall → Option Uuid → List Text
  recall_entry public_url before r behind =
      when (differs before r.vehicle_id) (clean_body_value r.vehicle_name ∷ [])
      ++ (text "  - "
          ++ component_or_recall (clean_body_value r.component)
          ++ text " (campaign "
          ++ clean_body_value r.campaign_number
          ++ reported r.report_received_on
          ++ text ")")
        ∷ when r.park_it
            (text "    Do not drive this vehicle until the recall repair is done." ∷ [])
      ++ when r.park_outside
          (text "    Park outside and away from buildings until the recall repair is done." ∷ [])
      ++ indented (truncate (clean_body_value r.summary) recall_summary_limit)
      ++ vin_lines (lookup_vin r.vehicle_vin)
      ++ (text "    Review or dismiss: " ++ vehicle_url public_url r.vehicle_id ++ text "#recalls")
        ∷ when (differs behind r.vehicle_id) ([] ∷ [])

  unfoldable pub recall_loop : Text → Option Uuid → List Recall → List Text
  recall_loop public_url before [] = []
  recall_loop public_url before (r ∷ recalls) =
      recall_entry public_url before r (first_vehicle recalls)
      ++ recall_loop public_url (some r.vehicle_id) recalls

  unfoldable pub recall_lines : Text → List Recall → List Text
  unfolding recall_loop recall_entry
  recall_lines public_url recalls =
      text "New safety recalls" ∷ [] ∷ recall_loop public_url none recalls
      ++ text
          "NHTSA lists recalls for a whole model year, so one may not apply to your VIN or may already be fixed. Dismiss it on the vehicle page once it is done or does not apply."
        ∷ []
        ∷ []

  module _ {F : Type 0} where
    -- groupMiles is groupThousands of internal/reminder line for line.
    unfoldable pub digest_line : Evaluation F → Text
    digest_line item =
        text "  - "
        ++ (if is_due item.status then text "OVERDUE" else text "Due soon")
        ++ text ": "
        ++ clean_body_value item.reminder.service_type_name
        ++ in_brackets (
            due_text item.due_date
            ++ mileage_text item.due_mileage
            ++ detail_text item.detail item.due_mileage item.reminder.latest_odometer)

    abbrev pub add_vehicle : List Uuid → Evaluation F → List Uuid
    add_vehicle seen item =
        if any (λ v. v == item.reminder.vehicle_id) seen
        then seen
        else seen ++ item.reminder.vehicle_id ∷ []

    unfoldable pub vehicles_of : List Uuid → List (Evaluation F) → List Uuid
    vehicles_of seen [] = seen
    vehicles_of seen (item ∷ items) = vehicles_of (add_vehicle seen item) items

    -- slices.SortStableFunc by statusRank, which has two values: the overdue first, in order.
    unfoldable pub overdue_first : List (Evaluation F) → List (Evaluation F)
    overdue_first items =
        filter (λ item. is_due item.status) items ++ filter (λ item. not (is_due item.status)) items

    abbrev pub heading : List (Evaluation F) → List Text
    heading [] = []
    heading (item ∷ items) = clean_body_value item.reminder.vehicle_name ∷ []

    unfoldable pub vehicle_lines : Text → List (Evaluation F) → Uuid → List Text
    unfolding overdue_first digest_line
    vehicle_lines public_url items id =
        let mine = overdue_first (filter (λ item. item.reminder.vehicle_id == id) items) in
        heading mine ++ map digest_line mine ++ (text "  " ++ vehicle_url public_url id) ∷ [] ∷ []

    unfoldable pub all_vehicle_lines : Text → List (Evaluation F) → List Uuid → List Text
    unfolding vehicle_lines
    all_vehicle_lines public_url items [] = []
    all_vehicle_lines public_url items (v ∷ vs) =
        vehicle_lines public_url items v ++ all_vehicle_lines public_url items vs

    unfoldable pub subject_counts : List (Evaluation F) → List Recall → List Text
    subject_counts items recalls =
        (if length recalls == 1
          then text "1 new recall" ∷ []
          else when (ltb 1 (length recalls))
              ((decimal (length recalls) ++ text " new recalls") ∷ []))
        ++ counted (count (λ item. is_due item.status) items) (text " overdue")
        ++ counted (count (λ item. not (is_due item.status)) items) (text " due soon")

    unfoldable pub render_digest :
        List (Evaluation F) → List Recall → Date → Text → List Text → Message
    unfolding subject_counts vehicles_of all_vehicle_lines
    render_digest items recalls week_start url recipients =
        let public_url = trim_right url (text "/") in
        record {
          recipients = recipients;
          subject = text "Carma weekly digest: " ++ join (text ", ") (subject_counts items recalls);
          body = join newline (
              (text "Carma digest for the week of " ++ format_long_date week_start ++ text ".")
                ∷ []
                ∷ when (has_any recalls) (
                    recall_lines public_url recalls
                    ++ when (has_any items) (text "Maintenance" ∷ [] ∷ []))
              ++ all_vehicle_lines public_url items (vehicles_of [] items)
              ++ when (has_any items) (
                  text
                    "Log a service record to reset a reminder. Manage reminders on each vehicle's Reminders page."
                  ∷ []));
        }

    -- The message of a single overdue reminder.
    unfoldable pub render : Evaluation F → Text → List Text → Message
    render result url recipients = record {
      recipients = recipients;
      subject = text "Carma maintenance reminder";
      body = join newline (
          text "A vehicle maintenance reminder is overdue."
            ∷ []
            ∷ (text "Vehicle: " ++ clean_body_value result.reminder.vehicle_name)
            ∷ (text "Service: " ++ clean_body_value result.reminder.service_type_name)
            ∷ due_date_line result.due_date
          ++ due_mileage_line result.due_mileage result.reminder.latest_odometer
          ++ []
            ∷ (text "View vehicle: "
                ++ vehicle_url (trim_right url (text "/")) result.reminder.vehicle_id)
            ∷ []
            ∷ []);
    }
