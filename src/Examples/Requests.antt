-- ===== src/Examples/Requests.antt =====
-- Posted forms at work.
use carma.Base.{
  ℕ, refl, true, false, Option, none, some, List, [], ◌∷◌, ◌++◌, if◌then◌else◌, All, arith,
}
use carma.Base.Result.{ok}
use carma.Base.Text.{Text, text, text_eq}
use carma.Calendar.{date}
use carma.Garage.{committed, unconfirmed, Garage}
use carma.Garage.Records.Search.{list_records}
use carma.Export.Csv.{csv_file}
use carma.Export.Csv.Formulas.{Plain}
use carma.Export.History.{query}
use carma.Server.{Parsers}
use carma.Server.Records.{RecordRequest, serve_create}
use carma.Server.Records.Sound.{start, posted_new, Posted-csv_file}
use carma.Server.Reminders.{ReminderRequest, serve_upsert}
use carma.Server.Reminders.Plans.{Planned, Managed, posted_plan, Managed-Planned}
use carma.Examples.Logbook.{logbook}

-- An ID is its length, and each date is the same.
abbrev simple_parsers : Parsers
simple_parsers = record {
  parse_uuid = λ s. some 4;
  parse_date = λ s. some (date 2026 4 1);
  parse_request_uri = λ s. none;
  path_unescape = λ s. none;
}

abbrev oil_form : Text → Text
oil_form key =
    if text_eq key (text "cost")
    then text "$1,049.99"
    else if text_eq key (text "odometer")
    then text "1,300"
    else if text_eq key (text "vendor")
    then text "=HYPERLINK()"
    else if text_eq key (text "miles")
    then text "5000"
    else []

abbrev oil_request : RecordRequest
oil_request = record {
  vehicle_id = some 2;
  record_id = some 10;
  form = oil_form;
  is_form = true;
  uploads = ok [];
  user_id = 3;
  new_id = 12;
  now = 9;
  read_fails = false;
  vehicle_fails = false;
  write = committed;
}

-- A file as the list of its rows.
abbrev append_row : List Text → List (List Text) → Option ℕ × List (List Text)
append_row row rows = (none, rows ++ row ∷ [])

abbrev flush : List (List Text) → Option ℕ × List (List Text)
flush rows = (none, rows)

All-append_one :
    (rows : List (List Text)) (row : List Text)
    → All (All Plain) rows
    → All Plain row
    → All (All Plain) (rows ++ row ∷ [])
All-append_one [] row h k = (k, tt)
All-append_one (r ∷ rows) row h k = (h.0, All-append_one rows row h.1 k)

abbrev extended : Garage ℕ
extended = (serve_create simple_parsers oil_request logbook).garage

Posted-csv_file_example :
    All (All Plain) (csv_file append_row flush (list_records (query none) extended) []).1
Posted-csv_file_example =
    Posted-csv_file simple_parsers logbook extended (posted_new logbook start oil_request)
      (ground arith) append_row flush (All (All Plain))
      (λ row rows plain clean. All-append_one rows row clean plain) (λ rows clean. clean)
      (query none) [] tt

-- The answer to the commit is lost.
abbrev lost_request : RecordRequest
lost_request = record oil_request { write = unconfirmed }

abbrev plan_request : ReminderRequest
plan_request = record {
  vehicle_id = some 2;
  reminder_id = none;
  form = oil_form;
  is_form = true;
  is_htmx = false;
  new_id = 31;
  now = 9;
  today = date 2026 4 1;
  vehicle_fails = false;
  list_fails = false;
  write = committed;
  page_fails = false;
}

Managed-Planned_example : Planned (serve_upsert simple_parsers plan_request logbook).garage
Managed-Planned_example =
    Managed-Planned simple_parsers logbook (serve_upsert simple_parsers plan_request logbook).garage
      (posted_plan logbook Managed.start plan_request) (refl, tt)
