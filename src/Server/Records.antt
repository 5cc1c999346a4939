-- ===== src/Server/Records.antt =====
-- The record handlers (internal/server/records.go).
pub mod Amounts
pub mod Sound
pub mod Refused
use carma.Base.{
  ℕ, Bool, true, false, not, ◌&&◌, ◌||◌, Option, none, some, List, [], ◌∷◌, ◌++◌, ◌==◌,
  if◌then◌else◌, ltb, filter, map, any, length,
}
use carma.Base.Int.{ℤ}
use carma.Base.Result.{Result, ok, err}
use carma.Base.Text.{Text, text, text_eq, trim_space}
use carma.Base.Digits.{remove_commas}
use carma.Calendar.{Date, date}
use carma.Digest.Store.{same_date}
use carma.Model.{Uuid, Instant, Record, ServiceType, Attachment, Vehicle, RecordQuery}
use carma.Model.Money.{parse_cents, parse_odometer_miles}
use carma.Model.Warranty.{validate_warranty, warranty_active}
use carma.Garage.{Write, Garage, GarageError, not_found, database_error, get_vehicle}
use carma.Garage.Records.{
  find_record, create_record, update_record, delete_record, create_service_type,
}
use carma.Server.{
  safe_redirect_target, Parsers, FormError, date_required, type_required, bad_odometer, bad_cost,
  bad_warranty_date, warranty_before_service, bad_warranty_miles, PageAnswer, not_found_page,
  failed_page, invalid_form, bad_request, conflict_page, record_form, upload_form, see_record,
  see_vehicle, see_target, Served, error_page, found, Field, unset, wrong, value, read_field,
  requested_vehicle,
}

-- The record so far and the first message.
abbrev pub Draft : Type 0
Draft = Record × Option FormError

-- The zero time is January 1 of year 1.
abbrev pub zero_date : Date
zero_date = date 1 1 1

abbrev pub empty_record : Text → Text → Record
empty_record vendor notes = record {
  id = 0;
  vehicle_id = 0;
  service_type_id = 0;
  created_by = 0;
  vehicle_name = [];
  service_type_name = [];
  created_by_name = [];
  occurred_on = zero_date;
  odometer_miles = none;
  cost_cents = none;
  vendor = vendor;
  notes = notes;
  warranty_until_on = none;
  warranty_until_miles = none;
  created_at = 0;
  updated_at = 0;
  attachment_count = 0;
}

abbrev pub first_message : FormError → Option FormError → Option FormError
first_message e none = some e
first_message e (some old) = some old

abbrev pub take_date : Option Date → Record → Draft
take_date none r = (r, some date_required)
take_date (some day) r = (record r { occurred_on = day }, none)

abbrev pub take_type : Option Uuid → Draft → Draft
take_type none (r, msg) = (r, first_message type_required msg)
take_type (some id) (r, msg) = (record r { service_type_id = id }, msg)

abbrev pub take_odometer : Field ℤ → Draft → Draft
take_odometer unset d = d
take_odometer wrong (r, msg) = (r, first_message bad_odometer msg)
take_odometer (value n) (r, msg) = (record r { odometer_miles = some n }, msg)

abbrev pub take_cost : Field ℤ → Draft → Draft
take_cost unset d = d
take_cost wrong (r, msg) = (r, first_message bad_cost msg)
take_cost (value n) (r, msg) = (record r { cost_cents = some n }, msg)

abbrev pub check_warranty : Record → Date → Option FormError → Option FormError
check_warranty r day (some e) = some e
check_warranty r day none =
    if not (same_date r.occurred_on zero_date) && not (validate_warranty r.occurred_on (some day))
    then some warranty_before_service
    else none

abbrev pub take_warranty_date : Field Date → Draft → Draft
take_warranty_date unset d = d
take_warranty_date wrong (r, msg) = (r, first_message bad_warranty_date msg)
take_warranty_date (value day) (r, msg) =
    (record r { warranty_until_on = some day }, check_warranty r day msg)

abbrev pub take_warranty_miles : Field ℤ → Draft → Draft
take_warranty_miles unset d = d
take_warranty_miles wrong (r, msg) = (r, first_message bad_warranty_miles msg)
take_warranty_miles (value n) (r, msg) = (record r { warranty_until_miles = some n }, msg)

-- Commas are dropped from a mileage.
abbrev pub parse_miles : Text → Option ℤ
parse_miles raw = parse_odometer_miles (remove_commas raw)

-- The fields of the form, in the order in which they are read.
module _ (p : Parsers) (form : Text → Text) where
  abbrev pub dated_draft : Draft
  dated_draft =
      take_date (p.parse_date (form (text "occurred_on")))
        (empty_record (trim_space (form (text "vendor"))) (trim_space (form (text "notes"))))

  abbrev pub typed_draft : Draft
  typed_draft = take_type (p.parse_uuid (form (text "service_type_id"))) dated_draft

  abbrev pub mileage_draft : Draft
  mileage_draft = take_odometer (read_field parse_miles (form (text "odometer"))) typed_draft

  abbrev pub priced_draft : Draft
  priced_draft = take_cost (read_field parse_cents (form (text "cost"))) mileage_draft

  abbrev pub covered_draft : Draft
  covered_draft =
      take_warranty_date (read_field p.parse_date (form (text "warranty_until"))) priced_draft

  unfoldable pub record_from_form : Record × Option FormError
  unfolding read_field
  record_from_form =
      take_warranty_miles (read_field parse_miles (form (text "warranty_miles"))) covered_draft

-- recordQuery; `params` answers the first value of a key, and nothing for a missing one.
unfoldable pub record_query : Parsers → (Text → Text) → Option Uuid → RecordQuery
record_query p params vehicle_id = record {
  vehicle_id = vehicle_id;
  search = trim_space (params (text "q"));
  service_type_id = p.parse_uuid (params (text "type"));
  since = p.parse_date (params (text "from"));
  until = p.parse_date (params (text "to"));
  sort = params (text "sort");
  desc = not (text_eq (params (text "direction")) (text "asc"));
}

unfoldable pub clean_from : (Text → Text) → List Text → List (Text × Text)
clean_from params [] = []
clean_from params (key ∷ keys) =
    let rest = clean_from params keys in
    if text_eq (params key) [] then rest else (key, params key) ∷ rest

unfoldable pub clean_params : (Text → Text) → List (Text × Text)
unfolding clean_from
clean_params params =
    clean_from params
      (text "q" ∷ text "type" ∷ text "from" ∷ text "to" ∷ text "sort" ∷ text "direction" ∷ [])

-- What a request brings, and what the world answers while it is served.
pub record RecordRequest : Type 0 where
  -- The IDs in the path, if they parse.
  pub vehicle_id : Option Uuid
  pub record_id : Option Uuid
  pub form : Text → Text
  pub is_form : Bool
  -- The file fields: the attachments that are saved, or the keys of those saved before one failed.
  pub uploads : Result (List Text) (List Attachment)
  pub user_id : Uuid
  pub new_id : Uuid
  pub now : Instant
  pub read_fails : Bool
  pub vehicle_fails : Bool
  pub write : Write

-- draftRecord and repeatSource, on the parsed `from`; `none` where there is no `from`.
abbrev pub copy_source :
    Vehicle → Record → Result GarageError Record → Result GarageError (Record × Option Uuid)
copy_source v draft (err e) = err e
copy_source v draft (ok source) =
    if not (source.vehicle_id == v.id)
    then err not_found
    else ok (
      record draft {
        service_type_id = source.service_type_id;
        vendor = source.vendor;
        notes = source.notes;
        cost_cents = source.cost_cents;
        odometer_miles = v.latest_odometer;
      },
      some source.id,
    )

abbrev pub new_record : RecordRequest → Vehicle → Record → Record
new_record q v r = record r {
  id = q.new_id;
  vehicle_id = v.id;
  created_by = q.user_id;
  created_at = q.now;
  updated_at = q.now;
}

abbrev pub edit_of : RecordRequest → Record → Record → Record
edit_of q old r = record r {
  id = old.id;
  vehicle_id = old.vehicle_id;
  created_by = old.created_by;
  created_at = old.created_at;
  updated_at = q.now;
}

module _ {F : Type 0} where
  -- getRecord, on the row alone.
  unfoldable pub requested_record : Option Uuid → Bool → Garage F → Result GarageError Record
  requested_record none fails t = err not_found
  requested_record (some id) fails t =
      if fails then err database_error else found (find_record id t.records)

  unfoldable pub draft_record :
      Parsers → Text → Date → Vehicle → Bool → Garage F → Result GarageError (Record × Option Uuid)
  unfolding requested_record
  draft_record p from today v fails t =
      let draft = record (empty_record [] []) { occurred_on = today } in
      if text_eq (trim_space from) []
      then ok (draft, none)
      else copy_source v draft (requested_record (p.parse_uuid (trim_space from)) fails t)

  abbrev pub answer : Garage F → PageAnswer → Served F
  answer t response = record { garage = t; deleted = []; response = response }

  -- A failed write may have been committed: its files stay for the cleanup.
  abbrev pub created : Garage F × Result GarageError Record → Served F
  created (t, ok r) = answer t (see_record r.id)
  created (t, err e) = answer t failed_page

  abbrev pub save_record :
      RecordRequest → Garage F → Record → Result (List Text) (List Attachment) → Served F
  save_record q t r (err keys) = record { garage = t; deleted = keys; response = upload_form r }
  save_record q t r (ok attachments) = created (create_record r attachments q.write t)

  abbrev pub create_checked : RecordRequest → Garage F → Record → Option FormError → Served F
  create_checked q t r (some e) = answer t (record_form r e)
  create_checked q t r none = save_record q t r q.uploads

  abbrev pub create_for : Parsers → RecordRequest → Garage F → Result GarageError Vehicle → Served F
  create_for p q t (err e) = answer t (error_page e)
  create_for p q t (ok v) =
      if not q.is_form
      then answer t invalid_form
      else create_checked q t (new_record q v (record_from_form p q.form).0)
          (record_from_form p q.form).1

  -- createRecord
  unfoldable pub serve_create : Parsers → RecordRequest → Garage F → Served F
  unfolding record_from_form requested_vehicle
  serve_create p q t = create_for p q t (requested_vehicle q.vehicle_id q.vehicle_fails t)

  abbrev pub updated : Garage F × Result GarageError Record → Served F
  updated (t, ok r) = answer t (see_record r.id)
  updated (t, err e) = answer t failed_page

  abbrev pub update_checked :
      RecordRequest → Garage F → Record → Option FormError → Result GarageError Vehicle → Served F
  update_checked q t r msg (err e) = answer t (error_page e)
  update_checked q t r (some e) (ok v) = answer t (record_form r e)
  update_checked q t r none (ok v) = updated (update_record r q.write t)

  abbrev pub update_old : Parsers → RecordRequest → Garage F → Result GarageError Record → Served F
  update_old p q t (err e) = answer t (error_page e)
  update_old p q t (ok old) =
      if not q.is_form
      then answer t invalid_form
      else update_checked q t (edit_of q old (record_from_form p q.form).0)
          (record_from_form p q.form).1 (requested_vehicle (some old.vehicle_id) q.vehicle_fails t)

  -- updateRecord
  unfoldable pub serve_update : Parsers → RecordRequest → Garage F → Served F
  unfolding record_from_form requested_vehicle requested_record
  serve_update p q t = update_old p q t (requested_record q.record_id q.read_fails t)

  abbrev pub deleted_record : Uuid → Garage F × Result GarageError (List Text) → Served F
  deleted_record vehicle_id (t, ok keys) = record {
    garage = t;
    deleted = keys;
    response = see_vehicle vehicle_id;
  }
  deleted_record vehicle_id (t, err e) = answer t (error_page e)

  abbrev pub delete_old : RecordRequest → Garage F → Result GarageError Record → Served F
  delete_old q t (err e) = answer t (error_page e)
  delete_old q t (ok old) = deleted_record old.vehicle_id (delete_record old.id q.write t)

  -- deleteRecord
  unfoldable pub serve_delete : RecordRequest → Garage F → Served F
  unfolding requested_record
  serve_delete q t = delete_old q t (requested_record q.record_id q.read_fails t)

  abbrev pub type_created : Text → Garage F × Result GarageError ServiceType → Served F
  type_created target (t, ok s) = answer t (see_target target)
  type_created target (t, err GarageError.conflict) = answer t conflict_page
  type_created target (t, err GarageError.not_found) = answer t failed_page
  type_created target (t, err GarageError.below_latest) = answer t failed_page
  type_created target (t, err GarageError.database_error) = answer t failed_page

  -- createServiceType
  unfoldable pub serve_create_type : Parsers → RecordRequest → Garage F → Served F
  unfolding safe_redirect_target
  serve_create_type p q t =
      let name = trim_space (q.form (text "name")) in
      if not q.is_form
      then answer t invalid_form
      else if text_eq name [] || ltb 100 (length name)
      then answer t bad_request
      else type_created (safe_redirect_target p (q.form (text "return_to"))).0 (
          create_service_type
            (record { id = q.new_id; name = name; seeded = false; created_at = q.now }) q.write t)

-- warrantyActive: the IDs of the records that are still covered.
abbrev pub mark_active : Date → Vehicle → Record → List Uuid → List Uuid
mark_active today v r ids = if warranty_active r today v.latest_odometer then r.id ∷ ids else ids

unfoldable pub active_ids : Date → Vehicle → List Record → List Uuid
active_ids today v [] = []
active_ids today v (r ∷ records) = mark_active today v r (active_ids today v records)
