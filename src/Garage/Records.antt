-- ===== src/Garage/Records.antt =====
-- Service records, their receipts and the types of service in the store
-- (internal/repository/postgres_records.go and postgres_attachments.go).
pub mod Snooze
pub mod Receipts
pub mod Search
use carma.Base.{
  ℕ, suc, Bool, true, false, not, ◌&&◌, ◌||◌, Option, none, some, List, [], ◌∷◌, ◌++◌, ◌==◌,
  if◌then◌else◌, map, any, filter, count, ltb,
}
use carma.Base.Int.{ℤ}
use carma.Base.Result.{Result, ok, err}
use carma.Base.Text.{Text, text_eq, to_lower}
use carma.Calendar.{Date, before}
use carma.Model.{Uuid, Instant, User, Record, ServiceType, Attachment, Vehicle, Reminder}
use carma.Garage.{
  Garage, Write, settle, settle_done, refusal, GarageError, not_found, conflict, database_error,
}

-- ORDER BY r.occurred_on DESC,r.created_at DESC,r.id DESC: does `a` come first?
unfoldable pub is_later : Record → Record → Bool
is_later a b =
    if before b.occurred_on a.occurred_on
    then true
    else if before a.occurred_on b.occurred_on
    then false
    else if ltb b.created_at a.created_at
    then true
    else if ltb a.created_at b.created_at
    then false
    else ltb b.id a.id

abbrev pub first_of : Record → Option Record → Option Record
first_of r none = some r
first_of r (some s) = if is_later s r then some s else some r

-- ... LIMIT 1
unfoldable pub latest : List Record → Option Record
latest [] = none
latest (r ∷ records) = first_of r (latest records)

abbrev pub is_match : Uuid → Uuid → Record → Bool
is_match vehicle_id service_type_id r =
    r.vehicle_id == vehicle_id && r.service_type_id == service_type_id

unfoldable pub latest_match : Uuid → Uuid → List Record → Option Record
unfolding latest
latest_match vehicle_id service_type_id records =
    latest (filter (is_match vehicle_id service_type_id) records)

abbrev pub has_id : Uuid → Option Record → Bool
has_id id none = false
has_id id (some r) = r.id == id

abbrev pub is_some {ℓ} : {A : Type ℓ} → Option A → Bool
is_some none = false
is_some (some a) = true

abbrev pub find_record : Uuid → List Record → Option Record
find_record id [] = none
find_record id (r ∷ records) = if r.id == id then some r else find_record id records

-- The columns that an edit changes.
abbrev pub edit_columns : Record → Record → Record
edit_columns r row =
    if row.id == r.id
    then record row {
      service_type_id = r.service_type_id;
      occurred_on = r.occurred_on;
      odometer_miles = r.odometer_miles;
      cost_cents = r.cost_cents;
      vendor = r.vendor;
      notes = r.notes;
      warranty_until_on = r.warranty_until_on;
      warranty_until_miles = r.warranty_until_miles;
      updated_at = r.updated_at;
    }
    else row

-- Was the row the latest match of its old service before the edit? `old` is the row as it was.
abbrev pub was_latest : Record → List Record → Bool
was_latest old records = has_id old.id (
    latest (
      filter (λ s. is_match old.vehicle_id old.service_type_id s && not (s.id == old.id)) records
      ++ old ∷ []))

abbrev pub first_key : Uuid → List Attachment → Option Text
first_key id [] = none
first_key id (a ∷ attachments) = if a.id == id then some a.storage_key else first_key id attachments

abbrev pub attach : Uuid → Attachment → Attachment
attach id a = record a { record_id = id }

module _ {F : Type 0} where
  -- A row's update of clearReminderSnoozeSQL and of clearReminderSnoozeOnEditSQL, by the rest of its
  -- test.
  abbrev pub clear_snooze : Uuid → Uuid → Instant → Bool → Reminder F → Reminder F
  clear_snooze vehicle_id service_type_id at test r =
      if r.vehicle_id == vehicle_id
        && r.service_type_id == service_type_id
        && (is_some r.snoozed_until_on || is_some r.snoozed_until_miles)
        && test
      then record r { snoozed_until_on = none; snoozed_until_miles = none; updated_at = at }
      else r

  unfoldable pub clear_reminder_snooze :
      Record → List Record → List (Reminder F) → List (Reminder F)
  clear_reminder_snooze r records reminders =
      map
        (clear_snooze r.vehicle_id r.service_type_id r.updated_at
          (has_id r.id (latest_match r.vehicle_id r.service_type_id records)))
        reminders

  unfoldable pub with_record : Record → List Attachment → Garage F → Garage F
  with_record r attachments t = record t {
    records = t.records ++ r ∷ [];
    attachments = t.attachments ++ attachments;
    reminders = clear_reminder_snooze r (t.records ++ r ∷ []) t.reminders;
  }

  -- A key that is taken rolls the write back.
  unfoldable pub create_record :
      Record → List Attachment → Write → Garage F → Garage F × Result GarageError Record
  create_record r attachments write t = settle write t (with_record r attachments t) r

  unfoldable pub with_edit : Record → Record → Garage F → Garage F
  with_edit r old t =
      let records = map (edit_columns r) t.records in
      record t {
        records = records;
        reminders =
            map
              (clear_snooze old.vehicle_id r.service_type_id r.updated_at (
                has_id r.id (latest_match old.vehicle_id r.service_type_id records)
                && (not (old.service_type_id == r.service_type_id)
                    || not (was_latest old records))))
              t.reminders;
      }

  abbrev pub edit_row :
      Record → Write → Garage F → Option Record → Garage F × Result GarageError Record
  edit_row r write t none = (t, err not_found)
  edit_row r write t (some old) = settle write t (with_edit r old t) r

  unfoldable pub update_record : Record → Write → Garage F → Garage F × Result GarageError Record
  update_record r write t = edit_row r write t (find_record r.id t.records)

  -- The receipts go with their record (ON DELETE CASCADE); the answer names their files.
  unfoldable pub delete_record : Uuid → Write → Garage F → Garage F × Result GarageError (List Text)
  delete_record id write t =
      if not (any (λ (r : Record). r.id == id) t.records)
      then (t, err (refusal write not_found))
      else settle write t
          (record t {
            records = filter (λ (r : Record). not (r.id == id)) t.records;
            attachments = filter (λ a. not (a.record_id == id)) t.attachments;
          })
          (map (λ a. a.storage_key) (filter (λ a. a.record_id == id) t.attachments))

  unfoldable pub add_attachments :
      Uuid → List Attachment → Write → Garage F → Garage F × Option GarageError
  add_attachments record_id attachments write t =
      settle_done write t
        (record t { attachments = t.attachments ++ map (attach record_id) attachments })

  abbrev pub drop_attachment :
      Uuid → Write → Garage F → Option Text → Garage F × Result GarageError Text
  drop_attachment id write t none = (t, err (refusal write not_found))
  drop_attachment id write t (some key) =
      settle write t (record t { attachments = filter (λ a. not (a.id == id)) t.attachments }) key

  unfoldable pub delete_attachment : Uuid → Write → Garage F → Garage F × Result GarageError Text
  delete_attachment id write t = drop_attachment id write t (first_key id t.attachments)

  -- The names are unique up to case.
  unfoldable pub create_service_type :
      ServiceType → Write → Garage F → Garage F × Result GarageError ServiceType
  create_service_type s write t =
      if any (λ old. text_eq (to_lower old.name) (to_lower s.name)) t.service_types
      then (t, err (refusal write conflict))
      else settle write t
          (record t { service_types = t.service_types ++ record s { seeded = false } ∷ [] })
          (record s { seeded = false })
