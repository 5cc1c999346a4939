-- ===== src/Garage/Reminders/Baseline.antt =====
-- The baseline of a reminder after a record is logged.
use carma.Base.{
  ◌≡◌, refl, sym, ap, ap₂, ◌∙◌, inl, inr, Bool, true, false, not, ◌&&◌, Option, none, some, List,
  [], ◌∷◌, ◌++◌, ==_iff, if◌then◌else◌, map, Bool-cases, All, arith,
}
use carma.Model.{Uuid, Instant, Record, ServiceType, Attachment, Vehicle, Reminder}
use carma.Garage.{committed, Garage, vehicle_row}
use carma.Garage.Records.{
  latest_match, clear_snooze, clear_reminder_snooze, with_record, create_record,
}
use carma.Garage.Records.Snooze.{
  IsNew, has_later, latest_match-new, has_id-latest_match, is_snoozed, concerns,
  clear_snooze-is_snoozed,
}
use carma.Garage.Reminders.{
  baseline_columns, option_map, type_row, is_asked, joined, join_row, join_reminders, named_before,
  insert_named, sort_named, list_reminders,
}

module _ {F : Type 0} (r : Record) where
  abbrev Quiet : Reminder F → Type 0
  Quiet rm = concerns r rm ≡ true → is_snoozed rm ≡ false

  -- A listed reminder of the record's service on its vehicle starts from the record, unsnoozed.
  abbrev pub StartsFrom : Reminder F → Type 0
  StartsFrom rm =
      concerns r rm ≡ true → (rm.baseline ≡ some (baseline_columns r)) × (is_snoozed rm ≡ false)

  same_ids :
      (at : Instant) (rm : Reminder F)
      → concerns r (clear_snooze r.vehicle_id r.service_type_id at true rm) ≡ concerns r rm
  same_ids at rm = by_test (concerns r rm && is_snoozed rm && true)
    where
      by_test :
          (b : Bool)
          → concerns r (
              if b
              then record rm {
                snoozed_until_on = none;
                snoozed_until_miles = none;
                updated_at = at;
              }
              else rm)
            ≡ concerns r rm
      by_test true = refl
      by_test false = refl

  clear_snooze-Quiet :
      (at : Instant) (rm : Reminder F)
      → Quiet (clear_snooze r.vehicle_id r.service_type_id at true rm)
  clear_snooze-Quiet at rm mine =
      clear_snooze-is_snoozed r at true rm
      ∙ awake (concerns r rm) (is_snoozed rm) (sym (same_ids at rm) ∙ mine)
    where
      awake : (c s : Bool) → c ≡ true → (s && not (c && true)) ≡ false
      awake c s e = ground arith

  cleared-Quiet :
      (at : Instant) (reminders : List (Reminder F))
      → All Quiet (map (clear_snooze r.vehicle_id r.service_type_id at true) reminders)
  cleared-Quiet at [] = tt
  cleared-Quiet at (rm ∷ reminders) = (clear_snooze-Quiet at rm, cleared-Quiet at reminders)

  joined-StartsFrom :
      (records : List Record) (v : Vehicle) (s : ServiceType) (rm : Reminder F)
      → latest_match r.vehicle_id r.service_type_id records ≡ some r
      → Quiet rm
      → StartsFrom (joined records v s rm)
  joined-StartsFrom records v s rm newest quiet mine = (
    ap₂ (λ a b. option_map baseline_columns (latest_match a b records))
          ((==_iff rm.vehicle_id r.vehicle_id).0 (and_left _ _ mine))
          ((==_iff rm.service_type_id r.service_type_id).0 (and_right _ _ mine))
        ∙ ap (option_map baseline_columns) newest,
    quiet mine,
  )
    where
      and_left : (a b : Bool) → (a && b) ≡ true → a ≡ true
      and_left a b h = ground arith

      and_right : (a b : Bool) → (a && b) ≡ true → b ≡ true
      and_right a b h = ground arith

  module _ (vehicle_id : Option Uuid) (disabled : Bool) (t : Garage F)
      (newest : latest_match r.vehicle_id r.service_type_id t.records ≡ some r) where
    join_row-StartsFrom :
        (rm : Reminder F) (v : Option Vehicle) (s : Option ServiceType) (rest : List (Reminder F))
        → Quiet rm
        → All StartsFrom rest
        → All StartsFrom (join_row vehicle_id disabled t.records rm v s ++ rest)
    join_row-StartsFrom rm none s rest quiet h = h
    join_row-StartsFrom rm (some v) none rest quiet h = h
    join_row-StartsFrom rm (some v) (some s) rest quiet h =
        elim (Bool-cases (is_asked vehicle_id disabled v rm.vehicle_id rm.enabled)) [
          | inl asked ↦ simp asked (joined-StartsFrom t.records v s rm newest quiet, h)
          | inr other ↦ simp other h
        ]

    join_reminders-StartsFrom :
        (reminders : List (Reminder F))
        → All Quiet reminders
        → All StartsFrom (join_reminders vehicle_id disabled t reminders)
    unfolding join_reminders
    join_reminders-StartsFrom [] h = tt
    join_reminders-StartsFrom (rm ∷ reminders) h =
        join_row-StartsFrom rm (vehicle_row rm.vehicle_id t.vehicles)
          (type_row rm.service_type_id t.service_types) _ h.0
          (join_reminders-StartsFrom reminders h.1)

All-insert_named :
    {F : Type 0} (P : Reminder F → Type 0) (rm : Reminder F) (reminders : List (Reminder F))
    → P rm
    → All P reminders
    → All P (insert_named rm reminders)
unfolding insert_named
All-insert_named P rm [] h k = (h, tt)
All-insert_named P rm (s ∷ reminders) h k = elim (Bool-cases (named_before s rm)) [
  | inl before ↦ simp before (k.0, All-insert_named P rm reminders h k.1)
  | inr after ↦ simp after (h, k)
]

All-sort_named :
    {F : Type 0} (P : Reminder F → Type 0) (reminders : List (Reminder F))
    → All P reminders
    → All P (sort_named reminders)
unfolding sort_named
All-sort_named P [] h = tt
All-sort_named P (rm ∷ reminders) h =
    All-insert_named P rm (sort_named reminders) h.0 (All-sort_named P reminders h.1)

-- After a record is logged under a new ID that no record of its vehicle and service is later than, each
-- reminder of that service that is listed starts from the record and is not snoozed.
pub create_record-StartsFrom :
    {F : Type 0} (r : Record) (attachments : List Attachment) (vehicle_id : Option Uuid)
    (disabled : Bool) (t : Garage F)
    → IsNew r.id t.records
    → has_later r t.records ≡ false
    → All
        (StartsFrom r)
        (list_reminders vehicle_id disabled (create_record r attachments committed t).0)
unfolding list_reminders create_record with_record clear_reminder_snooze
create_record-StartsFrom r attachments vehicle_id disabled t new none_later =
    All-sort_named (StartsFrom r)
      (join_reminders vehicle_id disabled (with_record r attachments t)
        (with_record r attachments t).reminders)
      (join_reminders-StartsFrom r vehicle_id disabled (with_record r attachments t)
        (latest_match-new r t.records new none_later)
        (clear_reminder_snooze r (t.records ++ r ∷ []) t.reminders)
        (rw (has_id-latest_match r t.records new ∙ ap not none_later)
          (cleared-Quiet r r.updated_at t.reminders)))
