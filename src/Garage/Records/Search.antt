-- ===== src/Garage/Records/Search.antt =====
-- The list of records with its filters, its search and its order (ListRecords of
-- internal/repository/postgres_records.go).
pub mod Like
pub mod Wanted
pub mod Order
pub mod Sorted
use carma.Base.{
  ℕ, Bool, true, false, not, ◌&&◌, ◌||◌, Option, none, some, List, [], ◌∷◌, ◌++◌, ◌==◌,
  if◌then◌else◌, map, any, filter, all, count,
}
use carma.Base.Int.{ℤ, ltb_ℤ}
use carma.Base.Text.{Text, text, text_eq, lower, is_space}
use carma.Calendar.{Date, before}
use carma.Model.{Uuid, Instant, User, Record, ServiceType, Attachment, Vehicle, RecordQuery}
use carma.Garage.{Garage, vehicle_row}
use carma.Garage.Records.{is_later, find_record}
use carma.Garage.Reminders.{type_row}

-- Some end of the text passes.
abbrev pub any_end : (Text → Bool) → Text → Bool
any_end f [] = f []
any_end f (c ∷ s) = f (c ∷ s) || any_end f s

abbrev pub same_char : ℕ → ℕ → Bool
same_char c d = lower c == lower d

-- After the escape: the next character of the pattern stands for itself.
abbrev pub after_char : ℕ → (Text → Bool) → Text → Bool
after_char c f [] = false
after_char c f (d ∷ s) = same_char c d && f s

abbrev pub after_any : (Text → Bool) → Text → Bool
after_any f [] = false
after_any f (d ∷ s) = f s

abbrev pub at_end : Text → Bool
at_end [] = true
at_end (c ∷ s) = false

-- text ILIKE pattern ESCAPE '\', on ASCII text; the flag tells that the escape was read. A pattern that
-- ends in the escape matches nothing here, where PostgreSQL reports an error.
unfoldable pub ilike : Bool → Text → Text → Bool
ilike true [] = λ s. false
ilike true (c ∷ p) = after_char c (ilike false p)
ilike false [] = at_end
ilike false (c ∷ p) =
    if c == b'%'
    then any_end (ilike false p)
    else if c == b'_'
    then after_any (ilike false p)
    else if c == 92
    then ilike true p
    else after_char c (ilike false p)

abbrev pub is_special : ℕ → Bool
is_special c = c == 92 || c == b'%' || c == b'_'

unfoldable pub escape_like_pattern : Text → Text
escape_like_pattern [] = []
escape_like_pattern (c ∷ s) =
    let rest = escape_like_pattern s in if is_special c then 92 ∷ c ∷ rest else c ∷ rest

-- '%'||$5||'%'
unfoldable pub search_matches : Text → Text → Bool
search_matches pattern value = ilike false (b'%' ∷ (pattern ++ b'%' ∷ [])) value

abbrev pub same_or_unset : Option Uuid → Uuid → Bool
same_or_unset none id = true
same_or_unset (some asked) id = id == asked

abbrev pub from_or_unset : Option Date → Date → Bool
from_or_unset none day = true
from_or_unset (some since) day = not (before day since)

abbrev pub until_or_unset : Option Date → Date → Bool
until_or_unset none day = true
until_or_unset (some until) day = not (before until day)

-- recordFilter, on a joined row.
unfoldable pub is_asked_for : RecordQuery → Record → Bool
is_asked_for q r =
    let pattern = escape_like_pattern q.search in
    same_or_unset q.vehicle_id r.vehicle_id
    && same_or_unset q.service_type_id r.service_type_id
    && from_or_unset q.since r.occurred_on
    && until_or_unset q.until r.occurred_on
    && (text_eq pattern []
        || search_matches pattern r.service_type_name
        || search_matches pattern r.vendor
        || search_matches pattern r.notes)

pub data SortField : Type 0 where
  by_date by_mileage by_cost by_default : SortField

-- normalizedRecordSort
unfoldable pub sort_field : Text → SortField
sort_field field =
    if text_eq field (text "date")
    then by_date
    else if text_eq field (text "mileage")
    then by_mileage
    else if text_eq field (text "cost")
    then by_cost
    else by_default

-- Two values in the direction, NULLS LAST; equal ones leave it to the rest of the order.
abbrev pub value_before : Bool → ℤ → ℤ → Bool → Bool
value_before desc a b rest = if ltb_ℤ a b then not desc else if ltb_ℤ b a then desc else rest

abbrev pub null_last : Bool → Option ℤ → Option ℤ → Bool → Bool
null_last desc none none rest = rest
null_last desc none (some b) rest = false
null_last desc (some a) none rest = true
null_last desc (some a) (some b) rest = value_before desc a b rest

abbrev pub date_before : Bool → Date → Date → Bool → Bool
date_before desc a b rest = if before a b then not desc else if before b a then desc else rest

abbrev pub field_before : SortField → Bool → Record → Record → Bool
field_before by_date desc a b = date_before desc a.occurred_on b.occurred_on (is_later a b)
field_before by_mileage desc a b = null_last desc a.odometer_miles b.odometer_miles (is_later a b)
field_before by_cost desc a b = null_last desc a.cost_cents b.cost_cents (is_later a b)
field_before by_default desc a b = is_later a b

-- recordOrder
unfoldable pub comes_before : RecordQuery → Record → Record → Bool
comes_before q a b = field_before (sort_field q.sort) q.desc a b

unfoldable pub insert_record : (Record → Record → Bool) → Record → List Record → List Record
insert_record lt r [] = r ∷ []
insert_record lt r (s ∷ records) =
    let rest = insert_record lt r records in if lt r s then r ∷ s ∷ records else s ∷ rest

unfoldable pub sort_records : (Record → Record → Bool) → List Record → List Record
unfolding insert_record
sort_records lt [] = []
sort_records lt (r ∷ records) = insert_record lt r (sort_records lt records)

abbrev pub user_row : Uuid → List User → Option User
user_row id [] = none
user_row id (u ∷ users) = if u.id == id then some u else user_row id users

-- COALESCE(NULLIF(u.display_name,''),u.email)
abbrev pub user_name : User → Text
user_name u = if text_eq u.display_name [] then u.email else u.display_name

abbrev pub cons_some {ℓ} : {A : Type ℓ} → Option A → List A → List A
cons_some none xs = xs
cons_some (some x) xs = x ∷ xs

module _ {F : Type 0} where
  -- recordSelect
  abbrev pub with_names :
      Garage F → Record → Option Vehicle → Option ServiceType → Option User → Option Record
  with_names t r none s u = none
  with_names t r (some v) none u = none
  with_names t r (some v) (some s) none = none
  with_names t r (some v) (some s) (some u) = some (record r {
    vehicle_name = v.nickname;
    service_type_name = s.name;
    created_by_name = user_name u;
    attachment_count = count (λ a. a.record_id == r.id) t.attachments;
  })

  abbrev pub select_record : Garage F → Record → Option Record
  select_record t r =
      with_names t r (vehicle_row r.vehicle_id t.vehicles)
        (type_row r.service_type_id t.service_types) (user_row r.created_by t.users)

  unfoldable pub select_records : Garage F → List Record → List Record
  select_records t [] = []
  select_records t (r ∷ records) = cons_some (select_record t r) (select_records t records)

  unfoldable pub list_records : RecordQuery → Garage F → List Record
  unfolding select_records is_asked_for comes_before sort_records
  list_records q t =
      sort_records (comes_before q) (filter (is_asked_for q) (select_records t t.records))
