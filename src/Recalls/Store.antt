-- ===== src/Recalls/Store.antt =====
-- The tables of recall campaigns and their statements (internal/repository/recalls.go). A statement
-- that fails rolls its transaction back, so that a failed operation is `none` and changes nothing.
pub mod Mirror
pub mod Baseline
pub mod News
use carma.Base.{
  ℕ, suc, ◌+◌, Bool, true, false, not, ◌&&◌, ◌||◌, Option, none, some, List, [], ◌∷◌, ◌++◌, ltb,
  ◌==◌, if◌then◌else◌, any, filter, map,
}
use carma.Base.Int.{ℤ, eq_ℤ}
use carma.Base.Text.{Text, text_eq, text_lt, to_lower, drop_while}
use carma.Calendar.{Date, before}
use carma.Model.{Uuid, Instant, Vehicle, Recall, RecallKey}
use carma.Digest.Store.{NotificationRow, same_key, recall_key, announced}

-- What the NHTSA says of a campaign.
pub record Campaign : Type 0 where
  pub component : Text
  pub summary : Text
  pub consequence : Text
  pub remedy : Text
  pub report_received_on : Option Date
  pub park_it : Bool
  pub park_outside : Bool

-- A row of vehicle_recalls.
pub record RecallRow : Type 0 where
  pub key : RecallKey
  pub campaign : Campaign
  pub first_seen_at : Instant
  pub dismissed_at : Option Instant

-- A row of vehicle_recall_checks.
pub record CheckRow : Type 0 where
  pub vehicle_id : Uuid
  pub checked_at : Instant
  pub model_year : ℤ
  pub make : Text
  pub model : Text

-- A row of recall_dismissals.
pub record DismissalRow : Type 0 where
  pub key : RecallKey
  pub dismissed_at : Instant

pub record RecallTables : Type 0 where
  pub vehicles : List Vehicle
  pub checks : List CheckRow
  pub recalls : List RecallRow
  pub dismissals : List DismissalRow
  pub notifications : List NotificationRow

abbrev pub campaign_of : Recall → Campaign
campaign_of r = record {
  component = r.component;
  summary = r.summary;
  consequence = r.consequence;
  remedy = r.remedy;
  report_received_on = r.report_received_on;
  park_it = r.park_it;
  park_outside = r.park_outside;
}

abbrev pub key_of : Uuid → Recall → RecallKey
key_of id r = record { vehicle_id = id; campaign_number = r.campaign_number }

-- Does the check cover the year, the make and the model?
abbrev pub covers : ℤ → Text → Text → CheckRow → Bool
covers year make model c = eq_ℤ c.model_year year && text_eq c.make make && text_eq c.model model

unfoldable pub is_covered : Uuid → ℤ → Text → Text → List CheckRow → Bool
is_covered id year make model checks =
    any (λ c. c.vehicle_id == id && covers year make model c) checks

-- DELETE ... WHERE vehicle_id=$1 AND NOT (campaign_number=ANY($2))
unfoldable pub drop_unlisted : Uuid → List Recall → List RecallRow → List RecallRow
drop_unlisted id recalls rows =
    filter
      (λ row.
        not (row.key.vehicle_id == id)
        || any (λ r. text_eq r.campaign_number row.key.campaign_number) recalls)
      rows

-- SELECT dismissed_at FROM recall_dismissals WHERE ...
unfoldable pub dismissal_of : RecallKey → List DismissalRow → Option Instant
dismissal_of key [] = none
dismissal_of key (d ∷ rows) =
    if same_key d.key key then some d.dismissed_at else dismissal_of key rows

unfoldable pub has_row : RecallKey → List RecallRow → Bool
has_row key rows = any (λ row. same_key row.key key) rows

-- INSERT ... ON CONFLICT(vehicle_id,campaign_number) DO UPDATE: what was first seen and what was
-- dismissed stay.
unfoldable pub upsert_recall :
    RecallKey → Campaign → Instant → List DismissalRow → List RecallRow → List RecallRow
unfolding has_row
upsert_recall key campaign at dismissals rows =
    if has_row key rows
    then map (λ row. if same_key row.key key then record row { campaign = campaign } else row) rows
    else rows
      ++ record {
        key = key;
        campaign = campaign;
        first_seen_at = at;
        dismissed_at = dismissal_of key dismissals;
      }
        ∷ []

-- The loop over the campaigns, and how many were inserted.
unfoldable pub upsert_all :
    Uuid → Instant → List DismissalRow → List Recall → List RecallRow → ℕ → List RecallRow × ℕ
upsert_all id at dismissals [] rows added = (rows, added)
upsert_all id at dismissals (r ∷ recalls) rows added =
    upsert_all id at dismissals recalls
      (upsert_recall (key_of id r) (campaign_of r) at dismissals rows)
      (if has_row (key_of id r) rows then added else suc added)

-- The first check's campaigns count as announced, by no digest.
unfoldable pub announce_baseline :
    Uuid → Instant → List Recall → List NotificationRow → List NotificationRow
announce_baseline id at [] rows = rows
announce_baseline id at (r ∷ recalls) rows = announce_baseline id at recalls (
    if announced (key_of id r) rows
    then rows
    else rows ++ record { key = key_of id r; notified_at = at; digest_id = none } ∷ [])

-- INSERT ... ON CONFLICT(vehicle_id) DO UPDATE
unfoldable pub put_check : CheckRow → List CheckRow → List CheckRow
put_check c checks =
    if any (λ old. old.vehicle_id == c.vehicle_id) checks
    then map (λ old. if old.vehicle_id == c.vehicle_id then c else old) checks
    else checks ++ c ∷ []

abbrev pub check_row : Vehicle → ℤ → Instant → CheckRow
check_row v year at = record {
  vehicle_id = v.id;
  checked_at = at;
  model_year = year;
  make = v.make;
  model = v.model;
}

-- The vehicle's rows after the check, and how many are new.
abbrev pub new_rows : Vehicle → List Recall → Instant → RecallTables → List RecallRow × ℕ
new_rows v recalls at t =
    upsert_all v.id at t.dismissals recalls (drop_unlisted v.id recalls t.recalls) 0

abbrev pub saved : Vehicle → ℤ → List Recall → Instant → RecallTables → RecallTables
saved v year recalls at t = record t {
  recalls = (new_rows v recalls at t).0;
  notifications =
      if is_covered v.id year v.make v.model t.checks
      then t.notifications
      else announce_baseline v.id at recalls t.notifications;
  checks = put_check (check_row v year at) t.checks;
}

abbrev pub save_year :
    Vehicle → List Recall → Instant → RecallTables → Option ℤ → Option (RecallTables × ℕ)
save_year v recalls at t none = none
save_year v recalls at t (some year) =
    if not (any (λ (w : Vehicle). w.id == v.id) t.vehicles)
    then none
    else some (saved v year recalls at t, (new_rows v recalls at t).1)

-- The new tables and the number of new campaigns; none is ErrNotFound.
unfoldable pub save_recall_check :
    Vehicle → List Recall → Instant → RecallTables → Option (RecallTables × ℕ)
save_recall_check v recalls at t = save_year v recalls at t v.year

abbrev pub put_dismissal : RecallKey → Instant → List DismissalRow → List DismissalRow
put_dismissal key at rows =
    if any (λ d. same_key d.key key) rows
    then map (λ d. if same_key d.key key then record d { dismissed_at = at } else d) rows
    else rows ++ record { key = key; dismissed_at = at } ∷ []

unfoldable pub set_dismissal : RecallKey → Option Instant → List DismissalRow → List DismissalRow
set_dismissal key none rows = filter (λ d. not (same_key d.key key)) rows
set_dismissal key (some at) rows = put_dismissal key at rows

-- None is ErrNotFound.
unfoldable pub set_recall_dismissed :
    RecallKey → Option Instant → RecallTables → Option RecallTables
set_recall_dismissed key at t =
    if not (has_row key t.recalls)
    then none
    else some (record t {
      recalls =
          map (λ row. if same_key row.key key then record row { dismissed_at = at } else row)
            t.recalls;
      dismissals = set_dismissal key at t.dismissals;
    })

-- The JOINs of a row with its vehicle and the vehicle's check.
abbrev pub find_vehicle : Uuid → List Vehicle → Option Vehicle
find_vehicle id [] = none
find_vehicle id (v ∷ vs) = if v.id == id then some v else find_vehicle id vs

abbrev pub is_none {ℓ} : {A : Type ℓ} → Option A → Bool
is_none none = true
is_none (some x) = false

abbrev pub year_covered : Vehicle → List CheckRow → Option ℤ → Bool
year_covered v checks none = false
year_covered v checks (some year) = is_covered v.id year v.make v.model checks

abbrev pub to_recall : Text → Vehicle → RecallRow → Recall
to_recall vin v row = record {
  vehicle_id = row.key.vehicle_id;
  vehicle_name = v.nickname;
  vehicle_vin = vin;
  campaign_number = row.key.campaign_number;
  component = row.campaign.component;
  summary = row.campaign.summary;
  consequence = row.campaign.consequence;
  remedy = row.campaign.remedy;
  report_received_on = row.campaign.report_received_on;
  park_it = row.campaign.park_it;
  park_outside = row.campaign.park_outside;
  first_seen_at = row.first_seen_at;
  dismissed_at = row.dismissed_at;
}

-- DESC NULLS LAST
abbrev pub reported_later : Option Date → Option Date → Bool
reported_later none b = false
reported_later (some a) none = true
reported_later (some a) (some b) = before b a

-- The order of the list, by bytes: vehicles by name, the newest report first.
unfoldable pub recall_before : Recall → Recall → Bool
recall_before a b =
    let left = to_lower a.vehicle_name in
    let right = to_lower b.vehicle_name in
    if not (text_eq left right)
    then text_lt left right
    else if not (a.vehicle_id == b.vehicle_id)
    then ltb a.vehicle_id b.vehicle_id
    else if reported_later a.report_received_on b.report_received_on
    then true
    else if reported_later b.report_received_on a.report_received_on
    then false
    else text_lt a.campaign_number b.campaign_number

unfoldable pub insert_recall : Recall → List Recall → List Recall
insert_recall r [] = r ∷ []
insert_recall r (s ∷ rs) = if recall_before r s then r ∷ s ∷ rs else s ∷ insert_recall r rs

unfoldable pub sort_recalls : List Recall → List Recall
unfolding insert_recall
sort_recalls [] = []
sort_recalls (r ∷ rs) = insert_recall r (sort_recalls rs)

-- A row whose vehicle's last check is for the year, make and model that the vehicle has.
abbrev pub listed :
    Bool → (Vehicle → RecallRow → Bool) → RecallTables → RecallRow → Option Vehicle → List Recall
listed with_vin test t row none = []
listed with_vin test t row (some v) =
    if year_covered v t.checks v.year && test v row
    then to_recall (if with_vin then v.vin else []) v row ∷ []
    else []

unfoldable pub select_recalls :
    Bool → (Vehicle → RecallRow → Bool) → RecallTables → List RecallRow → List Recall
select_recalls with_vin test t [] = []
select_recalls with_vin test t (row ∷ rows) =
    listed with_vin test t row (find_vehicle row.key.vehicle_id t.vehicles)
    ++ select_recalls with_vin test t rows

abbrev pub wanted : Option Uuid → Bool → Vehicle → RecallRow → Bool
wanted none include_dismissed v row =
    (include_dismissed || is_none row.dismissed_at) && is_none v.archived_at
wanted (some id) include_dismissed v row =
    row.key.vehicle_id == id && (include_dismissed || is_none row.dismissed_at)

unfoldable pub list_recalls : Option Uuid → Bool → RecallTables → List Recall
unfolding select_recalls sort_recalls
list_recalls vehicle_id include_dismissed t =
    sort_recalls (select_recalls false (wanted vehicle_id include_dismissed) t t.recalls)

abbrev pub unnotified : RecallTables → Vehicle → RecallRow → Bool
unnotified t v row =
    is_none row.dismissed_at && is_none v.archived_at && not (announced row.key t.notifications)

unfoldable pub list_unnotified : RecallTables → List Recall
unfolding select_recalls sort_recalls
list_unnotified t = sort_recalls (select_recalls true (unnotified t) t t.recalls)
