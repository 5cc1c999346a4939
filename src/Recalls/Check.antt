-- ===== src/Recalls/Check.antt =====
-- The recall check (Runner of internal/recallcheck/runner.go) and which vehicles it is due for
-- (ListRecallCheckDue of internal/repository/recalls.go).
pub mod Due
use carma.Base.{
  ℕ, suc, ◌+◌, ◌-◌, Bool, true, false, not, ◌&&◌, ◌||◌, Option, none, some, List, [], ◌∷◌, ◌++◌,
  ltb, ◌==◌, if◌then◌else◌, any, filter, map,
}
use carma.Base.Int.{ℤ, eq_ℤ}
use carma.Base.Result.{Result, ok, err}
use carma.Base.Text.{Text, text_eq, drop_while}
use carma.Model.{Uuid, Instant, Vehicle, Recall}
use carma.Nhtsa.Campaigns.{NhtsaRecall, NhtsaError, Response, DayParser, recalls_of}
use carma.Recalls.Store.{CheckRow, RecallTables, covers, is_none, save_recall_check}

-- A week in nanoseconds.
abbrev pub check_age : ℕ
check_age = 604800000000000

-- btrim(s)<>''
abbrev pub blank_text : Text → Bool
blank_text s = text_eq (drop_while (λ c. c == b' ') s) []

abbrev pub find_check : Uuid → List CheckRow → Option CheckRow
find_check id [] = none
find_check id (c ∷ checks) = if c.vehicle_id == id then some c else find_check id checks

abbrev pub needs_check : Instant → Vehicle → ℤ → Option CheckRow → Bool
needs_check stale_before v year none = true
needs_check stale_before v year (some c) =
    ltb c.checked_at stale_before || not (covers year v.make v.model c)

abbrev pub year_due : Instant → Vehicle → Option CheckRow → Option ℤ → Bool
year_due stale_before v c none = false
year_due stale_before v c (some year) = needs_check stale_before v year c

unfoldable pub is_check_due : Instant → List CheckRow → Vehicle → Bool
is_check_due stale_before checks v =
    is_none v.archived_at
    && not (blank_text v.make)
    && not (blank_text v.model)
    && year_due stale_before v (find_check v.id checks) v.year

-- c.checked_at NULLS FIRST, v.id
abbrev pub checked_before : Option CheckRow → Option CheckRow → Bool → Bool
checked_before none none by_id = by_id
checked_before none (some d) by_id = true
checked_before (some c) none by_id = false
checked_before (some c) (some d) by_id =
    if c.checked_at == d.checked_at then by_id else ltb c.checked_at d.checked_at

unfoldable pub insert_due : List CheckRow → Vehicle → List Vehicle → List Vehicle
insert_due checks v [] = v ∷ []
insert_due checks v (w ∷ ws) =
    if checked_before (find_check v.id checks) (find_check w.id checks) (ltb v.id w.id)
    then v ∷ w ∷ ws
    else w ∷ insert_due checks v ws

unfoldable pub sort_due : List CheckRow → List Vehicle → List Vehicle
unfolding insert_due
sort_due checks [] = []
sort_due checks (v ∷ vs) = insert_due checks v (sort_due checks vs)

unfoldable pub list_recall_check_due : Instant → RecallTables → List Vehicle
unfolding is_check_due sort_due
list_recall_check_due stale_before t =
    sort_due t.checks (filter (is_check_due stale_before t.checks) t.vehicles)

pub data CheckFailure : Type 0 where
  lock_error unlock_error due_error canceled fetch_error save_error : CheckFailure

-- What the check of one vehicle gets from outside.
pub record VehicleAnswers : Type 0 where
  pub canceled : Bool
  pub response : Option Response
  pub now : Instant
  pub save_fails : Bool

-- The lock is none where asking for it fails.
pub record CheckAnswers : Type 0 where
  pub lock : Option Bool
  pub unlock_fails : Bool
  pub due_fails : Bool
  pub now : Instant
  pub vehicle : ℕ → VehicleAnswers

pub record CheckReport : Type 0 where
  pub lock_contended : Bool
  pub checked : ℕ
  pub failed : ℕ
  pub new : ℕ

-- The loop's variables.
pub record Checks : Type 0 where
  pub tables : RecallTables
  pub report : CheckReport
  pub failures : List CheckFailure

abbrev pub to_recalls : Uuid → List NhtsaRecall → List Recall
to_recalls id found =
    map
      (λ r. record {
        vehicle_id = id;
        vehicle_name = [];
        vehicle_vin = [];
        campaign_number = r.campaign_number;
        component = r.component;
        summary = r.summary;
        consequence = r.consequence;
        remedy = r.remedy;
        report_received_on = r.report_received;
        park_it = r.park_it;
        park_outside = r.park_outside;
        first_seen_at = 0;
        dismissed_at = none;
      })
      found

module _ (parse : DayParser) where
  abbrev pub or_save_error : Option (RecallTables × ℕ) → Result CheckFailure (RecallTables × ℕ)
  or_save_error none = err save_error
  or_save_error (some saved) = ok saved

  abbrev pub save_found :
      VehicleAnswers
      → Vehicle
      → RecallTables
      → Result NhtsaError (List NhtsaRecall)
      → Result CheckFailure (RecallTables × ℕ)
  save_found a v t (err e) = err fetch_error
  save_found a v t (ok found) =
      if a.save_fails
      then err save_error
      else or_save_error (save_recall_check v (to_recalls v.id found) a.now t)

  -- The tables and the number of new campaigns.
  unfoldable pub check :
      VehicleAnswers → Vehicle → RecallTables → Result CheckFailure (RecallTables × ℕ)
  check a v t = save_found a v t (recalls_of parse a.response)

  abbrev pub count_check : Checks → Result CheckFailure (RecallTables × ℕ) → Checks
  count_check s (err e) = record s {
    report = record (s.report) { failed = suc (s.report.failed) };
    failures = s.failures ++ e ∷ [];
  }
  count_check s (ok (tables, added)) = record s {
    tables = tables;
    report = record (s.report) { checked = suc (s.report.checked); new = s.report.new + added };
  }

  module _ (a : CheckAnswers) where
    -- A canceled context ends the loop.
    unfoldable pub check_loop : ℕ → List Vehicle → Checks → Checks
    check_loop i [] s = s
    check_loop i (v ∷ vs) s =
        let rest = check_loop (suc i) vs (count_check s (check (a.vehicle i) v s.tables)) in
        if (a.vehicle i).canceled then record s { failures = s.failures ++ canceled ∷ [] } else rest

    abbrev pub start_check : RecallTables → Checks
    start_check t = record {
      tables = t;
      report = record { lock_contended = false; checked = 0; failed = 0; new = 0 };
      failures = [];
    }

    abbrev pub check_due : RecallTables → Checks
    check_due t =
        if a.due_fails
        then record (start_check t) { failures = due_error ∷ [] }
        else check_loop 0 (list_recall_check_due (a.now - check_age) t) (start_check t)

    abbrev pub unlock_check : Checks → Checks
    unlock_check s =
        if a.unlock_fails then record s { failures = s.failures ++ unlock_error ∷ [] } else s

    abbrev pub locked_check : RecallTables → Option Bool → Checks
    locked_check t none = record (start_check t) { failures = lock_error ∷ [] }
    locked_check t (some false) = record (start_check t) {
      report = record { lock_contended = true; checked = 0; failed = 0; new = 0 };
    }
    locked_check t (some true) = unlock_check (check_due t)

    unfoldable pub run_check : RecallTables → Checks
    run_check t = locked_check t a.lock
