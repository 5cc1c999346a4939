-- ===== src/Export/History.antt =====
-- The query and the totals of the history (internal/export/history.go).
pub mod Totals
use carma.Base.{ℕ, ◌+◌, Bool, false, ◌||◌, Option, none, some, List, [], ◌∷◌, if◌then◌else◌, length}
use carma.Base.Int.{ℤ}
use carma.Base.Text.{Text, text}
use carma.Calendar.{Date, before, after}
use carma.Model.{Uuid, Record, RecordQuery}
use carma.Model.Money.{add_cents}

pub record HistorySummary : Type 0 where
  pub records : ℕ
  pub receipts : ℕ
  pub total_cents : Option ℤ
  pub first : Option Date
  pub last : Option Date

unfoldable pub query : Option Uuid → RecordQuery
query vehicle_id = record {
  vehicle_id = vehicle_id;
  search = [];
  service_type_id = none;
  since = none;
  until = none;
  sort = text "date";
  desc = false;
}

abbrev pub add_total : Option ℤ → Option ℤ → Option ℤ
add_total none total = total
add_total (some cost) none = some cost
add_total (some cost) (some total) = some (add_cents cost total)

abbrev pub earliest_day : Date → Option Date → Option Date
earliest_day day none = some day
earliest_day day (some first) = if before day first then some day else some first

abbrev pub latest_day : Date → Option Date → Option Date
latest_day day none = some day
latest_day day (some last) = if after day last then some day else some last

abbrev pub count_record : Record → HistorySummary → HistorySummary
count_record r s = record s {
  receipts = s.receipts + r.attachment_count;
  total_cents = add_total r.cost_cents s.total_cents;
  first = earliest_day r.occurred_on s.first;
  last = latest_day r.occurred_on s.last;
}

unfoldable pub summary_loop : List Record → HistorySummary → HistorySummary
summary_loop [] s = s
summary_loop (r ∷ records) s = summary_loop records (count_record r s)

unfoldable pub summarize : List Record → HistorySummary
unfolding summary_loop
summarize records = summary_loop records (record {
  records = length records;
  receipts = 0;
  total_cents = none;
  first = none;
  last = none;
})
