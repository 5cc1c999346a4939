-- ===== src/Model/Spend.antt =====
-- Spend totals (AggregateSpend of internal/model/spend.go).
pub mod Order
pub mod Totals
use carma.Base.{
  ℕ, zero, suc, ◌+◌, ◌*◌, Bool, true, false, not, ◌&&◌, Option, none, some, List, [], ◌∷◌, ◌++◌,
  ltb, leb, ◌==◌, if◌then◌else◌, map,
}
use carma.Base.Int.{ℤ, pos, ◌+ℤ◌, ltb_ℤ}
use carma.Base.Text.{Text, text_eq, text_lt, to_lower}
use carma.Calendar.{Date, date}
use carma.Model.{Uuid, Record}
use carma.Model.Money.{add_cents}

pub record ServiceTypeSpend : Type 0 where
  pub name : Text
  pub records : ℕ
  pub year_to_date_cents : ℤ
  pub lifetime_cents : ℤ

pub record SpendSummary : Type 0 where
  pub year_to_date_cents : ℤ
  pub lifetime_cents : ℤ
  pub priced_records : ℕ
  pub types : List ServiceTypeSpend

-- A spendGroup under its key in the map; `lifetime` is the uncapped big.Int.
pub record SpendGroup : Type 0 where
  pub service_type_id : Uuid
  pub spend : ServiceTypeSpend
  pub lifetime : ℤ

unfoldable pub date_ordinal : Date → ℕ
date_ordinal t = t.year * 10000 + t.month * 100 + t.day

-- From January 1 of today's year through today.
unfoldable pub this_year : Date → Date → Bool
unfolding date_ordinal
this_year today on =
    leb (date_ordinal (date today.year 1 1)) (date_ordinal on)
    && leb (date_ordinal on) (date_ordinal today)

-- The group of a service type that has not been seen.
abbrev pub new_group : Record → SpendGroup
new_group r = record {
  service_type_id = r.service_type_id;
  spend = record {
    name = r.service_type_name;
    records = 0;
    year_to_date_cents = pos 0;
    lifetime_cents = pos 0;
  };
  lifetime = pos 0;
}

-- One priced record put into its group.
unfoldable pub add_cost : Date → Record → ℤ → SpendGroup → SpendGroup
add_cost today r cost g = record g {
  lifetime = g.lifetime +ℤ cost;
  spend = record (g.spend) {
    records = g.spend.records + 1;
    lifetime_cents = add_cents g.spend.lifetime_cents cost;
    year_to_date_cents =
        if this_year today r.occurred_on
        then add_cents g.spend.year_to_date_cents cost
        else g.spend.year_to_date_cents;
  };
}

-- The map and the order in which its keys were seen, as one list.
unfoldable pub into_group : Date → Record → ℤ → List SpendGroup → List SpendGroup
unfolding add_cost
into_group today r cost [] = add_cost today r cost (new_group r) ∷ []
into_group today r cost (g ∷ groups) =
    if g.service_type_id == r.service_type_id
    then add_cost today r cost g ∷ groups
    else g ∷ into_group today r cost groups

abbrev pub add_record : Date → Record → Option ℤ → List SpendGroup → List SpendGroup
add_record today r none groups = groups
add_record today r (some cost) groups = into_group today r cost groups

unfoldable pub group_records : Date → List Record → List SpendGroup → List SpendGroup
unfolding into_group
group_records today [] groups = groups
group_records today (r ∷ records) groups =
    group_records today records (add_record today r r.cost_cents groups)

-- The order of sort.SliceStable's test: the higher lifetime sum, then the name, ignoring case first.
unfoldable pub comes_first : SpendGroup → SpendGroup → Bool
comes_first l r =
    let left_name = to_lower l.spend.name in
    let right_name = to_lower r.spend.name in
    if ltb_ℤ r.lifetime l.lifetime
    then true
    else if ltb_ℤ l.lifetime r.lifetime
    then false
    else if not (text_eq left_name right_name)
    then text_lt left_name right_name
    else text_lt l.spend.name r.spend.name

-- A stable sort: the groups are inserted from the last to the first, each before the first one that
-- need not come before it.
unfoldable pub insert_group : SpendGroup → List SpendGroup → List SpendGroup
unfolding comes_first
insert_group g [] = g ∷ []
insert_group g (h ∷ groups) = if comes_first h g then h ∷ insert_group g groups else g ∷ h ∷ groups

unfoldable pub sort_groups : List SpendGroup → List SpendGroup
unfolding insert_group
sort_groups [] = []
sort_groups (g ∷ groups) = insert_group g (sort_groups groups)

-- A round of the loop that fills in the summary.
abbrev pub with_group : SpendSummary → SpendGroup → SpendSummary
with_group summary g = record {
  types = summary.types ++ g.spend ∷ [];
  priced_records = summary.priced_records + g.spend.records;
  year_to_date_cents = add_cents summary.year_to_date_cents g.spend.year_to_date_cents;
  lifetime_cents = add_cents summary.lifetime_cents g.spend.lifetime_cents;
}

unfoldable pub sum_groups : List SpendGroup → SpendSummary → SpendSummary
sum_groups [] summary = summary
sum_groups (g ∷ groups) summary = sum_groups groups (with_group summary g)

abbrev pub empty_summary : SpendSummary
empty_summary = record {
  year_to_date_cents = pos 0;
  lifetime_cents = pos 0;
  priced_records = 0;
  types = [];
}

-- No group at all gives the empty summary, which the loop gives too.
unfoldable pub aggregate_spend : List Record → Date → SpendSummary
unfolding group_records sort_groups sum_groups
aggregate_spend records today =
    sum_groups (sort_groups (group_records today records [])) empty_summary
