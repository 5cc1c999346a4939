-- ===== src/Model/Spend/Totals.antt =====
-- The totals are the sums over all priced records, capped once.
use carma.Base.{
  ℕ, ◌+◌, ◌≡◌, refl, ap, ◌∙◌, inl, inr, Option, none, some, List, [], ◌∷◌, arith, ◌==◌,
  if◌then◌else◌, Bool-cases, All,
}
use carma.Base.Int.{ℤ, pos, pos_part}
use carma.Calendar.{Date}
use carma.Model.{Record}
use carma.Model.Money.Facts.{IsAmount, capped, add_cents-parts, HasAmount}
use carma.Model.Spend.{
  ServiceTypeSpend, SpendSummary, SpendGroup, this_year, new_group, add_cost, into_group,
  add_record, group_records, comes_first, insert_group, sort_groups, with_group, sum_groups,
  empty_summary, aggregate_spend,
}

-- A sum over the groups of a quantity that is a number of cents.
sum_by : (SpendGroup → ℕ) → List SpendGroup → ℕ
sum_by f [] = 0
sum_by f (g ∷ groups) = f g + sum_by f groups

sum_by-insert_group :
    (f : SpendGroup → ℕ) (g : SpendGroup) (groups : List SpendGroup)
    → sum_by f (insert_group g groups) ≡ f g + sum_by f groups
unfolding sum_by insert_group
sum_by-insert_group f g [] = refl
sum_by-insert_group f g (h ∷ groups) = ground (arith, sum_by-insert_group f g groups)

sum_by-sort_groups :
    (f : SpendGroup → ℕ) (groups : List SpendGroup)
    → sum_by f (sort_groups groups) ≡ sum_by f groups
unfolding sum_by sort_groups
sum_by-sort_groups f [] = refl
sum_by-sort_groups f (g ∷ groups) =
    omega (arith, sum_by-insert_group f g (sort_groups groups), sum_by-sort_groups f groups)

-- The two amounts of a group are numbers of cents within an int64.
pub record IsSpend (s : ServiceTypeSpend) : Type 0 where
  pub year_amount : IsAmount s.year_to_date_cents
  pub life_amount : IsAmount s.lifetime_cents

year_of : SpendGroup → ℕ
year_of g = pos_part g.spend.year_to_date_cents

life_of : SpendGroup → ℕ
life_of g = pos_part g.spend.lifetime_cents

records_of : SpendGroup → ℕ
records_of g = g.spend.records

-- A cost as it counts towards the year and towards all time.
abbrev cents_of : Option ℤ → ℕ
cents_of none = 0
cents_of (some cost) = pos_part cost

pub priced_cents : Record → ℕ
priced_cents r = cents_of r.cost_cents

pub year_cents : Date → Record → ℕ
year_cents today r = if this_year today r.occurred_on then cents_of r.cost_cents else 0

module _ (today : Date) (r : Record) (cost : ℤ) (amount : IsAmount cost) where
  add_cost-IsSpend : (g : SpendGroup) → IsSpend g.spend → IsSpend (add_cost today r cost g).spend
  unfolding add_cost
  add_cost-IsSpend g s = record {
    year_amount = ground (arith, add_cents-parts g.spend.year_to_date_cents cost);
    life_amount = (add_cents-parts g.spend.lifetime_cents cost s.life_amount amount).0;
  }

  add_cost_year :
      (g : SpendGroup)
      → IsSpend g.spend
      → year_of (add_cost today r cost g)
        ≡ capped (year_of g + (if this_year today r.occurred_on then pos_part cost else 0))
  unfolding add_cost year_of
  add_cost_year g s = ground (arith, add_cents-parts g.spend.year_to_date_cents cost)

  add_cost_life :
      (g : SpendGroup)
      → IsSpend g.spend
      → life_of (add_cost today r cost g) ≡ capped (life_of g + pos_part cost)
  unfolding add_cost life_of
  add_cost_life g s = ground (arith, add_cents-parts g.spend.lifetime_cents cost)

  new_group-IsSpend : IsSpend (new_group r).spend
  new_group-IsSpend = omega arith

  into_group-IsSpend :
      (groups : List SpendGroup)
      → All (λ g. IsSpend g.spend) groups
      → All (λ g. IsSpend g.spend) (into_group today r cost groups)
  unfolding into_group
  into_group-IsSpend [] h = (add_cost-IsSpend (new_group r) new_group-IsSpend, tt)
  into_group-IsSpend (g ∷ groups) h = elim (Bool-cases (g.service_type_id == r.service_type_id)) [
    | inl same ↦ rw same (add_cost-IsSpend g h.0, h.1)
    | inr other ↦ rw other (h.0, into_group-IsSpend groups h.1)
  ]

  -- A cost put into its group adds to a capped sum over the groups, whatever its group held.
  into_group-sum :
      (f : SpendGroup → ℕ) (n : ℕ)
      → f (new_group r) ≡ 0
      → ((g : SpendGroup) → IsSpend g.spend → f (add_cost today r cost g) ≡ capped (f g + n))
      → (groups : List SpendGroup) → All (λ g. IsSpend g.spend) groups
      → capped (sum_by f (into_group today r cost groups)) ≡ capped (sum_by f groups + n)
  unfolding sum_by into_group
  into_group-sum f n zero_new step [] h =
      omega (arith, zero_new, step (new_group r) new_group-IsSpend)
  into_group-sum f n zero_new step (g ∷ groups) h =
      elim (Bool-cases (g.service_type_id == r.service_type_id)) [
        | inl same ↦ rw same (omega (arith, step g h.0))
        | inr other ↦ rw other (omega (arith, into_group-sum f n zero_new step groups h.1))
      ]

  into_group-records :
      (groups : List SpendGroup)
      → sum_by records_of (into_group today r cost groups) ≡ sum_by records_of groups + 1
  unfolding sum_by into_group records_of
  into_group-records [] = refl
  into_group-records (g ∷ groups) = ground (arith, into_group-records groups)

pub sum_of : (Record → ℕ) → List Record → ℕ
sum_of f [] = 0
sum_of f (r ∷ records) = f r + sum_of f records

abbrev priced_of : Option ℤ → ℕ
priced_of none = 0
priced_of (some cost) = 1

-- 1 for a record that has a cost.
pub priced : Record → ℕ
priced r = priced_of r.cost_cents

module _ (today : Date) where
  abbrev Valid : List SpendGroup → Type 0
  Valid groups = All (λ g. IsSpend g.spend) groups

  add_record-Valid :
      (r : Record) (cost : Option ℤ) (groups : List SpendGroup)
      → HasAmount cost
      → Valid groups
      → Valid (add_record today r cost groups)
  add_record-Valid r none groups a h = h
  add_record-Valid r (some cost) groups a h = into_group-IsSpend today r cost a groups h

  add_record-life :
      (r : Record) (cost : Option ℤ) (groups : List SpendGroup)
      → HasAmount cost
      → Valid groups
      → capped (sum_by life_of (add_record today r cost groups))
        ≡ capped (sum_by life_of groups + cents_of cost)
  add_record-life r none groups a h = omega arith
  add_record-life r (some cost) groups a h =
      into_group-sum today r cost a life_of (pos_part cost) (unfold life_of in refl)
        (add_cost_life today r cost a) groups h

  add_record-year :
      (r : Record) (cost : Option ℤ) (groups : List SpendGroup)
      → HasAmount cost
      → Valid groups
      → capped (sum_by year_of (add_record today r cost groups))
        ≡ capped
            (sum_by year_of groups + (if this_year today r.occurred_on then cents_of cost else 0))
  add_record-year r none groups a h = ground arith
  add_record-year r (some cost) groups a h =
      into_group-sum today r cost a year_of _ (unfold year_of in refl)
        (add_cost_year today r cost a) groups h

  add_record-number :
      (r : Record) (cost : Option ℤ) (groups : List SpendGroup)
      → HasAmount cost
      → sum_by records_of (add_record today r cost groups)
        ≡ sum_by records_of groups + priced_of cost
  add_record-number r none groups a = omega arith
  add_record-number r (some cost) groups a = into_group-records today r cost a groups

  group_records-sums :
      (records : List Record) (groups : List SpendGroup)
      → All (λ r. HasAmount r.cost_cents) records
      → Valid groups
      → Valid (group_records today records groups)
        × (capped (sum_by life_of (group_records today records groups))
            ≡ capped (sum_by life_of groups + sum_of priced_cents records))
        × (capped (sum_by year_of (group_records today records groups))
            ≡ capped (sum_by year_of groups + sum_of (year_cents today) records))
        × (sum_by records_of (group_records today records groups)
            ≡ sum_by records_of groups + sum_of priced records)
  unfolding group_records sum_of priced_cents year_cents priced
  group_records-sums [] groups a h = (h, omega arith, omega arith, omega arith)
  group_records-sums (r ∷ records) groups a h =
      let after = add_record today r r.cost_cents groups in
      let (valid, life, year, number) =
        group_records-sums records after a.1 (add_record-Valid r r.cost_cents groups a.0 h) in
      (
        valid,
        omega (arith, life, add_record-life r r.cost_cents groups a.0 h),
        omega (arith, year, add_record-year r r.cost_cents groups a.0 h),
        omega (arith, number, add_record-number r r.cost_cents groups a.0),
      )

insert_group-IsSpend :
    (g : SpendGroup) (groups : List SpendGroup)
    → IsSpend g.spend
    → All (λ h. IsSpend h.spend) groups
    → All (λ h. IsSpend h.spend) (insert_group g groups)
unfolding insert_group
insert_group-IsSpend g [] s h = (s, tt)
insert_group-IsSpend g (k ∷ groups) s h = elim (Bool-cases (comes_first k g)) [
  | inl first ↦ rw first (h.0, insert_group-IsSpend g groups s h.1)
  | inr behind ↦ rw behind (s, h)
]

sort_groups-IsSpend :
    (groups : List SpendGroup)
    → All (λ h. IsSpend h.spend) groups
    → All (λ h. IsSpend h.spend) (sort_groups groups)
unfolding sort_groups
sort_groups-IsSpend [] h = tt
sort_groups-IsSpend (g ∷ groups) h =
    insert_group-IsSpend g (sort_groups groups) h.0 (sort_groups-IsSpend groups h.1)

sum_groups_lem :
    (groups : List SpendGroup) (s : SpendSummary)
    → All (λ h. IsSpend h.spend) groups
    → IsAmount s.year_to_date_cents
    → IsAmount s.lifetime_cents
    → let t = sum_groups groups s in
      (t.lifetime_cents ≡ pos (capped (pos_part s.lifetime_cents + sum_by life_of groups)))
      × (t.year_to_date_cents
          ≡ pos (capped (pos_part s.year_to_date_cents + sum_by year_of groups)))
      × (t.priced_records ≡ s.priced_records + sum_by records_of groups)
unfolding sum_groups sum_by life_of year_of records_of
sum_groups_lem [] s h y l = ground arith
sum_groups_lem (g ∷ groups) s h y l =
    let year = add_cents-parts s.year_to_date_cents g.spend.year_to_date_cents y h.0.year_amount in
    let life = add_cents-parts s.lifetime_cents g.spend.lifetime_cents l h.0.life_amount in
    let (a, b, c) = sum_groups_lem groups (with_group s g) h.1 year.0 life.0 in
    (a ∙ ap pos (omega (arith, life.1)), b ∙ ap pos (omega (arith, year.1)), omega (arith, c))

-- Over records whose costs are nonnegative int64 values, the totals are the sums of all their costs,
-- and of those dated from January 1 through today, each capped at the largest int64 just once, and
-- the count is that of the records with a cost.
pub aggregate_spend-totals :
    (records : List Record) (today : Date)
    → All (λ r. HasAmount r.cost_cents) records
    → let s = aggregate_spend records today in
      (s.lifetime_cents ≡ pos (capped (sum_of priced_cents records)))
      × (s.year_to_date_cents ≡ pos (capped (sum_of (year_cents today) records)))
      × (s.priced_records ≡ sum_of priced records)
unfolding aggregate_spend
aggregate_spend-totals records today a =
    let groups = group_records today records [] in
    let (valid, life, year, number) = group_records-sums today records [] a tt in
    let (l, y, n) =
      sum_groups_lem (sort_groups groups) empty_summary (sort_groups-IsSpend groups valid)
        (omega arith) (omega arith) in
    (
      l ∙ ap pos (omega (arith, sum_by-sort_groups life_of groups, life, nothing life_of)),
      y ∙ ap pos (omega (arith, sum_by-sort_groups year_of groups, year, nothing year_of)),
      omega (arith, n, sum_by-sort_groups records_of groups, number, nothing records_of),
    )
  where
    nothing : (f : SpendGroup → ℕ) → sum_by f [] ≡ 0
    nothing f = unfold sum_by in refl
