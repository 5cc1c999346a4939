-- ===== src/Export/History/Totals.antt =====
-- What the totals say of the records.
use carma.Base.{
  ℕ, ◌+◌, ◌≡◌, refl, ap, ap₂, ◌∙◌, inl, inr, Bool, true, false, ◌||◌, Option, none, some, List, [],
  ◌∷◌, ◌⊎◌, length, any, All, Any, Bool-cases, arith,
}
use carma.Base.Int.{ℤ, pos, pos_part}
use carma.Calendar.{Date, before, after}
use carma.Model.{Record}
use carma.Model.Money.{add_cents}
use carma.Model.Money.Facts.{IsAmount, HasAmount, capped, add_cents-parts}
use carma.Export.History.{
  HistorySummary, add_total, earliest_day, latest_day, count_record, summary_loop, summarize,
}

abbrev pub cents_of : Option ℤ → ℕ
cents_of none = 0
cents_of (some cost) = pos_part cost

abbrev pub all_cents : List Record → ℕ
all_cents [] = 0
all_cents (r ∷ records) = cents_of r.cost_cents + all_cents records

abbrev pub all_receipts : List Record → ℕ
all_receipts [] = 0
all_receipts (r ∷ records) = r.attachment_count + all_receipts records

abbrev pub has_cost : Option ℤ → Bool
has_cost none = false
has_cost (some cost) = true

abbrev pub is_priced : Record → Bool
is_priced r = has_cost r.cost_cents

-- A total of the amounts, and none where there is no amount.
abbrev pub total_of : Bool → ℕ → Option ℤ
total_of false n = none
total_of true n = some (pos (capped n))

add_total_lem :
    (cost : Option ℤ) (p : Bool) (n : ℕ)
    → HasAmount cost
    → (p ≡ false → n ≡ 0)
    → add_total cost (total_of p n) ≡ total_of (has_cost cost || p) (cents_of cost + n)
add_total_lem none p n h start = ap (total_of p) (omega arith)
add_total_lem (some cost) false n h start = ap some (ground (arith, h.low, h.high, start refl))
add_total_lem (some cost) true n h start = ap some (
    capped_sum (
      add_cents-parts cost (pos (capped n)) h (record { low = ground arith; high = ground arith })))
  where
    capped_sum :
        IsAmount (add_cents cost (pos (capped n)))
          × (pos_part (add_cents cost (pos (capped n))) ≡ capped (pos_part cost + capped n))
        → add_cents cost (pos (capped n)) ≡ pos (capped (pos_part cost + n))
    capped_sum (amount, value) = ground (arith, amount.low, value)

unpriced :
    (cost : Option ℤ) (p : Bool) (n : ℕ)
    → (p ≡ false → n ≡ 0)
    → (has_cost cost || p) ≡ false
    → cents_of cost + n ≡ 0
unpriced none p n start h = omega (arith, start h)
unpriced (some cost) p n start h = cc

summary_loop-total :
    (records : List Record) (s : HistorySummary) (p : Bool) (n : ℕ)
    → All (λ r. HasAmount r.cost_cents) records
    → (p ≡ false → n ≡ 0)
    → s.total_cents ≡ total_of p n
    → (summary_loop records s).total_cents
      ≡ total_of (p || any is_priced records) (n + all_cents records)
unfolding summary_loop
summary_loop-total [] s p n amounts start h = h ∙ ap₂ total_of (ground arith) (omega arith)
summary_loop-total (r ∷ records) s p n amounts start h =
    summary_loop-total records (count_record r s) (has_cost r.cost_cents || p)
      (cents_of r.cost_cents + n) amounts.1 (unpriced r.cost_cents p n start)
      (ap (add_total r.cost_cents) h ∙ add_total_lem r.cost_cents p n amounts.0 start)
    ∙ ap₂ total_of (ground arith) (omega arith)

summary_loop-receipts :
    (records : List Record) (s : HistorySummary)
    → ((summary_loop records s).records ≡ s.records)
      × ((summary_loop records s).receipts ≡ s.receipts + all_receipts records)
unfolding summary_loop
summary_loop-receipts [] s = (refl, omega arith)
summary_loop-receipts (r ∷ records) s = (
  (summary_loop-receipts records (count_record r s)).0,
  omega (arith, (summary_loop-receipts records (count_record r s)).1),
)

abbrev NotAfter : Option Date → Date → Type 0
NotAfter none day = ⊥
NotAfter (some first) day = before day first ≡ false

abbrev NotBefore : Option Date → Date → Type 0
NotBefore none day = ⊥
NotBefore (some last) day = before last day ≡ false

-- The day stands between the first and the last.
abbrev pub Within : HistorySummary → Date → Type 0
Within s day = NotAfter s.first day × NotBefore s.last day

earliest_day-NotAfter :
    (day d : Date) (first : Option Date) → NotAfter first d → NotAfter (earliest_day day first) d
unfolding before
earliest_day-NotAfter day d none h = absurd h
earliest_day-NotAfter day d (some f) h = ground arith

latest_day-NotBefore :
    (day d : Date) (last : Option Date) → NotBefore last d → NotBefore (latest_day day last) d
unfolding before
latest_day-NotBefore day d none h = absurd h
latest_day-NotBefore day d (some l) h = ground arith

earliest_day_own : (day : Date) (first : Option Date) → NotAfter (earliest_day day first) day
unfolding before
earliest_day_own day none = ground arith
earliest_day_own day (some f) = ground arith

latest_day_own : (day : Date) (last : Option Date) → NotBefore (latest_day day last) day
unfolding before
latest_day_own day none = ground arith
latest_day_own day (some l) = ground arith

summary_loop_keeps :
    (records : List Record) (s : HistorySummary) (d : Date)
    → Within s d
    → Within (summary_loop records s) d
unfolding summary_loop
summary_loop_keeps [] s d h = h
summary_loop_keeps (r ∷ records) s d h = summary_loop_keeps records (count_record r s) d (
  earliest_day-NotAfter r.occurred_on d s.first h.0,
  latest_day-NotBefore r.occurred_on d s.last h.1,
)

summary_loop-Within :
    (records : List Record) (s : HistorySummary)
    → All (λ r. Within (summary_loop records s) r.occurred_on) records
unfolding summary_loop
summary_loop-Within [] s = tt
summary_loop-Within (r ∷ records) s = (
  summary_loop_keeps records (count_record r s) r.occurred_on
      (earliest_day_own r.occurred_on s.first, latest_day_own r.occurred_on s.last),
  summary_loop-Within records (count_record r s),
)

-- Some record is of that day.
abbrev pub HasDay : Date → List Record → Type 0
HasDay d records = Any (λ r. r.occurred_on ≡ d) records

earliest_day_either :
    (day d : Date) (first : Option Date)
    → earliest_day day first ≡ some d
    → (first ≡ some d) ⊎ (day ≡ d)
earliest_day_either day d none h = inr cc
earliest_day_either day d (some f) h = elim (Bool-cases (before day f)) [
  | inl less ↦ inr (cc (rw less at h))
  | inr more ↦ inl (rw more at h)
]

latest_day_either :
    (day d : Date) (last : Option Date) → latest_day day last ≡ some d → (last ≡ some d) ⊎ (day ≡ d)
latest_day_either day d none h = inr cc
latest_day_either day d (some l) h = elim (Bool-cases (after day l)) [
  | inl more ↦ inr (cc (rw more at h))
  | inr less ↦ inl (rw less at h)
]

summary_loop-first :
    (records : List Record) (s : HistorySummary) (d : Date)
    → (summary_loop records s).first ≡ some d
    → (s.first ≡ some d) ⊎ HasDay d records
unfolding summary_loop
summary_loop-first [] s d h = inl h
summary_loop-first (r ∷ records) s d h = elim (summary_loop-first records (count_record r s) d h) [
  | inl here ↦ elim (earliest_day_either r.occurred_on d s.first here) [
    | inl old ↦ inl old
    | inr own ↦ inr (inl own)
  ]
  | inr later_on ↦ inr (inr later_on)
]

summary_loop-last :
    (records : List Record) (s : HistorySummary) (d : Date)
    → (summary_loop records s).last ≡ some d
    → (s.last ≡ some d) ⊎ HasDay d records
unfolding summary_loop
summary_loop-last [] s d h = inl h
summary_loop-last (r ∷ records) s d h = elim (summary_loop-last records (count_record r s) d h) [
  | inl here ↦ elim (latest_day_either r.occurred_on d s.last here) [
    | inl old ↦ inl old
    | inr own ↦ inr (inl own)
  ]
  | inr later_on ↦ inr (inr later_on)
]

-- The summary of the records' history: their number and that of their receipts, the sum of their costs
-- (capped once, and none where no record has one), and days between which all of them lie.
pub record Sums (records : List Record) (s : HistorySummary) : Type 0 where
  pub counted : s.records ≡ length records
  pub receipts : s.receipts ≡ all_receipts records
  pub total : s.total_cents ≡ total_of (any is_priced records) (all_cents records)
  pub span : All (λ r. Within s r.occurred_on) records
  pub first_day : (d : Date) → s.first ≡ some d → HasDay d records
  pub last_day : (d : Date) → s.last ≡ some d → HasDay d records

-- Over records whose costs are nonnegative int64 values, the summary has the number of the records and of
-- their receipts, the sum of their costs capped once at the largest int64 (none where no record has a
-- cost), and as its first and last day days of records between which all of them lie.
pub summarize-Sums :
    (records : List Record)
    → All (λ r. HasAmount r.cost_cents) records
    → Sums records (summarize records)
unfolding summarize
summarize-Sums records amounts = record {
  counted = (summary_loop-receipts records _).0;
  receipts = (summary_loop-receipts records _).1 ∙ omega arith;
  total =
      summary_loop-total records _ false 0 amounts (λ e. refl) refl
      ∙ ap (total_of (any is_priced records)) (omega arith);
  span = summary_loop-Within records _;
  first_day = λ d h. started (summary_loop-first records _ d h);
  last_day = λ d h. started (summary_loop-last records _ d h);
}
  where
    started : {d : Date} → (none ≡ some d) ⊎ HasDay d records → HasDay d records
    started (inl never) = cc
    started (inr day) = day
