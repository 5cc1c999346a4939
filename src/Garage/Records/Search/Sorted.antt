-- ===== src/Garage/Records/Search/Sorted.antt =====
-- The order of the list of records, and what stands in it.
use carma.Base.{
  suc, ◌≡◌, refl, ap, ap₂, All, ◌∙◌, inl, inr, Bool, true, false, ◌&&◌, Option, none, some, List,
  [], ◌∷◌, if◌then◌else◌, filter, count, Bool-cases, arith,
}
use carma.Garage.Records.Search.Wanted.{Wanted, is_asked_for_iff}
use carma.Garage.Records.Search.Order.{MayPrecede, not_before-MayPrecede}
use carma.Base.Int.{ℤ, pos, negsuc, ltb_ℤ}
use carma.Calendar.{Date, before}
use carma.Model.{Record, RecordQuery}
use carma.Garage.{Garage}
use carma.Garage.Records.{is_later}
use carma.Garage.Records.Search.{
  is_asked_for, SortField, by_date, by_mileage, by_cost, by_default, sort_field, value_before,
  null_last, date_before, field_before, comes_before, insert_record, sort_records, select_records,
  list_records,
}

is_later_asym : (a b : Record) → is_later a b ≡ true → is_later b a ≡ false
unfolding is_later before
is_later_asym a b h = ground arith

date_before_asym :
    (desc : Bool) (a b : Date) (r s : Bool)
    → (r ≡ true → s ≡ false)
    → date_before desc a b r ≡ true
    → date_before desc b a s ≡ false
unfolding before
date_before_asym desc a b r s rest h = ground arith

ltb_ℤ_asym : (a b : ℤ) → ltb_ℤ a b ≡ true → ltb_ℤ b a ≡ false
ltb_ℤ_asym (pos a) (pos b) h = ground arith
ltb_ℤ_asym (pos a) (negsuc b) h = ground arith
ltb_ℤ_asym (negsuc a) (pos b) h = ground arith
ltb_ℤ_asym (negsuc a) (negsuc b) h = ground arith

value_before_asym :
    (desc : Bool) (a b : ℤ) (r s : Bool)
    → (r ≡ true → s ≡ false)
    → value_before desc a b r ≡ true
    → value_before desc b a s ≡ false
value_before_asym desc a b r s rest h = elim (Bool-cases (ltb_ℤ a b)) [
  | inl less ↦ ground (arith, ltb_ℤ_asym a b less)
  | inr more ↦ ground arith
]

null_last_asym :
    (desc : Bool) (a b : Option ℤ) (r s : Bool)
    → (r ≡ true → s ≡ false)
    → null_last desc a b r ≡ true
    → null_last desc b a s ≡ false
null_last_asym desc none none r s rest h = rest h
null_last_asym desc none (some b) r s rest h = cc
null_last_asym desc (some a) none r s rest h = refl
null_last_asym desc (some a) (some b) r s rest h = value_before_asym desc a b r s rest h

field_before_asym :
    (f : SortField) (desc : Bool) (a b : Record)
    → field_before f desc a b ≡ true
    → field_before f desc b a ≡ false
field_before_asym by_date desc a b h = date_before_asym desc _ _ _ _ (is_later_asym a b) h
field_before_asym by_mileage desc a b h =
    null_last_asym desc a.odometer_miles b.odometer_miles (is_later a b) (is_later b a)
      (is_later_asym a b) h
field_before_asym by_cost desc a b h =
    null_last_asym desc a.cost_cents b.cost_cents (is_later a b) (is_later b a) (is_later_asym a b)
      h
field_before_asym by_default desc a b h = is_later_asym a b h

comes_before_asym :
    (q : RecordQuery) (a b : Record) → comes_before q a b ≡ true → comes_before q b a ≡ false
unfolding comes_before
comes_before_asym q a b h = field_before_asym (sort_field q.sort) q.desc a b h

-- No record comes after the next one.
abbrev pub InOrder : (Record → Record → Bool) → List Record → Type 0
InOrder lt [] = Unit
InOrder lt (a ∷ []) = Unit
InOrder lt (a ∷ b ∷ records) = (lt b a ≡ false) × InOrder lt (b ∷ records)

-- The tail of an insertion starts with the record or with the old tail.
insert_tail-InOrder :
    (lt : Record → Record → Bool)
    → ((a b : Record) → lt a b ≡ true → lt b a ≡ false)
    → (r s : Record) (records : List Record) → lt r s ≡ false
    → InOrder lt (s ∷ records)
    → InOrder lt (s ∷ insert_record lt r records)
unfolding insert_record
insert_tail-InOrder lt asym r s [] after h = (after, tt)
insert_tail-InOrder lt asym r s (b ∷ records) after h = elim (Bool-cases (lt r b)) [
  | inl first ↦ simp first (after, (asym r b first, h.1))
  | inr second ↦ simp second (h.0, insert_tail-InOrder lt asym r b records second h.1)
]

insert-InOrder :
    (lt : Record → Record → Bool)
    → ((a b : Record) → lt a b ≡ true → lt b a ≡ false)
    → (r : Record) (records : List Record) → InOrder lt records
    → InOrder lt (insert_record lt r records)
unfolding insert_record
insert-InOrder lt asym r [] h = tt
insert-InOrder lt asym r (s ∷ records) h = elim (Bool-cases (lt r s)) [
  | inl first ↦ simp first (asym r s first, h)
  | inr second ↦ simp second (insert_tail-InOrder lt asym r s records second h)
]

sort-InOrder :
    (lt : Record → Record → Bool)
    → ((a b : Record) → lt a b ≡ true → lt b a ≡ false)
    → (records : List Record) → InOrder lt (sort_records lt records)
unfolding sort_records
sort-InOrder lt asym [] = tt
sort-InOrder lt asym (r ∷ records) =
    insert-InOrder lt asym r (sort_records lt records) (sort-InOrder lt asym records)

count-insert :
    (p : Record → Bool) (lt : Record → Record → Bool) (r : Record) (records : List Record)
    → count p (insert_record lt r records) ≡ count p (r ∷ records)
unfolding insert_record
count-insert p lt r [] = refl
count-insert p lt r (s ∷ records) = ground (arith, count-insert p lt r records)

count-sort :
    (p : Record → Bool) (lt : Record → Record → Bool) (records : List Record)
    → count p (sort_records lt records) ≡ count p records
unfolding sort_records
count-sort p lt [] = refl
count-sort p lt (r ∷ records) =
    count-insert p lt r (sort_records lt records)
    ∙ ap (λ n. if p r then suc n else n) (count-sort p lt records)

count-filter :
    (p f : Record → Bool) (records : List Record)
    → count p (filter f records) ≡ count (λ r. f r && p r) records
count-filter p f [] = refl
count-filter p f (r ∷ records) = ground (arith, count-filter p f records)

-- Each record may precede the next one.
abbrev pub Sorted : RecordQuery → List Record → Type 0
Sorted q [] = Unit
Sorted q (a ∷ []) = Unit
Sorted q (a ∷ b ∷ records) = MayPrecede q a b × Sorted q (b ∷ records)

InOrder-Sorted :
    (q : RecordQuery) (records : List Record) → InOrder (comes_before q) records → Sorted q records
InOrder-Sorted q [] h = tt
InOrder-Sorted q (a ∷ []) h = tt
InOrder-Sorted q (a ∷ b ∷ records) h =
    (not_before-MayPrecede q a b h.0, InOrder-Sorted q (b ∷ records) h.1)

insert-All :
    (P : Record → Type 0) (lt : Record → Record → Bool) (r : Record) (records : List Record)
    → P r
    → All P records
    → All P (insert_record lt r records)
unfolding insert_record
insert-All P lt r [] h k = (h, tt)
insert-All P lt r (s ∷ records) h k = elim (Bool-cases (lt r s)) [
  | inl first ↦ simp first (h, k)
  | inr second ↦ simp second (k.0, insert-All P lt r records h k.1)
]

sort-All :
    (P : Record → Type 0) (lt : Record → Record → Bool) (records : List Record)
    → All P records
    → All P (sort_records lt records)
unfolding sort_records
sort-All P lt [] h = tt
sort-All P lt (r ∷ records) h =
    insert-All P lt r (sort_records lt records) h.0 (sort-All P lt records h.1)

filter-Wanted :
    (q : RecordQuery) (records : List Record) → All (Wanted q) (filter (is_asked_for q) records)
filter-Wanted q [] = tt
filter-Wanted q (r ∷ records) = elim (Bool-cases (is_asked_for q r)) [
  | inl asked ↦ simp asked ((is_asked_for_iff q r).0 asked, filter-Wanted q records)
  | inr passed ↦ simp passed (filter-Wanted q records)
]

-- The filter leaves out no record that is wanted.
count-Wanted :
    (q : RecordQuery) (p : Record → Bool)
    → ((r : Record) → p r ≡ true → Wanted q r)
    → (records : List Record) → count (λ r. is_asked_for q r && p r) records ≡ count p records
count-Wanted q p sub [] = refl
count-Wanted q p sub (r ∷ records) =
    ap₂ (λ (b : Bool) n. if b then suc n else n) both (count-Wanted q p sub records)
  where
    both : (is_asked_for q r && p r) ≡ p r
    both = elim (Bool-cases (p r)) [
      | inl hit ↦ simp (hit, (is_asked_for_iff q r).1 (sub r hit)) refl
      | inr miss ↦ ground arith
    ]

module _ {F : Type 0} where
  -- Each record of the list is one that the query asks for, by its vehicle, its service type, its days and
  -- its search; wanted joined rows are there as often as in the table; and each record may precede the
  -- next: by the day, the mileage or the cost in the direction asked for, with the records without the
  -- value last, and among the same values, or where the query sorts by none of them, the newest first.
  pub list_records-Sorted :
      (q : RecordQuery) (t : Garage F) (p : Record → Bool)
      → ((r : Record) → p r ≡ true → Wanted q r)
      → Sorted q (list_records q t)
        × (All (Wanted q) (list_records q t)
            × (count p (list_records q t) ≡ count p (select_records t t.records)))
  unfolding list_records
  list_records-Sorted q t p sub = (
    InOrder-Sorted q _ (
        sort-InOrder (comes_before q) (comes_before_asym q)
          (filter (is_asked_for q) (select_records t t.records))),
    (
      sort-All (Wanted q) (comes_before q) _ (filter-Wanted q (select_records t t.records)),
      count-sort p (comes_before q) (filter (is_asked_for q) (select_records t t.records))
          ∙ count-filter p (is_asked_for q) (select_records t t.records)
          ∙ count-Wanted q p sub (select_records t t.records),
    ),
  )
