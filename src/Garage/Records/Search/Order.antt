-- ===== src/Garage/Records/Search/Order.antt =====
-- The order of the list of records, stated by the fields of two neighbours (recordOrder of
-- internal/repository/postgres_records.go).
use carma.Base.{◌≡◌, ◌≢◌, ◌⊎◌, ap, Bool, true, false, Option, none, some, ◌<◌, ◌≤◌, arith}
use mathlib.Core.Path.{subst}
use carma.Base.Int.{ℤ, pos, negsuc, ◌<ℤ◌, ltb_ℤ}
use carma.Base.Text.{Text, text, text_eq, text_eq_iff}
use carma.Calendar.{Date, before}
use carma.Model.{Record, RecordQuery}
use carma.Garage.Records.{is_later}
use carma.Garage.Records.Search.{
  SortField, by_date, by_mileage, by_cost, by_default, sort_field, value_before, null_last,
  date_before, field_before, comes_before,
}
use carma.Garage.Records.Search.Wanted.{Earlier, before→Earlier}

-- The newest first: by the day, then by the time of the entry, then by the ID.
abbrev pub Newest : Record → Record → Type 0
Newest a b =
    Earlier b.occurred_on a.occurred_on
    ⊎ ((a.occurred_on ≡ b.occurred_on)
        × ((b.created_at < a.created_at) ⊎ ((a.created_at ≡ b.created_at) × (b.id ≤ a.id))))

-- Upwards or (where the flag is set) downwards, and by `Rest` where the values are the same.
abbrev pub InDirection : Bool → ℤ → ℤ → Type 0 → Type 0
InDirection false a b Rest = (a <ℤ b) ⊎ ((a ≡ b) × Rest)
InDirection true a b Rest = (b <ℤ a) ⊎ ((a ≡ b) × Rest)

-- A record without the value comes after those that have it, in either direction.
abbrev pub NoneLast : Bool → Option ℤ → Option ℤ → Type 0 → Type 0
NoneLast desc none none Rest = Rest
NoneLast desc none (some b) Rest = ⊥
NoneLast desc (some a) none Rest = Unit
NoneLast desc (some a) (some b) Rest = InDirection desc a b Rest

abbrev pub ByDay : Bool → Date → Date → Type 0 → Type 0
ByDay false a b Rest = Earlier a b ⊎ ((a ≡ b) × Rest)
ByDay true a b Rest = Earlier b a ⊎ ((a ≡ b) × Rest)

-- `a` may stand right before `b` in the answer to the query.
pub record MayPrecede (q : RecordQuery) (a b : Record) : Type 0 where
  pub by_day : q.sort ≡ text "date" → ByDay q.desc a.occurred_on b.occurred_on (Newest a b)
  pub by_miles :
      q.sort ≡ text "mileage" → NoneLast q.desc a.odometer_miles b.odometer_miles (Newest a b)
  pub by_cents : q.sort ≡ text "cost" → NoneLast q.desc a.cost_cents b.cost_cents (Newest a b)
  pub otherwise : q.sort ≢ text "date" → q.sort ≢ text "mileage" → q.sort ≢ text "cost" → Newest a b

day_eq : (a b : Date) → before a b ≡ false → before b a ≡ false → a ≡ b
unfolding before
day_eq a b h k = ap_date a b (ground arith) (ground arith) (ground arith)
  where
    ap_date : (a b : Date) → a.year ≡ b.year → a.month ≡ b.month → a.day ≡ b.day → a ≡ b
    ap_date a b y m d = cc

int_eq : (a b : ℤ) → ltb_ℤ a b ≡ false → ltb_ℤ b a ≡ false → a ≡ b
int_eq (pos a) (pos b) h k = grind arith
int_eq (pos a) (negsuc b) h k = ground arith
int_eq (negsuc a) (pos b) h k = ground arith
int_eq (negsuc a) (negsuc b) h k = grind arith

not_later : (a b : Record) → is_later b a ≡ false → Newest a b
unfolding is_later
not_later a b h =
    ground (arith, before→Earlier b.occurred_on a.occurred_on, day_eq a.occurred_on b.occurred_on)

not_date_before :
    (desc : Bool) (a b : Date) (rest : Bool) (Rest : Type 0)
    → (rest ≡ false → Rest)
    → date_before desc b a rest ≡ false
    → ByDay desc a b Rest
not_date_before false a b rest Rest k h = ground (arith, before→Earlier a b, day_eq a b)
not_date_before true a b rest Rest k h = ground (arith, before→Earlier b a, day_eq a b)

not_value_before :
    (desc : Bool) (a b : ℤ) (rest : Bool) (Rest : Type 0)
    → (rest ≡ false → Rest)
    → value_before desc b a rest ≡ false
    → InDirection desc a b Rest
not_value_before false a b rest Rest k h = ground (arith, int_eq a b)
not_value_before true a b rest Rest k h = ground (arith, int_eq a b)

not_null_last :
    (desc : Bool) (a b : Option ℤ) (rest : Bool) (Rest : Type 0)
    → (rest ≡ false → Rest)
    → null_last desc b a rest ≡ false
    → NoneLast desc a b Rest
not_null_last desc none none rest Rest k h = k h
not_null_last desc none (some b) rest Rest k h = absurd (clash h)
  where
    clash : true ≢ false
    clash e = cc
not_null_last desc (some a) none rest Rest k h = tt
not_null_last desc (some a) (some b) rest Rest k h = not_value_before desc a b rest Rest k h

-- What stands behind a record by the field that the query sorts by.
abbrev InField : SortField → Bool → Record → Record → Type 0
InField by_date desc a b = ByDay desc a.occurred_on b.occurred_on (Newest a b)
InField by_mileage desc a b = NoneLast desc a.odometer_miles b.odometer_miles (Newest a b)
InField by_cost desc a b = NoneLast desc a.cost_cents b.cost_cents (Newest a b)
InField by_default desc a b = Newest a b

not_field_before :
    (f : SortField) (desc : Bool) (a b : Record)
    → field_before f desc b a ≡ false
    → InField f desc a b
not_field_before by_date desc a b h =
    not_date_before desc a.occurred_on b.occurred_on _ (Newest a b) (not_later a b) h
not_field_before by_mileage desc a b h =
    not_null_last desc a.odometer_miles b.odometer_miles _ (Newest a b) (not_later a b) h
not_field_before by_cost desc a b h =
    not_null_last desc a.cost_cents b.cost_cents _ (Newest a b) (not_later a b) h
not_field_before by_default desc a b h = not_later a b h

sort_date : (s : Text) → s ≡ text "date" → sort_field s ≡ by_date
unfolding sort_field text_eq
sort_date s e = ap sort_field e

sort_mileage : (s : Text) → s ≡ text "mileage" → sort_field s ≡ by_mileage
unfolding sort_field text_eq
sort_mileage s e = ap sort_field e

sort_cost : (s : Text) → s ≡ text "cost" → sort_field s ≡ by_cost
unfolding sort_field text_eq
sort_cost s e = ap sort_field e

sort_default :
    (s : Text) → s ≢ text "date" → s ≢ text "mileage" → s ≢ text "cost" → sort_field s ≡ by_default
unfolding sort_field
sort_default s d m c = ground (
  arith,
  text_eq_iff s (text "date"),
  text_eq_iff s (text "mileage"),
  text_eq_iff s (text "cost"),
)

-- Where the sort does not put the second record before the first, they stand in the order asked for.
pub not_before-MayPrecede :
    (q : RecordQuery) (a b : Record) → comes_before q b a ≡ false → MayPrecede q a b
unfolding comes_before
not_before-MayPrecede q a b h = record {
  by_day = λ e. in_field by_date (sort_date q.sort e);
  by_miles = λ e. in_field by_mileage (sort_mileage q.sort e);
  by_cents = λ e. in_field by_cost (sort_cost q.sort e);
  otherwise = λ d m c. in_field by_default (sort_default q.sort d m c);
}
  where
    in_field : (f : SortField) → sort_field q.sort ≡ f → InField f q.desc a b
    in_field f e =
        subst (λ g. InField g q.desc a b) e (not_field_before (sort_field q.sort) q.desc a b h)
