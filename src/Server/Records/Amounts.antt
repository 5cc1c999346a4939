-- ===== src/Server/Records/Amounts.antt =====
-- The amounts that the record forms let into the store.
use carma.Base.{◌≡◌, refl, inl, inr, Option, none, some, [], Bool-cases}
use carma.Base.Int.{ℤ}
use carma.Base.Text.{Text, text, text_eq, trim_space}
use carma.Base.Digits.{remove_commas}
use carma.Calendar.{Date}
use carma.Model.{Uuid, Record}
use carma.Model.Money.{parse_cents}
use carma.Model.Money.Facts.{IsAmount, parse_cents-IsAmount, parse_odometer_miles-IsAmount}
use carma.Export.Csv.Formulas.{HasAmounts}
use carma.Server.{Parsers, Field, unset, wrong, value, parsed, read_field}
use carma.Server.Records.{
  Draft, empty_record, take_date, take_type, take_odometer, take_cost, take_warranty_date,
  take_warranty_miles, parse_miles, dated_draft, typed_draft, mileage_draft, priced_draft,
  covered_draft, record_from_form,
}

abbrev FieldAmount : Field ℤ → Type 0
FieldAmount unset = Unit {0}
FieldAmount wrong = Unit {0}
FieldAmount (value n) = IsAmount n

parsed-Amount : (o : Option ℤ) → ((n : ℤ) → o ≡ some n → IsAmount n) → FieldAmount (parsed o)
parsed-Amount none h = tt
parsed-Amount (some n) h = h n refl

read_field-Amount :
    (parse : Text → Option ℤ)
    → ((s : Text) (n : ℤ) → parse s ≡ some n → IsAmount n)
    → (raw : Text) → FieldAmount (read_field parse raw)
unfolding read_field
read_field-Amount parse amount raw = elim (Bool-cases (text_eq (trim_space raw) [])) [
  | inl empty ↦ rw empty tt
  | inr full ↦ rw full (parsed-Amount (parse (trim_space raw)) (amount (trim_space raw)))
]

-- A date, a type and a warranty's date are no amounts.
take_date-Amounts : (o : Option Date) (r : Record) → HasAmounts r → HasAmounts (take_date o r).0
take_date-Amounts none r h = h
take_date-Amounts (some day) r h = record {
  odometer = h.odometer;
  cost = h.cost;
  warranty = h.warranty;
}

take_type-Amounts : (o : Option Uuid) (d : Draft) → HasAmounts d.0 → HasAmounts (take_type o d).0
take_type-Amounts none (r, msg) h = h
take_type-Amounts (some id) (r, msg) h = record {
  odometer = h.odometer;
  cost = h.cost;
  warranty = h.warranty;
}

take_odometer-Amounts :
    (f : Field ℤ) (d : Draft) → FieldAmount f → HasAmounts d.0 → HasAmounts (take_odometer f d).0
take_odometer-Amounts unset d a h = h
take_odometer-Amounts wrong (r, msg) a h = h
take_odometer-Amounts (value n) (r, msg) a h = record {
  odometer = a;
  cost = h.cost;
  warranty = h.warranty;
}

take_cost-Amounts :
    (f : Field ℤ) (d : Draft) → FieldAmount f → HasAmounts d.0 → HasAmounts (take_cost f d).0
take_cost-Amounts unset d a h = h
take_cost-Amounts wrong (r, msg) a h = h
take_cost-Amounts (value n) (r, msg) a h = record {
  odometer = h.odometer;
  cost = a;
  warranty = h.warranty;
}

take_warranty_date-Amounts :
    (f : Field Date) (d : Draft) → HasAmounts d.0 → HasAmounts (take_warranty_date f d).0
take_warranty_date-Amounts unset d h = h
take_warranty_date-Amounts wrong (r, msg) h = h
take_warranty_date-Amounts (value day) (r, msg) h = record {
  odometer = h.odometer;
  cost = h.cost;
  warranty = h.warranty;
}

take_warranty_miles-Amounts :
    (f : Field ℤ) (d : Draft)
    → FieldAmount f
    → HasAmounts d.0
    → HasAmounts (take_warranty_miles f d).0
take_warranty_miles-Amounts unset d a h = h
take_warranty_miles-Amounts wrong (r, msg) a h = h
take_warranty_miles-Amounts (value n) (r, msg) a h = record {
  odometer = h.odometer;
  cost = h.cost;
  warranty = a;
}

module _ (p : Parsers) (form : Text → Text) where
  miles : (raw : Text) → FieldAmount (read_field parse_miles raw)
  miles raw =
      read_field-Amount parse_miles (λ s n h. parse_odometer_miles-IsAmount (remove_commas s) n h)
        raw

  typed_draft-Amounts : HasAmounts (typed_draft p form).0
  typed_draft-Amounts =
      take_type-Amounts (p.parse_uuid (form (text "service_type_id"))) (dated_draft p form) (
        take_date-Amounts (p.parse_date (form (text "occurred_on")))
          (empty_record (trim_space (form (text "vendor"))) (trim_space (form (text "notes"))))
          (record { odometer = tt; cost = tt; warranty = tt }))

  mileage_draft-Amounts : HasAmounts (mileage_draft p form).0
  mileage_draft-Amounts =
      take_odometer-Amounts (read_field parse_miles (form (text "odometer"))) (typed_draft p form)
        (miles (form (text "odometer"))) typed_draft-Amounts

  priced_draft-Amounts : HasAmounts (priced_draft p form).0
  priced_draft-Amounts =
      take_cost-Amounts (read_field parse_cents (form (text "cost"))) (mileage_draft p form)
        (read_field-Amount parse_cents parse_cents-IsAmount (form (text "cost")))
        mileage_draft-Amounts

  -- Whatever the form holds, the amounts of its record are nonnegative int64 values.
  pub record_from_form-HasAmounts : HasAmounts (record_from_form p form).0
  unfolding record_from_form
  record_from_form-HasAmounts =
      take_warranty_miles-Amounts (read_field parse_miles (form (text "warranty_miles")))
        (covered_draft p form) (miles (form (text "warranty_miles")))
        (take_warranty_date-Amounts (read_field p.parse_date (form (text "warranty_until")))
          (priced_draft p form) priced_draft-Amounts)
