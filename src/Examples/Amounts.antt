-- ===== src/Examples/Amounts.antt =====
-- Amounts, totals and warranties.
use carma.Base.{◌≡◌, refl, none, some, List, [], ◌∷◌, arith}
use carma.Base.Int.{pos, ◌+ℤ◌, ◌-ℤ◌, ◌+int64◌, ◌-int64◌, wrap64, max_int64}
use carma.Base.Text.{text, text_eq, text_lt, trim_space, split, starts_with, to_lower}
use carma.Base.Decimal.{parse_int64, decimal}
use carma.Base.Digits.{remove_commas}
use carma.Calendar.{date, before}
use carma.Model.{Record}
use carma.Model.Money.{
  trim_dollar, fraction, whole_and_fraction, whole_part, parse_parts, parse_cents, add_cents,
  parse_odometer_miles,
}
use carma.Model.Money.Facts.{capped, IsAmount, parse_cents-IsAmount, parse_odometer_miles-IsAmount}
use carma.Model.Spend.{date_ordinal, aggregate_spend, this_year, add_cost}
use carma.Model.Spend.Totals.{sum_of, priced, priced_cents, year_cents, aggregate_spend-totals}
use carma.Model.Warranty.{validate_warranty}
use carma.Ui.{dollars}
use carma.Ui.RoundTrip.{parse_cents-dollars}
use carma.Examples.{oil_change}

methods : Unit {0}
unfolding parse_cents trim_dollar remove_commas fraction whole_and_fraction whole_part parse_parts
    parse_int64 trim_space split starts_with text_eq wrap64 ◌+int64◌ ◌-int64◌ ◌+ℤ◌ ◌-ℤ◌ dollars
    decimal aggregate_spend this_year add_cost add_cents text_lt to_lower before validate_warranty
    date_ordinal parse_odometer_miles
methods = tt

entered : parse_cents (text "$1,234.5") ≡ some (pos 123450)
unfolding methods
entered = refl

three_decimals : parse_cents (text "1.005") ≡ none
unfolding methods
three_decimals = refl

-- A sign behind the point is read as part of the cents.
plus_behind_point : parse_cents (text "1.+5") ≡ some (pos 105)
unfolding methods
plus_behind_point = refl

minus_behind_point : parse_cents (text "1.-5") ≡ none
unfolding methods
minus_behind_point = refl

parse_cents-dollars_example : parse_cents (dollars (pos 123450)) ≡ some (pos 123450)
parse_cents-dollars_example = parse_cents-dollars 123450 (omega arith)

parse_cents-IsAmount_example : IsAmount (pos 123450)
parse_cents-IsAmount_example = parse_cents-IsAmount (text "$1,234.5") (pos 123450) entered

parse_odometer_miles-IsAmount_example : IsAmount (pos 44800)
unfolding methods
parse_odometer_miles-IsAmount_example =
    parse_odometer_miles-IsAmount (text " 44800 ") (pos 44800) refl

abbrev records : List Record
records =
    oil_change
    ∷ record oil_change { id = 8; service_type_id = 4; cost_cents = none }
    ∷ record oil_change {
      id = 10;
      service_type_id = 4;
      cost_cents = some max_int64;
      occurred_on = date 2025 12 31;
    }
    ∷ []

totals :
    ((aggregate_spend records (date 2026 6 1)).lifetime_cents ≡ max_int64)
    × ((aggregate_spend records (date 2026 6 1)).year_to_date_cents ≡ pos 6450)
    × ((aggregate_spend records (date 2026 6 1)).priced_records ≡ 2)
unfolding methods
totals = (refl, refl, refl)

aggregate_spend-totals_example :
    ((aggregate_spend records (date 2026 6 1)).lifetime_cents
      ≡ pos (capped (sum_of priced_cents records)))
    × ((aggregate_spend records (date 2026 6 1)).year_to_date_cents
        ≡ pos (capped (sum_of (year_cents (date 2026 6 1)) records)))
    × ((aggregate_spend records (date 2026 6 1)).priced_records ≡ sum_of priced records)
aggregate_spend-totals_example =
    aggregate_spend-totals records (date 2026 6 1) (omega arith, (tt, (omega arith, tt)))
