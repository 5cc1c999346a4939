-- ===== src/Export/Csv.antt =====
-- The CSV file (internal/export/csv.go). The writer of encoding/csv is a parameter: what it does with a
-- row, and what Flush and Error answer.
pub mod Formulas
use carma.Base.{
  ℕ, ◌+◌, ◌-◌, ◌/◌, ◌%◌, zero, suc, Bool, true, false, ◌||◌, Option, none, some, List, [], ◌∷◌,
  ◌++◌, ◌==◌, if◌then◌else◌, length, drop,
}
use carma.Base.Int.{ℤ, pos, negsuc}
use carma.Base.Text.{Text, text, is_space}
use carma.Base.Decimal.{decimal, format_int}
use carma.Calendar.{Date}
use carma.Model.{Record}

-- The quotient and the remainder are taken towards 0, and so is the sign put in front of both.
abbrev pub cents_text : ℕ → Text
cents_text n = decimal (n / 100) ++ b'.' ∷ drop 1 (decimal (n % 100 + 100))

unfoldable pub format_cents : ℤ → Text
format_cents (pos n) = cents_text n
format_cents (negsuc n) = b'-' ∷ cents_text (suc n)

abbrev pub is_sign : ℕ → Bool
is_sign c = c == b'=' || c == b'+' || c == b'-' || c == b'@'

-- The loop up to the first character that is no white space.
unfoldable pub begins_formula : Text → Bool
unfolding is_space
begins_formula [] = false
begins_formula (c ∷ s) = if is_space c then begins_formula s else is_sign c

unfoldable pub spreadsheet_text : Text → Text
spreadsheet_text value = if begins_formula value then b'\'' ∷ value else value

abbrev pub zeros : ℕ → Text
zeros zero = []
zeros (suc n) = b'0' ∷ zeros n

abbrev pub padded : ℕ → Text → Text
padded width digits = zeros (width - length digits) ++ digits

-- Format("2006-01-02")
unfoldable pub iso_date : Date → Text
iso_date day =
    padded 4 (decimal day.year)
    ++ b'-' ∷ (padded 2 (decimal day.month) ++ b'-' ∷ padded 2 (decimal day.day))

abbrev pub or_blank {ℓ} : {A : Type ℓ} → (A → Text) → Option A → Text
or_blank f none = []
or_blank f (some a) = f a

abbrev pub csv_header : List Text
csv_header =
    text "vehicle"
    ∷ text "date"
    ∷ text "service type"
    ∷ text "odometer"
    ∷ text "cost"
    ∷ text "vendor"
    ∷ text "notes"
    ∷ text "receipt count"
    ∷ text "logged by"
    ∷ text "warranty until date"
    ∷ text "warranty until miles"
    ∷ []

unfoldable pub csv_row : Record → List Text
csv_row r =
    spreadsheet_text r.vehicle_name
    ∷ iso_date r.occurred_on
    ∷ spreadsheet_text r.service_type_name
    ∷ or_blank format_int r.odometer_miles
    ∷ or_blank format_cents r.cost_cents
    ∷ spreadsheet_text r.vendor
    ∷ spreadsheet_text r.notes
    ∷ decimal r.attachment_count
    ∷ spreadsheet_text r.created_by_name
    ∷ or_blank iso_date r.warranty_until_on
    ∷ or_blank format_int r.warranty_until_miles
    ∷ []

module _ {W E : Type 0} where
  -- Go on unless there is an error.
  abbrev pub unless_error : (W → Option E × W) → Option E × W → Option E × W
  unless_error next (none, w) = next w
  unless_error next (some e, w) = (some e, w)

  module _ (write : List Text → W → Option E × W) (close : W → Option E × W) where
    unfoldable pub write_records : List Record → W → Option E × W
    write_records [] w = close w
    write_records (r ∷ records) w = unless_error (write_records records) (write (csv_row r) w)

    unfoldable pub csv_file : List Record → W → Option E × W
    unfolding write_records
    csv_file records w = unless_error (write_records records) (write csv_header w)
