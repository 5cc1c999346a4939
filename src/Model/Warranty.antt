-- ===== src/Model/Warranty.antt =====
-- Warranties of records (internal/model/warranty.go).
pub mod Facts
use carma.Base.{
  ℕ, Bool, true, false, not, ◌&&◌, ◌||◌, Option, none, some, List, [], ◌∷◌, ◌++◌, ltb, ◌==◌,
  if◌then◌else◌,
}
use carma.Base.Int.{ℤ, ltb_ℤ}
use carma.Base.Text.{Text, text, join}
use carma.Calendar.{Date, before}
use carma.Model.{Record}
use carma.Reminder.Format.{group_thousands, format_date}

abbrev pub is_set {ℓ} : {A : Type ℓ} → Option A → Bool
is_set none = false
is_set (some a) = true

unfoldable pub has_warranty : Record → Bool
has_warranty r = is_set r.warranty_until_on || is_set r.warranty_until_miles

unfoldable pub date_after : Date → Date → Bool
date_after day limit =
    if not (day.year == limit.year)
    then ltb limit.year day.year
    else if not (day.month == limit.month)
    then ltb limit.month day.month
    else ltb limit.day day.day

abbrev pub date_passed : Option Date → Date → Bool
date_passed none today = false
date_passed (some limit) today = date_after today limit

abbrev pub miles_passed : Option ℤ → Option ℤ → Bool
miles_passed (some limit) (some odometer) = ltb_ℤ limit odometer
miles_passed none odometer = false
miles_passed (some limit) none = false

unfoldable pub warranty_active : Record → Date → Option ℤ → Bool
warranty_active r today odometer =
    if not (has_warranty r)
    then false
    else if date_passed r.warranty_until_on today
    then false
    else if miles_passed r.warranty_until_miles odometer
    then false
    else true

-- The limits in words. groupDigits of this file is groupThousands of internal/reminder line for line.
unfoldable pub warranty_limits : Record → Text
warranty_limits r =
    join (text " or ") (date_limit r.warranty_until_on ++ miles_limit r.warranty_until_miles)
  where
    date_limit : Option Date → List Text
    date_limit none = []
    date_limit (some limit) = format_date limit ∷ []

    miles_limit : Option ℤ → List Text
    miles_limit none = []
    miles_limit (some limit) = (group_thousands limit ++ text " mi") ∷ []

-- True where ValidateWarranty returns no error.
unfoldable pub validate_warranty : Date → Option Date → Bool
validate_warranty occurred_on none = true
validate_warranty occurred_on (some until) = not (before until occurred_on)
