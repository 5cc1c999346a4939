-- ===== src/Model/Warranty/Facts.antt =====
-- When a warranty covers the vehicle.
use carma.Base.{◌≡◌, refl, ◌↔◌, true, false, Option, none, some, arith}
use carma.Base.Int.{ℤ, ◌≤ℤ◌}
use carma.Calendar.{Date, before}
use carma.Model.{Record}
use carma.Model.Warranty.{
  has_warranty, date_after, date_passed, miles_passed, warranty_active, validate_warranty,
}

-- Comparing year, month and day is the calendar's order.
pub date_after-before : (day limit : Date) → date_after day limit ≡ before limit day
unfolding date_after before
date_after-before day limit = ground arith

-- The limit is not set, or the day is at most the limit.
abbrev pub WithinDate : Option Date → Date → Type 0
WithinDate none today = Unit {0}
WithinDate (some limit) today = before limit today ≡ false

-- The limit is not set, the odometer is not known, or it is at most the limit.
abbrev pub WithinMiles : Option ℤ → Option ℤ → Type 0
WithinMiles (some limit) (some odometer) = odometer ≤ℤ limit
WithinMiles none odometer = Unit {0}
WithinMiles (some limit) none = Unit {0}

within_date :
    (limit : Option Date) (today : Date)
    → (date_passed limit today ≡ false) ↔ WithinDate limit today
within_date none today = (λ _. tt, λ _. refl)
within_date (some limit) today = rw (date_after-before today limit) (λ h. h, λ h. h)

within_miles :
    (limit odometer : Option ℤ) → (miles_passed limit odometer ≡ false) ↔ WithinMiles limit odometer
within_miles none odometer = (λ _. tt, λ _. refl)
within_miles (some limit) none = (λ _. tt, λ _. refl)
within_miles (some limit) (some odometer) = ground arith

-- A warranty is active exactly when it has a limit and neither limit has been passed: the date
-- covers its own day, the mileage covers itself, and an unknown odometer passes no limit.
pub warranty_active_iff :
    (r : Record) (today : Date) (odometer : Option ℤ)
    → (warranty_active r today odometer ≡ true) ↔ (
        (has_warranty r ≡ true)
        × WithinDate r.warranty_until_on today
        × WithinMiles r.warranty_until_miles odometer)
unfolding warranty_active
warranty_active_iff r today odometer =
    ground
      (arith, within_date r.warranty_until_on today, within_miles r.warranty_until_miles odometer)

-- A record that ValidateWarranty admits, with a date limit only, is covered on the day of the service.
pub validate_warranty-active :
    (r : Record) (until : Date) (odometer : Option ℤ)
    → r.warranty_until_on ≡ some until
    → r.warranty_until_miles ≡ none
    → validate_warranty r.occurred_on r.warranty_until_on ≡ true
    → warranty_active r r.occurred_on odometer ≡ true
unfolding has_warranty validate_warranty
validate_warranty-active r until odometer on miles valid =
    (warranty_active_iff r r.occurred_on odometer).1
      (rw on refl, within r.warranty_until_on valid, rw miles tt)
  where
    within :
        (limit : Option Date)
        → validate_warranty r.occurred_on limit ≡ true
        → WithinDate limit r.occurred_on
    within none h = tt
    within (some limit) h = ground arith
