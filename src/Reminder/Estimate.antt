-- ===== src/Reminder/Estimate.antt =====
-- The driving rate of a vehicle and the hint that stands in for it (windowPoints,
-- EstimateMilesPerDay and EstimateHint of internal/reminder/reminder.go).
pub mod Facts
use carma.Base.{
  ℕ, zero, suc, ◌+◌, ◌-◌, Bool, true, false, not, ◌&&◌, ◌||◌, Option, none, some, List, [], ◌∷◌,
  ◌++◌, ltb, leb, ◌==◌, if◌then◌else◌, length, min, max, map,
}
use carma.Base.Int.{ℤ, pos}
use carma.Base.Text.{Text, text}
use carma.Base.Decimal.{decimal}
use carma.Base.Float.{Float}
use carma.Calendar.{Date, after, add_days, sub_months}
use carma.Calendar.Days.{day_number}
use carma.Model.{MileagePoint}
use carma.Reminder.Format.{short_date}

abbrev pub estimate_window_months : ℕ
estimate_window_months = 12

abbrev pub min_estimate_span_days : ℕ
min_estimate_span_days = 14

-- Days into the window and miles, with the first and the last day seen.
pub record Window : Type 0 where
  pub xs : List ℕ
  pub ys : List ℤ
  pub first : ℕ
  pub last : ℕ

-- One round of the loop: a point outside the window is passed over.
unfoldable pub window_step : ℕ → ℕ → MileagePoint → Window → Window
window_step start end point w =
    let day = day_number point.on in
    if ltb day start || ltb end day then w else record {
      xs = w.xs ++ (day - start) ∷ [];
      ys = w.ys ++ point.miles ∷ [];
      first = min w.first (day - start);
      last = max w.last (day - start);
    }

unfoldable pub window_loop : ℕ → ℕ → List MileagePoint → Window → Window
unfolding window_step
window_loop start end [] w = w
window_loop start end (p ∷ points) w = window_loop start end points (window_step start end p w)

unfoldable pub window_points : List MileagePoint → Date → Window
unfolding window_loop
window_points points today =
    let start = day_number (sub_months estimate_window_months today) in
    let end = day_number today in
    window_loop start end points (record { xs = []; ys = []; first = end - start; last = 0 })

-- Fewer than two points, or a span that is too short.
abbrev pub too_short : Window → Bool
too_short w = ltb (length w.xs) 2 || ltb w.last (w.first + min_estimate_span_days)

unfoldable pub no_history_hint : Text
no_history_hint =
    text "log mileage on two dates "
    ++ decimal min_estimate_span_days
    ++ text "+ days apart to estimate a date"

abbrev pub rate_hint : {F : Type 0} → Option F → Text
rate_hint none = text "recent mileage isn't increasing, so no date estimate"
rate_hint (some rate) = []

module _ (fl : Float) where
  open fl use {F, of_int, add, sub, mul, div, lt, le, is_inf}

  -- The sums of the values, and the division by how many they are.
  unfoldable pub sum_loop : F → List F → F
  sum_loop total [] = total
  sum_loop total (x ∷ xs) = sum_loop (add total x) xs

  unfoldable pub mean : List F → F
  unfolding sum_loop
  mean xs = div (sum_loop (of_int (pos 0)) xs) (of_int (pos (length xs)))

  unfoldable pub moments_loop : F → F → List F → List F → F → F → F × F
  moments_loop mx my (x ∷ xs) (y ∷ ys) covariance variance =
      moments_loop mx my xs ys (add covariance (mul (sub x mx) (sub y my)))
        (add variance (mul (sub x mx) (sub x mx)))
  moments_loop mx my _ _ covariance variance = (covariance, variance)

  -- The least-squares slope.
  unfoldable pub slope : List F → List F → F
  unfolding mean moments_loop
  slope xs ys =
      let (covariance, variance) =
        moments_loop (mean xs) (mean ys) xs ys (of_int (pos 0)) (of_int (pos 0)) in
      div covariance variance

  abbrev pub rising : F → Option F
  rising s = if not (lt (of_int (pos 0)) s) || is_inf s then none else some s

  unfoldable pub estimate_miles_per_day : List MileagePoint → Date → Option F
  estimate_miles_per_day points today =
      let w = window_points points today in
      if too_short w
      then none
      else rising (slope (map (λ x. of_int (pos x)) w.xs) (map of_int w.ys))

  -- What the hint says when two readings are too close.
  unfoldable pub again_hint : Window → Date → Text
  again_hint w today =
      let again =
        add_days (w.first + min_estimate_span_days) (sub_months estimate_window_months today) in
      if not (after again today)
      then text "log mileage again to estimate a date"
      else text "log mileage again on or after "
        ++ short_date again today
        ++ text " to estimate a date"

  unfoldable pub estimate_hint : List MileagePoint → Date → Text
  estimate_hint points today =
      let w = window_points points today in
      if length w.xs == 0
      then no_history_hint
      else if too_short w
      then again_hint w today
      else rate_hint (estimate_miles_per_day points today)
