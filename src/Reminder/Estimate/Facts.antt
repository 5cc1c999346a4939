-- ===== src/Reminder/Estimate/Facts.antt =====
-- The window of mileage points, and when there is a rate.
use carma.Base.{
  ℕ, ◌+◌, ◌-◌, ◌≤◌, ◌≡◌, ◌≢◌, refl, ◌⊎◌, inl, inr, ◌↔◌, true, false, Option, none, some, List, [],
  ◌∷◌, arith, ◌==◌, Bool-cases, length, Any, Any-map,
}
use carma.Base.Int.{pos}
use carma.Base.Float.{Float}
use carma.Calendar.{Date, sub_months}
use carma.Calendar.Days.{day_number}
use carma.Model.{MileagePoint}
use carma.Reminder.Estimate.{
  Window, window_step, window_loop, window_points, too_short, no_history_hint, again_hint,
  estimate_miles_per_day, estimate_hint, rate_hint, estimate_window_months, min_estimate_span_days,
}

-- A point dated from the day `start` to the day `end`.
abbrev pub InWindow : ℕ → ℕ → MileagePoint → Type 0
InWindow start end p = (start ≤ day_number p.on) × (day_number p.on ≤ end)

-- The first day is the one that the loop began with, or that of a point in the window.
window_loop-first :
    (start end : ℕ) (points : List MileagePoint) (w : Window)
    → ((window_loop start end points w).first ≡ w.first)
      ⊎ Any
          (λ p.
            InWindow start end p
            × (start + (window_loop start end points w).first ≡ day_number p.on))
          points
unfolding window_loop
window_loop-first start end [] w = inl refl
window_loop-first start end (p ∷ points) w =
    elim (window_loop-first start end points (window_step start end p w)) [
      | inl same ↦ step same
      | inr later ↦ inr (inr later)
    ]
  where
    final : ℕ
    final = (window_loop start end points (window_step start end p w)).first

    step :
        final ≡ (window_step start end p w).first
        → (final ≡ w.first)
          ⊎ (InWindow start end p × (start + final ≡ day_number p.on)
              ⊎ Any (λ q. InWindow start end q × (start + final ≡ day_number q.on)) points)
    step same = unfold window_step in ground arith

window_loop-last :
    (start end : ℕ) (points : List MileagePoint) (w : Window)
    → ((window_loop start end points w).last ≡ w.last)
      ⊎ Any
          (λ p.
            InWindow start end p
            × (start + (window_loop start end points w).last ≡ day_number p.on))
          points
unfolding window_loop
window_loop-last start end [] w = inl refl
window_loop-last start end (p ∷ points) w =
    elim (window_loop-last start end points (window_step start end p w)) [
      | inl same ↦ step same
      | inr later ↦ inr (inr later)
    ]
  where
    final : ℕ
    final = (window_loop start end points (window_step start end p w)).last

    step :
        final ≡ (window_step start end p w).last
        → (final ≡ w.last)
          ⊎ (InWindow start end p × (start + final ≡ day_number p.on)
              ⊎ Any (λ q. InWindow start end q × (start + final ≡ day_number q.on)) points)
    step same = unfold window_step in ground arith

At-le :
    (start end day : ℕ) (points : List MileagePoint)
    → Any (λ p. InWindow start end p × (start + day ≡ day_number p.on)) points
    → start + day ≤ end
At-le start end day (p ∷ points) (inl (inside, at)) = omega (arith, inside, at)
At-le start end day (p ∷ points) (inr later) = At-le start end day points later
At-le start end day [] h = absurd h

module _ (fl : Float) (points : List MileagePoint) (today : Date) where
  estimate_of_short :
      too_short (window_points points today) ≡ true → estimate_miles_per_day fl points today ≡ none
  unfolding estimate_miles_per_day
  estimate_of_short short = rw short

  hint_of_short : too_short (window_points points today) ≡ true → estimate_hint fl points today ≢ []
  unfolding estimate_hint no_history_hint again_hint
  hint_of_short short = elim (Bool-cases (length (window_points points today).xs == 0)) [
    | inl bare ↦ rw bare (λ e. cc)
    | inr some_points ↦ rw (some_points, short) (ground arith)
  ]

  hint_of_long :
      too_short (window_points points today) ≡ false
      → estimate_hint fl points today ≡ rate_hint (estimate_miles_per_day fl points today)
  unfolding estimate_hint
  hint_of_long long = elim (Bool-cases (length (window_points points today).xs == 0)) [
    | inl bare ↦ absurd (ground arith)
    | inr some_points ↦ rw (some_points, long)
  ]

  -- The hint is empty exactly when there is a rate to project with.
  pub estimate_hint-empty_iff :
      (estimate_hint fl points today ≡ []) ↔ (estimate_miles_per_day fl points today ≢ none)
  estimate_hint-empty_iff = elim (Bool-cases (too_short (window_points points today))) [
    | inl short ↦ (λ e. absurd (hint_of_short short e), λ ne. absurd (ne (estimate_of_short short)))
    | inr long ↦ rw (hint_of_long long) (by_rate (estimate_miles_per_day fl points today))
  ]
    where
      by_rate : (r : Option fl.F) → (rate_hint r ≡ []) ↔ (r ≢ none)
      by_rate none = (λ e. cc, λ ne. absurd (ne refl))
      by_rate (some x) = (λ e. λ n. cc, λ ne. refl)

  -- Two points of the window lie at least 14 days apart.
  abbrev pub HasSpan : Type 0
  HasSpan =
      let start = day_number (sub_months estimate_window_months today) in
      let end = day_number today in
      Any
        (λ p.
          InWindow start end p
          × Any
              (λ q.
                InWindow start end q × (day_number p.on + min_estimate_span_days ≤ day_number q.on))
              points)
        points

  span_of_long : too_short (window_points points today) ≡ false → HasSpan
  span_of_long long =
      span (unfold window_points in window_loop-first start end points _)
        (unfold window_points in window_loop-last start end points _)
    where
      start : ℕ
      start = day_number (sub_months estimate_window_months today)

      end : ℕ
      end = day_number today

      first : ℕ
      first = (window_points points today).first

      last : ℕ
      last = (window_points points today).last

      apart : first + min_estimate_span_days ≤ last
      apart = ground arith

      At : ℕ → MileagePoint → Type 0
      At day p = InWindow start end p × (start + day ≡ day_number p.on)

      span :
          (first ≡ end - start) ⊎ Any (At first) points
          → (last ≡ 0) ⊎ Any (At last) points
          → HasSpan
      span f (inl l) = absurd (omega (arith, apart, l))
      span (inl f) (inr l) = absurd (omega (arith, apart, f, At-le start end last points l))
      span (inr f) (inr l) =
          Any-map
            (λ p (inside, at). (
              inside,
              Any-map (λ q (inside_q, at_q). (inside_q, omega (arith, apart, at, at_q))) points l,
            ))
            points f

  -- There is a rate only where two points of the last twelve months lie at least 14 days apart.
  pub estimate_miles_per_day-HasSpan : estimate_miles_per_day fl points today ≢ none → HasSpan
  estimate_miles_per_day-HasSpan h = elim (Bool-cases (too_short (window_points points today))) [
    | inl short ↦ absurd (h (estimate_of_short short))
    | inr long ↦ span_of_long long
  ]

-- A rate is a slope above 0 that is not infinite.
pub estimate_miles_per_day_rises :
    (fl : Float) (points : List MileagePoint) (today : Date) {rate : fl.F}
    → estimate_miles_per_day fl points today ≡ some rate
    → (fl.lt (fl.of_int (pos 0)) rate ≡ true) × (fl.is_inf rate ≡ false)
unfolding estimate_miles_per_day
estimate_miles_per_day_rises fl points today h = ground arith
