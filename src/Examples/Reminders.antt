-- ===== src/Examples/Reminders.antt =====
-- Reminders at work.
use carma.Base.{◌≡◌, ◌≢◌, refl, ◌↔◌, ◌⊎◌, true, none, some, List, [], ◌∷◌, map, arith}
use carma.Base.Int.{pos, ◌+int64◌, ◌-int64◌, ◌+ℤ◌, ◌-ℤ◌, wrap64}
use carma.Base.Text.{text, text_eq, trim_space, join}
use carma.Base.Decimal.{format_int, parse_int64}
use carma.Calendar.{
  Date, date, days_in_month, before, next, previous, add_days, sub_days, normal_date, add_months,
  sub_months,
}
use carma.Calendar.Days.{day_number}
use carma.Model.{MileagePoint}
use carma.Reminder.Format.{group_thousands, short_date, format_date}
use carma.Calendar.Zone.{add_days_ℤ}
use carma.Reminder.Snooze.{snooze, resolve_snooze, active_snooze, add_one_month, parse_date}
use carma.Reminder.Snooze.Facts.{Holds, resolve_snooze-Holds, add_one_month-eq}
use carma.Reminder.Evaluate.{
  due, soon, evaluate, evaluate_all, baseline_date, baseline_odometer, classify, finish,
  check_miles, check_baseline, check_reading, project, check_months,
}
use carma.Reminder.Evaluate.Soon.{SoonByMiles, evaluate-soon_iff}
use carma.Reminder.Evaluate.Passing.{evaluate-due_stays, evaluate-due_rate}
use carma.Reminder.Evaluate.Batch.{shown, estimated, evaluate_all_lem}
use carma.Reminder.Evaluate.Overdue.{DueByDate, DueByMiles, SoonByDate, evaluate-due_iff}
use carma.Examples.{whole_numbers, one_day, every_six_months}

methods : Unit {0}
unfolding evaluate classify finish check_miles check_baseline check_reading project check_months
    active_snooze wrap64 group_thousands format_int short_date format_date ◌+int64◌ ◌-int64◌ ◌+ℤ◌
    ◌-ℤ◌ before next previous add_days sub_days add_days_ℤ normal_date add_months sub_months
    days_in_month baseline_date baseline_odometer join add_one_month trim_space text_eq
    resolve_snooze parse_date parse_int64 day_number
methods = tt

grouped : group_thousands (pos 1234567) ≡ text "1,234,567"
unfolding methods
grouped = refl

two_weeks_on : add_days 14 (date 2026 2 20) ≡ date 2026 3 6
unfolding methods
two_weeks_on = refl

month_end : add_one_month (date 2027 1 31) ≡ date 2027 2 28
unfolding methods
month_end = refl

-- 31 + 31 days after the first of December, by number.
abbrev june_1 : Date
june_1 = date 2026 6 1

detail_lem :
    (evaluate whole_numbers one_day every_six_months june_1).detail
    ≡ text "~200 mi left, est. Jun 6"
unfolding methods
detail_lem = refl

due_in_august : (evaluate whole_numbers one_day every_six_months (date 2026 8 1)).status ≡ due
unfolding methods
due_in_august = refl

soon_in_june : (evaluate whole_numbers one_day every_six_months june_1).status ≡ soon
unfolding methods
soon_in_june = refl

evaluate-due_iff_example :
    ((evaluate whole_numbers one_day every_six_months june_1).status ≡ due) ↔ (
      (true ≡ true)
      × (active_snooze every_six_months june_1 ≡ none)
      × (DueByDate (some 6) (baseline_date one_day every_six_months) june_1
          ⊎ DueByMiles (some (pos 5000)) (baseline_odometer every_six_months) (some (pos 44800))))
evaluate-due_iff_example = evaluate-due_iff whole_numbers one_day every_six_months june_1

evaluate-soon_iff_example :
    ((evaluate whole_numbers one_day every_six_months june_1).status ≡ soon) ↔ (
      (true ≡ true)
      × (active_snooze every_six_months june_1 ≡ none)
      × ((evaluate whole_numbers one_day every_six_months june_1).status ≢ due)
      × (SoonByDate (some 6) (baseline_date one_day every_six_months) june_1
          ⊎ SoonByMiles whole_numbers
              (some (pos 40))
              june_1
              (some (pos 5000))
              (baseline_odometer every_six_months)
              (some (pos 44800))))
evaluate-soon_iff_example = evaluate-soon_iff whole_numbers one_day every_six_months june_1

evaluate-due_stays_example :
    (evaluate whole_numbers one_day every_six_months (date 2031 1 1)).status ≡ due
unfolding methods
evaluate-due_stays_example =
    evaluate-due_stays whole_numbers one_day every_six_months (date 2026 8 1) (date 2031 1 1) refl
      refl

evaluate-due_rate_example :
    ((evaluate whole_numbers one_day
        (record every_six_months { miles_per_day = none; estimate_hint = text "none yet" })
        june_1).status
      ≡ due)
    ↔ ((evaluate whole_numbers one_day every_six_months june_1).status ≡ due)
evaluate-due_rate_example =
    evaluate-due_rate whole_numbers one_day every_six_months june_1 none (text "none yet")

resolve_snooze-Holds_example :
    (trim_space (text " 500mi") ≡ text "clear")
      × (snooze none (some (pos 45300)) ≡ snooze none none)
    ⊎ Holds (snooze none (some (pos 45300))) june_1 (some (pos 44800))
unfolding methods
resolve_snooze-Holds_example =
    resolve_snooze-Holds (text " 500mi") [] [] june_1 (some (pos 44800))
      (snooze none (some (pos 45300))) (omega arith) (omega arith) refl

add_one_month-eq_example : add_one_month (date 2027 1 31) ≡ date 2027 2 28
unfolding methods
add_one_month-eq_example = add_one_month-eq (date 2027 1 31) (omega arith)

abbrev check_ins : List MileagePoint
check_ins =
    record { vehicle_id = 1; on = date 2026 1 31; miles = pos 40000 }
    ∷ record { vehicle_id = 1; on = date 2026 5 31; miles = pos 44800 }
    ∷ []

evaluate_all_lem_example :
    map
      (shown whole_numbers)
      (evaluate_all whole_numbers one_day (every_six_months ∷ []) check_ins june_1)
    ≡ map
        (λ r.
          shown whole_numbers
            (evaluate whole_numbers one_day (estimated whole_numbers check_ins june_1 r) june_1))
        (every_six_months ∷ [])
evaluate_all_lem_example =
    evaluate_all_lem whole_numbers one_day (every_six_months ∷ []) check_ins june_1
