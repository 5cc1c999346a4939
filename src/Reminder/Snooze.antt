-- ===== src/Reminder/Snooze.antt =====
-- Snoozes (internal/reminder/snooze.go): the reminders page's choice turned into thresholds, and
-- whether a stored snooze still holds.
use carma.Base.{
  ℕ, ◌+◌, ◌-◌, ◌*◌, Bool, true, false, not, ◌&&◌, ◌||◌, Option, none, some, List, [], ◌∷◌, ◌++◌,
  ltb, leb, ◌==◌, if◌then◌else◌, all,
}
use carma.Base.Int.{ℤ, pos, ◌+int64◌, ltb_ℤ, leb_ℤ}
use carma.Base.Text.{Text, text, text_eq, trim_space, join}
use carma.Base.Decimal.{parse_int64, is_digit}
use carma.Base.Result.{Result, ok, err, ◌>>=◌, ◌>>◌, guard}
use carma.Calendar.{Date, date, after, before, add_days, days_in_month, normal_date, previous}
use carma.Model.{Reminder}
use carma.Reminder.Format.{group_thousands, format_date}
pub mod Facts

pub data SnoozeError : Type 0 where
  mileage_unknown bad_date bad_miles miles_low empty bad_preset : SnoozeError

pub record Snooze : Type 0 where
  pub until_on : Option Date
  pub until_miles : Option ℤ

abbrev pub snooze : Option Date → Option ℤ → Snooze
snooze on miles = record { until_on = on; until_miles = miles }

abbrev pub snooze_mile_step : ℤ
snooze_mile_step = pos 500

abbrev pub two_digits : ℕ → ℕ → ℕ
two_digits a b = (a - 48) * 10 + (b - 48)

abbrev pub real_date : ℕ → ℕ → ℕ → Option Date
real_date y m d =
    if leb 1 m && leb m 12 && leb 1 d && leb d (days_in_month y m) then some (date y m d) else none

-- time.Parse("2006-01-02", s): four, two and two digits, and a date of the calendar.
unfoldable pub parse_date : Text → Option Date
parse_date (a ∷ b ∷ c ∷ d ∷ h ∷ e ∷ f ∷ k ∷ g ∷ i ∷ []) =
    if all is_digit (a ∷ b ∷ c ∷ d ∷ e ∷ f ∷ g ∷ i ∷ []) && (h == b'-') && (k == b'-')
    then real_date (two_digits a b * 100 + two_digits c d) (two_digits e f) (two_digits g i)
    else none
parse_date _ = none

unfoldable pub add_one_month : Date → Date
add_one_month today =
    let target = normal_date today.year (today.month + 1) 1 in
    let last = (previous (normal_date target.year (target.month + 1) 1)).day in
    date target.year target.month (if ltb last today.day then last else today.day)

-- The custom date: left out when its field is blank.
unfoldable pub custom_date : Text → Date → Result SnoozeError (Option Date)
custom_date until_on today = if text_eq until_on [] then ok none else elim (parse_date until_on) [
  | none ↦ err bad_date
  | some day ↦ if after day today then ok (some day) else err bad_date
]

unfoldable pub custom_miles : Text → Option ℤ → Result SnoozeError (Option ℤ)
custom_miles until_miles latest =
    if text_eq until_miles [] then ok none else elim (parse_int64 until_miles) [
      | none ↦ err bad_miles
      | some miles ↦ if leb_ℤ miles (pos 0) then err bad_miles else elim latest [
        | none ↦ err mileage_unknown
        | some reading ↦ if leb_ℤ miles reading then err miles_low else ok (some miles)
      ]
    ]

abbrev pub not_empty : Option Date → Option ℤ → Result SnoozeError Snooze
not_empty none none = err empty
not_empty on miles = ok (snooze on miles)

unfoldable pub custom_snooze : Text → Text → Date → Option ℤ → Result SnoozeError Snooze
unfolding custom_date custom_miles
custom_snooze until_on until_miles today latest = do
  on ← custom_date (trim_space until_on) today
  miles ← custom_miles (trim_space until_miles) latest
  not_empty on miles

abbrev pub plus_step : Option ℤ → Result SnoozeError Snooze
plus_step none = err mileage_unknown
plus_step (some reading) = ok (snooze none (some (reading +int64 snooze_mile_step)))

unfoldable pub resolve_snooze : Text → Text → Text → Date → Option ℤ → Result SnoozeError Snooze
unfolding custom_snooze
resolve_snooze preset until_on until_miles today latest =
    let choice = trim_space preset in
    if text_eq choice (text "2w")
    then ok (snooze (some (add_days 14 today)) none)
    else if text_eq choice (text "1m")
    then ok (snooze (some (add_one_month today)) none)
    else if text_eq choice (text "500mi")
    then plus_step latest
    else if text_eq choice (text "clear")
    then ok (snooze none none)
    else if text_eq choice (text "custom")
    then custom_snooze until_on until_miles today latest
    else err bad_preset

abbrev pub date_holds : Option Date → Date → List Text
date_holds none today = []
date_holds (some until) today = if before today until then format_date until ∷ [] else []

-- An unknown mileage has not passed.
abbrev pub miles_hold : Option ℤ → Option ℤ → List Text
miles_hold none latest = []
miles_hold (some until) none = (group_thousands until ++ text " mi") ∷ []
miles_hold (some until) (some reading) =
    if ltb_ℤ reading until then (group_thousands until ++ text " mi") ∷ [] else []

abbrev pub phrase : List Text → Option Text
phrase [] = none
phrase (p ∷ ps) = some (text "snoozed until " ++ join (text " and ") (p ∷ ps))

-- The phrase that describes the snooze, while it holds.
unfoldable pub active_snooze : {F : Type 0} → Reminder F → Date → Option Text
active_snooze r today =
    phrase
      (date_holds r.snoozed_until_on today ++ miles_hold r.snoozed_until_miles r.latest_odometer)
