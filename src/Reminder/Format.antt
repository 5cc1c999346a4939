-- ===== src/Reminder/Format.antt =====
-- The phrases of a reminder's detail: groupThousands and shortDate of internal/reminder/reminder.go,
-- and the layouts of time.Format that they and the emails use.
pub mod Grouping
use carma.Base.{
  ℕ, zero, suc, ◌+◌, ◌-◌, ◌/◌, ◌%◌, List, [], ◌∷◌, ◌++◌, ltb, if◌then◌else◌, length, take, drop,
}
use carma.Base.Int.{ℤ}
use carma.Base.Text.{Text, text}
use carma.Base.Decimal.{decimal, format_int}
use carma.Calendar.{Date, after, add_months}

-- digits[:i] + "," + digits[i:]
abbrev pub insert_comma : ℕ → Text → Text
insert_comma i digits = take i digits ++ b',' ∷ drop i digits

-- The loop, which goes on while i > 0 and takes 3 from i; a negative i is 0 here.
unfoldable pub group_from : ℕ → Text → Text
group_from zero digits = digits
group_from (suc zero) digits = insert_comma 1 digits
group_from (suc (suc zero)) digits = insert_comma 2 digits
group_from (suc (suc (suc i))) digits = group_from i (insert_comma (suc (suc (suc i))) digits)

unfoldable pub group_thousands : ℤ → Text
unfolding group_from
group_thousands n = let digits = format_int n in group_from (length digits - 3) digits

unfoldable pub month_name : ℕ → Text
month_name (suc zero) = text "January"
month_name (suc (suc zero)) = text "February"
month_name (suc (suc (suc zero))) = text "March"
month_name (suc (suc (suc (suc zero)))) = text "April"
month_name (suc (suc (suc (suc (suc zero))))) = text "May"
month_name (suc (suc (suc (suc (suc (suc zero)))))) = text "June"
month_name (suc (suc (suc (suc (suc (suc (suc zero))))))) = text "July"
month_name (suc (suc (suc (suc (suc (suc (suc (suc zero)))))))) = text "August"
month_name (suc (suc (suc (suc (suc (suc (suc (suc (suc zero))))))))) = text "September"
month_name (suc (suc (suc (suc (suc (suc (suc (suc (suc (suc zero)))))))))) = text "October"
month_name (suc (suc (suc (suc (suc (suc (suc (suc (suc (suc (suc zero))))))))))) = text "November"
month_name _ = text "December"

-- Format("Jan 2")
unfoldable pub format_day : Date → Text
unfolding month_name
format_day t = take 3 (month_name t.month) ++ text " " ++ decimal t.day

-- A year is printed with at least four digits.
unfoldable pub format_year : ℕ → Text
format_year y =
    if ltb y 10
    then text "000" ++ decimal y
    else if ltb y 100
    then text "00" ++ decimal y
    else if ltb y 1000
    then text "0" ++ decimal y
    else decimal y

-- Format("Jan 2, 2006")
unfoldable pub format_date : Date → Text
unfolding format_day format_year
format_date t = format_day t ++ text ", " ++ format_year t.year

-- Format("January 2, 2006")
unfoldable pub format_long_date : Date → Text
unfolding month_name format_year
format_long_date t =
    month_name t.month ++ text " " ++ decimal t.day ++ text ", " ++ format_year t.year

unfoldable pub short_date : Date → Date → Text
unfolding format_day format_date
short_date t today = if after t (add_months 6 today) then format_date t else format_day t
