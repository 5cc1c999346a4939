-- ===== src/Calendar/Zone.antt =====
-- A *time.Location: which calendar date an instant falls on, and when a date begins there. It is a
-- parameter of the definitions that place an instant in the household's time zone.
use carma.Base.{ℕ, suc, ◌+◌, ◌%◌}
use carma.Base.Int.{ℤ, pos, negsuc}
use carma.Calendar.{Date, add_days, sub_days}
use carma.Calendar.Days.{day_number}

pub record Zone : Type 0 where
  pub date_of : ℕ → Date
  pub midnight : Date → ℕ

-- reminder.Today, as the date at whose midnight it stands.
unfoldable pub today : ℕ → Zone → Date
today now zone = zone.date_of now

-- t.AddDate(0, 0, n)
unfoldable pub add_days_ℤ : ℤ → Date → Date
add_days_ℤ (pos n) t = add_days n t
add_days_ℤ (negsuc n) t = sub_days (suc n) t

-- t.Weekday(), Sunday first; the first day of year 0 is a Saturday.
unfoldable pub weekday : Date → ℕ
weekday t = (day_number t + 6) % 7
