-- ===== src/Model/Spend/Order.antt =====
-- Packed dates compare as dates do.
use carma.Base.{◌<◌, ◌≡◌, true, ◌↔◌, arith}
use carma.Calendar.{Date, before}
use carma.Calendar.Days.{IsValid, days_in_month_bounds}
use carma.Model.Spend.{date_ordinal}

-- Of two dates the earlier has the smaller packed number.
pub date_ordinal-before :
    (a b : Date) → IsValid a → IsValid b → (before a b ≡ true) ↔ (date_ordinal a < date_ordinal b)
unfolding before date_ordinal
date_ordinal-before a b va vb =
    ground (arith, days_in_month_bounds a.year a.month, days_in_month_bounds b.year b.month)
