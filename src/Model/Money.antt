-- ===== src/Model/Money.antt =====
-- Entered amounts (ParseCents and AddCents of internal/model/spend.go, ParseOdometerMiles of
-- internal/model/odometer.go).
pub mod Facts
use carma.Base.{
  ℕ, zero, suc, ◌+◌, ◌-◌, ◌*◌, ◌/◌, Bool, true, false, not, ◌&&◌, ◌||◌, Option, none, some, List,
  [], ◌∷◌, ◌++◌, ltb, leb, ◌==◌, if◌then◌else◌, length, filter,
}
use carma.Base.Int.{
  ℤ, pos, negsuc, pos_part, neg_part, ◌+ℤ◌, ◌-ℤ◌, ◌+int64◌, ◌-int64◌, ltb_ℤ, leb_ℤ, max_int64,
  min_int64,
}
use carma.Base.Text.{Text, text, text_eq, trim_space, starts_with, split}
use carma.Base.Decimal.{parse_int64}
use carma.Base.Digits.{remove_commas}

-- strings.TrimPrefix(s, "$")
unfoldable pub trim_dollar : Text → Text
trim_dollar [] = []
trim_dollar (c ∷ s) = if c == b'$' then s else c ∷ s

-- One decimal place is tenths of a dollar.
abbrev pub pad_cents : Text → Text
pad_cents (c ∷ []) = c ∷ b'0' ∷ []
pad_cents s = s

-- The part behind the point: nothing at all is no cents.
unfoldable pub fraction : Text → Option ℤ
fraction s =
    let padded = pad_cents s in if text_eq padded [] then some (pos 0) else parse_int64 padded

-- Go's integer division by 100 rounds towards 0.
abbrev pub div_100 : ℤ → ℤ
div_100 (pos n) = pos (n / 100)
div_100 (negsuc n) = pos 0 -ℤ pos (suc n / 100)

-- The test and the sum at the end of ParseCents, on int64: `math.MaxInt64 - frac` wraps where the
-- fraction is negative. `whole` is not negative here.
unfoldable pub whole_and_fraction : ℤ → ℤ → Option ℤ
whole_and_fraction whole frac =
    if ltb_ℤ (div_100 (max_int64 -int64 frac)) whole
    then none
    else some (pos (pos_part whole * 100) +int64 frac)

unfoldable pub whole_part : Text → Option ℤ
whole_part s = if text_eq s [] || starts_with s (text "-") then none else elim (parse_int64 s) [
  | none ↦ none
  | some whole ↦ if ltb_ℤ whole (pos 0) then none else some whole
]

abbrev pub combine : Option ℤ → Option ℤ → Option ℤ
combine (some whole) (some frac) = whole_and_fraction whole frac
combine _ _ = none

-- More than one point is an error, as are more than two decimals.
unfoldable pub parse_parts : List Text → Option ℤ
parse_parts (a ∷ []) = combine (whole_part a) (some (pos 0))
parse_parts (a ∷ b ∷ []) = if ltb 2 (length b) then none else combine (whole_part a) (fraction b)
parse_parts _ = none

unfoldable pub parse_cents : Text → Option ℤ
parse_cents raw = parse_parts (split b'.' (trim_space (trim_dollar (remove_commas raw))))

-- Addition that stops at the limits of an int64.
unfoldable pub add_cents : ℤ → ℤ → ℤ
add_cents a b =
    if ltb_ℤ (pos 0) b && ltb_ℤ (max_int64 -ℤ b) a
    then max_int64
    else if ltb_ℤ b (pos 0) && ltb_ℤ a (min_int64 -ℤ b)
    then min_int64
    else a +ℤ b

unfoldable pub parse_odometer_miles : Text → Option ℤ
parse_odometer_miles raw = elim (parse_int64 (trim_space raw)) [
  | none ↦ none
  | some miles ↦ if ltb_ℤ miles (pos 0) then none else some miles
]
