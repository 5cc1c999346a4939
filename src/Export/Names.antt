-- ===== src/Export/Names.antt =====
-- The names of the sheets of a workbook (sheetTitle, truncateUTF16 and uniqueSheetName of
-- internal/export/xlsx.go). The texts are lists of runes here.
pub mod Trim
pub mod Rules
pub mod Free
pub mod Unique
use carma.Base.{
  ℕ, zero, suc, ◌+◌, ◌-◌, Bool, true, false, ◌||◌, Option, none, some, List, [], ◌∷◌, ◌++◌, ltb,
  leb, ◌==◌, if◌then◌else◌, map, any, length,
}
use carma.Base.Text.{Text, text, text_eq, drop_while, drop_while_end, join, fields, to_lower}
use carma.Base.Decimal.{decimal}

abbrev pub xlsx_sheet_limit : ℕ
xlsx_sheet_limit = 31

abbrev pub is_reserved : ℕ → Bool
is_reserved c =
    c == b':' || c == b'\\' || c == b'/' || c == b'?' || c == b'*' || c == b'[' || c == b']'

abbrev pub unreserved : ℕ → ℕ
unreserved c = if is_reserved c then 32 else c

abbrev pub is_edge : ℕ → Bool
is_edge c = c == b'\'' || c == 32

unfoldable pub trim_sheet_edges : Text → Text
trim_sheet_edges name = drop_while_end is_edge (drop_while is_edge name)

abbrev pub utf16_width : ℕ → ℕ
utf16_width c = if ltb 65535 c then 2 else 1

-- len(utf16.Encode([]rune(s)))
unfoldable pub utf16_length : Text → ℕ
utf16_length [] = 0
utf16_length (c ∷ s) = utf16_width c + utf16_length s

unfoldable pub truncate_from : ℕ → ℕ → Text → Text
truncate_from units limit [] = []
truncate_from units limit (c ∷ s) =
    let rest = truncate_from (units + utf16_width c) limit s in
    if ltb limit (units + utf16_width c) then [] else c ∷ rest

-- A limit below 0 gives nothing, as the limit 0 does.
unfoldable pub truncate_utf16 : Text → ℕ → Text
unfolding truncate_from
truncate_utf16 value limit = truncate_from 0 limit value

abbrev pub or_vehicle : Text → Text
or_vehicle [] = text "Vehicle"
or_vehicle (c ∷ s) = c ∷ s

abbrev pub cut_title : Text → Text
cut_title cleaned =
    if leb (utf16_length cleaned) xlsx_sheet_limit
    then cleaned
    else or_vehicle (trim_sheet_edges (truncate_utf16 cleaned xlsx_sheet_limit))

unfoldable pub sheet_title : Text → Text
unfolding trim_sheet_edges utf16_length truncate_utf16
sheet_title name =
    let cleaned = trim_sheet_edges (join (text " ") (fields (map unreserved name))) in
    if text_eq cleaned [] then text "Vehicle" else cut_title cleaned

abbrev pub suffix : ℕ → Text
suffix n = 32 ∷ b'(' ∷ (decimal n ++ b')' ∷ [])

unfoldable pub numbered : Text → ℕ → Text
unfolding trim_sheet_edges utf16_length truncate_utf16
numbered base n =
    trim_sheet_edges (truncate_utf16 base (xlsx_sheet_limit - utf16_length (suffix n))) ++ suffix n

-- Is the name taken, up to case?
abbrev pub is_used : Text → List Text → Bool
is_used candidate used = any (text_eq (to_lower candidate)) used

-- `n` is the number of the next candidate. Fuel 0 stands for a loop that goes on.
unfoldable pub name_loop : ℕ → ℕ → Text → Text → List Text → Option (Text × List Text)
unfolding numbered
name_loop zero n base candidate used = none
name_loop (suc fuel) n base candidate used =
    let rest = name_loop fuel (suc n) base (numbered base n) used in
    if is_used candidate used then rest else some (candidate, to_lower candidate ∷ used)

-- Two candidates more than names are taken.
unfoldable pub unique_sheet_name : Text → List Text → Option (Text × List Text)
unfolding sheet_title name_loop
unique_sheet_name name used =
    name_loop (suc (suc (length used))) 2 (sheet_title name) (sheet_title name) used
