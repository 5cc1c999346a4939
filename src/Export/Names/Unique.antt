-- ===== src/Export/Names/Unique.antt =====
-- Each sheet of a workbook gets a name of its own that meets the rules.
use carma.Base.{
  ℕ, suc, ◌-◌, ◌<◌, ◌≤◌, ◌≡◌, ◌≢◌, refl, ◌∙◌, true, false, Option, none, some, List, [], ◌∷◌, ◌++◌,
  all, length, arith,
}
use carma.Base.Text.{Text, to_lower}
use carma.Base.Decimal.{decimal, is_digit, decimal-digits}
use carma.Export.Names.{
  xlsx_sheet_limit, trim_sheet_edges, utf16_length, truncate_utf16, sheet_title, suffix, numbered,
  is_used, unique_sheet_name,
}
use carma.Export.Names.Free.{Found, name_loop-Found, unique_sheet_name-ne-none}
use carma.Export.Names.Trim.{
  allowed_char, starts_quote, ends_quote, all-append_of, starts_quote-trim, all-trim, length-trim,
  length-cut, all-cut,
}
use carma.Export.Names.Rules.{
  IsSheetName, sheet_title-IsSheetName, length-append_utf16, decimal-short,
}

digits_allowed : (s : Text) → all is_digit s ≡ true → all allowed_char s ≡ true
digits_allowed [] h = refl
digits_allowed (c ∷ s) h = ground (arith, digits_allowed s)

ends_quote-append : (s t : Text) (c : ℕ) → ends_quote (s ++ c ∷ t) ≡ ends_quote (c ∷ t)
ends_quote-append [] t c = refl
ends_quote-append (a ∷ []) t c = refl
ends_quote-append (a ∷ b ∷ s) t c = ends_quote-append (b ∷ s) t c

starts_quote-append : (s t : Text) → starts_quote s ≡ false → starts_quote (s ++ 32 ∷ t) ≡ false
starts_quote-append [] t h = refl
starts_quote-append (c ∷ s) t h = h

append-ne-nil : (s t : Text) (c : ℕ) → s ++ c ∷ t ≢ []
append-ne-nil [] t c h = cc
append-ne-nil (a ∷ s) t c h = cc

suffix-length : (n : ℕ) → n < 10000000 → utf16_length (suffix n) ≤ 10
unfolding utf16_length
suffix-length n h = omega (arith, length-append_utf16 (decimal n) (b')' ∷ []), decimal-short n h)

module _ (base : Text) (n : ℕ) (base_allowed : all allowed_char base ≡ true)
    (small : n < 10000000) where
  prefix : Text
  prefix = trim_sheet_edges (truncate_utf16 base (xlsx_sheet_limit - utf16_length (suffix n)))

  prefix-length : utf16_length prefix ≤ xlsx_sheet_limit - utf16_length (suffix n)
  unfolding prefix
  prefix-length = omega (
    arith,
    length-trim (truncate_utf16 base (xlsx_sheet_limit - utf16_length (suffix n))),
    length-cut base (xlsx_sheet_limit - utf16_length (suffix n)),
  )

  suffix_allowed : all allowed_char (suffix n) ≡ true
  suffix_allowed =
      all-append_of allowed_char (decimal n) (b')' ∷ [])
        (digits_allowed (decimal n) (decimal-digits n)) refl

  numbered-IsSheetName : IsSheetName (numbered base n)
  unfolding numbered prefix
  numbered-IsSheetName = record {
    not_blank = append-ne-nil prefix (b'(' ∷ (decimal n ++ b')' ∷ [])) 32;
    short =
        omega (arith, length-append_utf16 prefix (suffix n), prefix-length, suffix-length n small);
    characters =
        all-append_of allowed_char prefix (suffix n)
          (all-trim allowed_char (truncate_utf16 base (xlsx_sheet_limit - utf16_length (suffix n)))
            (all-cut allowed_char base (xlsx_sheet_limit - utf16_length (suffix n)) base_allowed))
          suffix_allowed;
    start =
        starts_quote-append prefix (b'(' ∷ (decimal n ++ b')' ∷ []))
          (starts_quote-trim (truncate_utf16 base (xlsx_sheet_limit - utf16_length (suffix n))));
    end =
        ends_quote-append prefix (b'(' ∷ (decimal n ++ b')' ∷ [])) 32
        ∙ ends_quote-append (32 ∷ b'(' ∷ decimal n) [] b')';
  }

-- A name was found: it meets the rules, it is not taken up to case, and it is taken from then on.
abbrev pub IsNamed : List Text → Option (Text × List Text) → Type 0
IsNamed used none = ⊥
IsNamed used (some (sheet, taken)) =
    IsSheetName sheet × (is_used sheet used ≡ false) × (taken ≡ to_lower sheet ∷ used)

Found-IsNamed :
    (used : List Text) (o : Option (Text × List Text))
    → o ≢ none
    → Found IsSheetName used o
    → IsNamed used o
Found-IsNamed used none found h = absurd (found refl)
Found-IsNamed used (some named) found h = h

-- The search for a sheet's name ends, while fewer than a million names are taken, and the name is not
-- taken, up to the case of ASCII letters. It is not blank, it has at most 31 UTF-16 units, it has no
-- reserved character and it neither starts nor ends with an apostrophe.
pub unique_sheet_name-IsNamed :
    (name : Text) (used : List Text)
    → length used < 1000000
    → IsNamed used (unique_sheet_name name used)
unfolding unique_sheet_name
unique_sheet_name-IsNamed name used room =
    Found-IsNamed used (unique_sheet_name name used) (unique_sheet_name-ne-none name used) (
      name_loop-Found IsSheetName (sheet_title name) 10000000
        (λ n small. numbered-IsSheetName (sheet_title name) n title.characters small)
        (suc (suc (length used))) 2 (sheet_title name) used (omega arith) title)
  where
    title : IsSheetName (sheet_title name)
    title = sheet_title-IsSheetName name
