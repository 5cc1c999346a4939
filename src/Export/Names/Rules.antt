-- ===== src/Export/Names/Rules.antt =====
-- The names meet the rules for sheets: the length, the characters and the edges.
use carma.Base.{
  ℕ, zero, suc, ◌+◌, ◌*◌, ◌/◌, ◌%◌, ◌<◌, ◌≤◌, ◌≡◌, ◌≢◌, refl, sym, ap, ◌∙◌, inl, inr, Bool, true,
  false, List, [], ◌∷◌, ◌++◌, ltb, leb, leb→le, map, reverse, all, Bool-cases, arith,
}
use carma.Base.Text.{
  Text, text, text_eq, text_eq_iff, is_space, join, fields, fields_from, add_field,
}
use carma.Base.Decimal.{decimal, decimal_from}
use carma.Export.Names.{
  xlsx_sheet_limit, is_reserved, unreserved, trim_sheet_edges, utf16_length, truncate_utf16,
  or_vehicle, cut_title, sheet_title,
}
use carma.Export.Names.Trim.{
  allowed_char, starts_quote, ends_quote, all-append_of, starts_quote-trim, ends_quote-trim,
  all-trim, length-trim, length-cut, all-cut,
}
use mathlib.Core.List.{reverse-cons}

-- The rules for the name of a sheet.
pub record IsSheetName (s : Text) : Type 0 where
  pub not_blank : s ≢ []
  pub short : utf16_length s ≤ xlsx_sheet_limit
  pub characters : all allowed_char s ≡ true
  pub start : starts_quote s ≡ false
  pub end : ends_quote s ≡ false

all-reverse : (p : ℕ → Bool) (s : Text) → all p s ≡ true → all p (reverse s) ≡ true
all-reverse p [] h = refl
all-reverse p (c ∷ s) h =
    ap (all p) (reverse-cons c s)
    ∙ all-append_of p (reverse s) (c ∷ []) (all-reverse p s (ground arith)) (ground arith)

-- The words of a text have characters of the text only.
abbrev all_words : (ℕ → Bool) → List Text → Bool
all_words p words = all (all p) words

all_words-add_field :
    (p : ℕ → Bool) (w : Text) (words : List Text)
    → all p w ≡ true
    → all_words p words ≡ true
    → all_words p (add_field w words) ≡ true
all_words-add_field p [] words h k = k
all_words-add_field p (c ∷ w) words h k = ground arith

all_words-fields_from :
    (p : ℕ → Bool) (word s : Text)
    → all p word ≡ true
    → all p s ≡ true
    → all_words p (fields_from word s) ≡ true
unfolding fields_from
all_words-fields_from p word [] h k =
    all_words-add_field p (reverse word) [] (all-reverse p word h) refl
all_words-fields_from p word (c ∷ s) h k = elim (Bool-cases (is_space c)) [
  | inl blank ↦ simp blank (
      all_words-add_field p (reverse word) (fields_from [] s) (all-reverse p word h)
        (all_words-fields_from p [] s refl (ground arith)))
  | inr solid ↦ simp solid (all_words-fields_from p (c ∷ word) s (ground arith) (ground arith))
]

all-join :
    (p : ℕ → Bool) (words : List Text)
    → p 32 ≡ true
    → all_words p words ≡ true
    → all p (join (text " ") words) ≡ true
unfolding join
all-join p [] blank h = refl
all-join p (w ∷ []) blank h = ground arith
all-join p (w ∷ v ∷ words) blank h =
    all-append_of p (w ++ 32 ∷ []) (join (text " ") (v ∷ words))
      (all-append_of p w (32 ∷ []) (ground arith) (ground arith))
      (all-join p (v ∷ words) blank (ground arith))

all-unreserved : (s : Text) → all allowed_char (map unreserved s) ≡ true
all-unreserved [] = refl
all-unreserved (c ∷ s) = elim (Bool-cases (is_reserved c)) [
  | inl bad ↦ simp bad (all-unreserved s)
  | inr fine ↦ simp (fine, all-unreserved s) refl
]

vehicle-IsSheetName : IsSheetName (text "Vehicle")
unfolding utf16_length
vehicle-IsSheetName = record {
  not_blank = λ e. cc;
  short = omega arith;
  characters = refl;
  start = refl;
  end = refl;
}

or_vehicle-IsSheetName :
    (s : Text)
    → utf16_length s ≤ xlsx_sheet_limit
    → all allowed_char s ≡ true
    → starts_quote s ≡ false
    → ends_quote s ≡ false
    → IsSheetName (or_vehicle s)
or_vehicle-IsSheetName [] l a b e = vehicle-IsSheetName
or_vehicle-IsSheetName (c ∷ s) l a b e = record {
  not_blank = λ h. cc;
  short = l;
  characters = a;
  start = b;
  end = e;
}

trimmed_title : Text → Text
trimmed_title name = trim_sheet_edges (join (text " ") (fields (map unreserved name)))

trimmed_title-characters : (name : Text) → all allowed_char (trimmed_title name) ≡ true
unfolding trimmed_title fields
trimmed_title-characters name =
    all-trim allowed_char (join (text " ") (fields (map unreserved name))) (
      all-join allowed_char (fields (map unreserved name)) refl
        (all_words-fields_from allowed_char [] (map unreserved name) refl (all-unreserved name)))

cut_title-IsSheetName :
    (s : Text)
    → s ≢ []
    → all allowed_char s ≡ true
    → starts_quote s ≡ false
    → ends_quote s ≡ false
    → IsSheetName (cut_title s)
cut_title-IsSheetName s ne a b e = elim (Bool-cases (leb (utf16_length s) xlsx_sheet_limit)) [
  | inl short ↦
      simp short
        (record { not_blank = ne; short = leb→le _ _ short; characters = a; start = b; end = e })
  | inr long ↦ simp long (
      or_vehicle-IsSheetName (trim_sheet_edges (truncate_utf16 s xlsx_sheet_limit))
        (omega
          (arith, length-trim (truncate_utf16 s xlsx_sheet_limit), length-cut s xlsx_sheet_limit))
        (all-trim allowed_char _ (all-cut allowed_char s xlsx_sheet_limit a))
        (starts_quote-trim (truncate_utf16 s xlsx_sheet_limit))
        (ends_quote-trim (truncate_utf16 s xlsx_sheet_limit)))
]

pub sheet_title-IsSheetName : (name : Text) → IsSheetName (sheet_title name)
unfolding sheet_title trimmed_title
sheet_title-IsSheetName name = elim (Bool-cases (text_eq (trimmed_title name) [])) [
  | inl blank ↦ rw blank vehicle-IsSheetName
  | inr solid ↦ rw solid (
      cut_title-IsSheetName (trimmed_title name)
        (λ e. cc (sym solid ∙ (text_eq_iff (trimmed_title name) []).1 e))
        (trimmed_title-characters name)
        (starts_quote-trim (join (text " ") (fields (map unreserved name))))
        (ends_quote-trim (join (text " ") (fields (map unreserved name)))))
]

pub length-append_utf16 : (s t : Text) → utf16_length (s ++ t) ≡ utf16_length s + utf16_length t
unfolding utf16_length
length-append_utf16 [] t = omega arith
length-append_utf16 (c ∷ s) t = omega (arith, length-append_utf16 s t)

tens : ℕ → ℕ
tens zero = 1
tens (suc k) = 10 * tens k

decimal_from-short : (k fuel n : ℕ) → n < tens (suc k) → utf16_length (decimal_from fuel n) ≤ suc k
unfolding tens decimal_from utf16_length
decimal_from-short k zero n h = omega arith
decimal_from-short zero (suc fuel) n h = ground arith
decimal_from-short (suc k) (suc fuel) n h = elim (Bool-cases (ltb n 10)) [
  | inl small ↦ simp small (ground arith)
  | inr big ↦ simp big (longer (decimal_from-short k fuel (n / 10) (omega (arith, h))))
]
  where
    longer :
        utf16_length (decimal_from fuel (n / 10)) ≤ suc k
        → utf16_length (decimal_from fuel (n / 10) ++ (48 + n % 10) ∷ []) ≤ suc (suc k)
    longer l = ground (arith, length-append_utf16 (decimal_from fuel (n / 10)) ((48 + n % 10) ∷ []))

pub decimal-short : (n : ℕ) → n < 10000000 → utf16_length (decimal n) ≤ 7
unfolding decimal tens
decimal-short n h = decimal_from-short 6 (suc n) n h
