-- ===== src/Reminder/Format/Grouping.antt =====
-- Grouped numbers: the commas are the only thing added, and there is one for every three digits.
use carma.Base.{
  ℕ, zero, suc, ◌+◌, ◌-◌, ◌/◌, ◌<◌, ◌≡◌, refl, sym, ap, ◌∙◌, some, ◌∷◌, ◌++◌, arith, length, take,
  drop, length-append, take-append-drop, length-take, length-drop,
}
use carma.Base.Int.{ℤ, pos}
use carma.Base.Text.{Text}
use carma.Base.Decimal.{format_int, decimal, parse_int64, decimal-digits, parse_int64-decimal}
use carma.Base.Digits.{remove_commas, remove_commas-append, remove_commas_of_digits}
use carma.Reminder.Format.{insert_comma, group_from, group_thousands}

remove_commas-insert_comma : (i : ℕ) (s : Text) → remove_commas (insert_comma i s) ≡ remove_commas s
remove_commas-insert_comma i s =
    remove_commas-append (take i s) (b',' ∷ drop i s)
    ∙ ap (λ r. remove_commas (take i s) ++ r) (comma_only (drop i s))
    ∙ sym (remove_commas-append (take i s) (drop i s))
    ∙ ap remove_commas (take-append-drop i s)
  where
    comma_only : (t : Text) → remove_commas (b',' ∷ t) ≡ remove_commas t
    comma_only t = unfold remove_commas in refl

remove_commas-group_from : (i : ℕ) (s : Text) → remove_commas (group_from i s) ≡ remove_commas s
unfolding group_from
remove_commas-group_from zero s = refl
remove_commas-group_from (suc zero) s = remove_commas-insert_comma 1 s
remove_commas-group_from (suc (suc zero)) s = remove_commas-insert_comma 2 s
remove_commas-group_from (suc (suc (suc i))) s =
    remove_commas-group_from i (insert_comma (suc (suc (suc i))) s)
    ∙ remove_commas-insert_comma (suc (suc (suc i))) s

-- A nonnegative int64 that groupThousands prints is read back, once its commas are removed, by
-- strconv.ParseInt.
pub parse_int64-group_thousands :
    (n : ℕ)
    → n < 9223372036854775808
    → parse_int64 (remove_commas (group_thousands (pos n))) ≡ some (pos n)
unfolding group_thousands format_int
parse_int64-group_thousands n lt =
    ap parse_int64 (
      remove_commas-group_from (length (decimal n) - 3) (decimal n)
      ∙ remove_commas_of_digits (decimal n) (decimal-digits n))
    ∙ parse_int64-decimal n lt

length-insert_comma : (i : ℕ) (s : Text) → length (insert_comma i s) ≡ length s + 1
length-insert_comma i s =
    omega (arith, length-append (take i s) (b',' ∷ drop i s), length-take i s, length-drop i s)

length-group_from : (i : ℕ) (s : Text) → length (group_from i s) ≡ length s + (i + 2) / 3
unfolding group_from
length-group_from zero s = omega arith
length-group_from (suc zero) s = omega (arith, length-insert_comma 1 s)
length-group_from (suc (suc zero)) s = omega (arith, length-insert_comma 2 s)
length-group_from (suc (suc (suc i))) s = omega (
  arith,
  length-group_from i (insert_comma (suc (suc (suc i))) s),
  length-insert_comma (suc (suc (suc i))) s,
)

-- groupThousands adds a comma for each full three digits that stand behind the first.
pub length-group_thousands :
    (n : ℤ) → length (group_thousands n) ≡ length (format_int n) + (length (format_int n) - 1) / 3
unfolding group_thousands
length-group_thousands n =
    omega (arith, length-group_from (length (format_int n) - 3) (format_int n))
