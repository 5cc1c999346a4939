-- ===== src/Ui/RoundTrip.antt =====
-- The record form reads back the amounts that the pages print.
use carma.Base.{
  ℕ, ◌/◌, ◌%◌, ◌<◌, ◌≡◌, ◌≢◌, refl, ap, ap₂, ◌∙◌, true, some, [], ◌∷◌, ◌++◌, arith, all, all-append,
}
use carma.Base.Int.{pos, ◌+ℤ◌, ◌-ℤ◌, ◌+int64◌, ◌-int64◌, wrap64}
use carma.Base.Text.{Text, text_eq, trim_space, starts_with, split}
use carma.Base.Decimal.{
  parse_int64, parse_digits, decimal, is_digit, decimal-digits, decimal-ne-nil, parse_int64-decimal,
  parse_int64_of_digits,
}
use carma.Base.Digits.{
  remove_commas, remove_commas-append, remove_commas_of_digits, solid, solid_of_digits,
  trim_space-solid, split_of_digits, split_at_point,
}
use carma.Model.Money.{
  trim_dollar, fraction, whole_and_fraction, whole_part, parse_parts, parse_cents,
}
use carma.Ui.{two_digits, dollars}

two_digits-digits : (k : ℕ) → k < 100 → all is_digit (two_digits k) ≡ true
two_digits-digits k h = ground arith

fraction-two_digits : (k : ℕ) → k < 100 → fraction (two_digits k) ≡ some (pos k)
unfolding fraction text_eq
fraction-two_digits k h =
    parse_int64_of_digits (two_digits k) k (λ e. cc) (two_digits-digits k h) value (omega arith)
  where
    value : parse_digits 0 (two_digits k) ≡ some k
    value = unfold parse_digits in ground arith

whole_part_of_digits :
    (s : Text) (n : ℕ)
    → s ≢ []
    → all is_digit s ≡ true
    → parse_int64 s ≡ some (pos n)
    → whole_part s ≡ some (pos n)
unfolding whole_part text_eq starts_with
whole_part_of_digits [] n ne d h = absurd (ne refl)
whole_part_of_digits (c ∷ s) n ne d h = ground arith

rejoin :
    (n : ℕ)
    → n < 9223372036854775808
    → whole_and_fraction (pos (n / 100)) (pos (n % 100)) ≡ some (pos n)
unfolding whole_and_fraction ◌-int64◌ ◌+int64◌ wrap64 ◌+ℤ◌ ◌-ℤ◌
rejoin n h = ground arith

module _ (whole cents : Text) (w : all is_digit whole ≡ true) (c : all is_digit cents ≡ true) where
  untouched : remove_commas (b'$' ∷ whole ++ b'.' ∷ cents) ≡ b'$' ∷ whole ++ b'.' ∷ cents
  untouched =
      dollar (whole ++ b'.' ∷ cents)
      ∙ ap (λ t. b'$' ∷ t)
          (remove_commas-append whole (b'.' ∷ cents)
            ∙ ap₂ ◌++◌ (remove_commas_of_digits whole w)
                (point cents ∙ ap (λ t. b'.' ∷ t) (remove_commas_of_digits cents c)))
    where
      dollar : (t : Text) → remove_commas (b'$' ∷ t) ≡ b'$' ∷ remove_commas t
      dollar t = unfold remove_commas in refl

      point : (t : Text) → remove_commas (b'.' ∷ t) ≡ b'.' ∷ remove_commas t
      point t = unfold remove_commas in refl

  all-solid : all solid (whole ++ b'.' ∷ cents) ≡ true
  all-solid = ground (
    arith,
    all-append solid whole (b'.' ∷ cents),
    solid_of_digits whole w,
    solid_of_digits cents c,
  )

  parts : parse_cents (b'$' ∷ whole ++ b'.' ∷ cents) ≡ parse_parts (whole ∷ cents ∷ [])
  unfolding parse_cents
  parts =
      ap (λ t. parse_parts (split b'.' (trim_space (trim_dollar t)))) untouched
      ∙ ap (λ t. parse_parts (split b'.' t))
          (dollar_off ∙ trim_space-solid (whole ++ b'.' ∷ cents) all-solid)
      ∙ ap parse_parts
          (split_at_point whole cents w ∙ ap (λ ps. whole ∷ ps) (split_of_digits cents c))
    where
      dollar_off :
          trim_space (trim_dollar (b'$' ∷ whole ++ b'.' ∷ cents))
          ≡ trim_space (whole ++ b'.' ∷ cents)
      dollar_off = unfold trim_dollar in refl

-- ParseCents reads back what Dollars prints of a nonnegative int64 of cents.
pub parse_cents-dollars :
    (n : ℕ) → n < 9223372036854775808 → parse_cents (dollars (pos n)) ≡ some (pos n)
unfolding dollars
parse_cents-dollars n h =
    parts (decimal (n / 100)) (two_digits (n % 100)) (decimal-digits (n / 100))
      (two_digits-digits (n % 100) (omega arith))
    ∙ (unfold parse_parts in rw (whole, cents) (rejoin n h))
  where
    whole : whole_part (decimal (n / 100)) ≡ some (pos (n / 100))
    whole =
        whole_part_of_digits (decimal (n / 100)) (n / 100) (decimal-ne-nil (n / 100))
          (decimal-digits (n / 100)) (parse_int64-decimal (n / 100) (omega arith))

    cents : fraction (two_digits (n % 100)) ≡ some (pos (n % 100))
    cents = fraction-two_digits (n % 100) (omega arith)
