-- ===== src/Base/Decimal.antt =====
-- strconv.FormatInt, strconv.Itoa and strconv.ParseInt in base 10.
use carma.Base.{
  ℕ, zero, suc, ◌+◌, ◌-◌, ◌*◌, ◌/◌, ◌%◌, ◌≤◌, ◌<◌, ◌≡◌, refl, ap, Bool, true, ◌&&◌, Option, none,
  some, [], ◌∷◌, ◌++◌, arith, ltb, leb, ◌==◌, if◌then◌else◌, Bool-cases, all, all-append, inl, inr,
  ◌≢◌,
}
use carma.Base.Int.{ℤ, pos, negsuc}
use carma.Base.Text.{Text}

-- The digits of a number, the highest first; enough fuel is one more than the number.
unfoldable pub decimal_from : ℕ → ℕ → Text
decimal_from zero n = []
decimal_from (suc f) n =
    let higher = decimal_from f (n / 10) in
    if ltb n 10 then (48 + n) ∷ [] else higher ++ (48 + n % 10) ∷ []

unfoldable pub decimal : ℕ → Text
unfolding decimal_from
decimal n = decimal_from (suc n) n

unfoldable pub format_int : ℤ → Text
unfolding decimal
format_int (pos n) = decimal n
format_int (negsuc n) = b'-' ∷ decimal (suc n)

abbrev pub is_digit : ℕ → Bool
is_digit c = leb 48 c && leb c 57

unfoldable pub parse_digits : ℕ → Text → Option ℕ
parse_digits acc [] = some acc
parse_digits acc (c ∷ s) =
    let rest = parse_digits (acc * 10 + (c - 48)) s in if is_digit c then rest else none

unfoldable pub parse_nat : Text → Option ℕ
unfolding parse_digits
parse_nat [] = none
parse_nat (c ∷ s) = parse_digits 0 (c ∷ s)

abbrev pub limit_pos : Option ℕ → Option ℤ
limit_pos none = none
limit_pos (some n) = if ltb n 9223372036854775808 then some (pos n) else none

abbrev pub limit_neg : Option ℕ → Option ℤ
limit_neg none = none
limit_neg (some n) =
    if n == 0
    then some (pos 0)
    else if leb n 9223372036854775808
    then some (negsuc (n - 1))
    else none

-- strconv.ParseInt(s, 10, 64): `none` is its error.
unfoldable pub parse_int64 : Text → Option ℤ
unfolding parse_nat
parse_int64 [] = none
parse_int64 (c ∷ s) =
    if c == b'-'
    then limit_neg (parse_nat s)
    else if c == b'+'
    then limit_pos (parse_nat s)
    else limit_pos (parse_nat (c ∷ s))

parse_digits-append :
    (a b : ℕ) (s t : Text) → parse_digits a s ≡ some b → parse_digits a (s ++ t) ≡ parse_digits b t
unfolding parse_digits
parse_digits-append a b [] t h = ap (λ x. parse_digits x t) same
  where
    same : a ≡ b
    same = cc h
parse_digits-append a b (c ∷ s) t h = elim (Bool-cases (is_digit c)) [
  | inl d ↦ rw d (parse_digits-append (a * 10 + (c - 48)) b s t (rw d at h))
  | inr d ↦ absurd (none-ne-some (rw d at h))
]
  where
    none-ne-some : ◌≢◌ {A = Option ℕ} none (some b)
    none-ne-some e = cc

decimal_from-parse : (f n : ℕ) → n < f → parse_digits 0 (decimal_from f n) ≡ some n
unfolding decimal_from parse_digits
decimal_from-parse zero n h = absurd (omega arith)
decimal_from-parse (suc f) n h = ground (
  arith,
  λ (big : 10 ≤ n).
      parse_digits-append 0 (n / 10) (decimal_from f (n / 10)) ((48 + n % 10) ∷ [])
        (decimal_from-parse f (n / 10) (omega arith)),
)

decimal_from-digits : (f n : ℕ) → all is_digit (decimal_from f n) ≡ true
unfolding decimal_from
decimal_from-digits zero n = refl
decimal_from-digits (suc f) n = ground (
  arith,
  decimal_from-digits f (n / 10),
  all-append is_digit (decimal_from f (n / 10)) ((48 + n % 10) ∷ []),
)

-- Every character of a printed number is a digit.
pub decimal-digits : (n : ℕ) → all is_digit (decimal n) ≡ true
unfolding decimal
decimal-digits n = decimal_from-digits (suc n) n

pub parse_digits-decimal : (n : ℕ) → parse_digits 0 (decimal n) ≡ some n
unfolding decimal
parse_digits-decimal n = decimal_from-parse (suc n) n (omega arith)

decimal_from-ne-nil : (f n : ℕ) → decimal_from (suc f) n ≢ []
unfolding decimal_from
decimal_from-ne-nil f n h = elim (Bool-cases (ltb n 10)) [
  | inl small ↦ cc (rw small at h)
  | inr big ↦ append-ne-nil (decimal_from f (n / 10)) (rw big at h)
]
  where
    append-ne-nil : (s : Text) → s ++ (48 + n % 10) ∷ [] ≢ []
    append-ne-nil [] e = cc
    append-ne-nil (c ∷ s) e = cc

pub decimal-ne-nil : (n : ℕ) → decimal n ≢ []
unfolding decimal
decimal-ne-nil n = decimal_from-ne-nil n n

-- A text of digits with the value n is read back as n, in the range of an int64.
pub parse_int64_of_digits :
    (s : Text) (n : ℕ)
    → s ≢ []
    → all is_digit s ≡ true
    → parse_digits 0 s ≡ some n
    → n < 9223372036854775808
    → parse_int64 s ≡ some (pos n)
unfolding parse_int64
parse_int64_of_digits [] n ne d h lt = absurd (ne refl)
parse_int64_of_digits (c ∷ s) n ne d h lt = ground arith

-- Printing and reading back a nonnegative int64.
pub parse_int64-decimal : (n : ℕ) → n < 9223372036854775808 → parse_int64 (decimal n) ≡ some (pos n)
parse_int64-decimal n lt =
    parse_int64_of_digits (decimal n) n (decimal-ne-nil n) (decimal-digits n)
      (parse_digits-decimal n) lt
