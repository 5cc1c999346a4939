-- ===== src/Model/Money/Facts.antt =====
-- What the parsers of amounts accept, and that they read back what the pages print.
use carma.Base.{
  ℕ, ◌+◌, min, ◌≤◌, ◌≡◌, ◌≢◌, refl, inl, inr, Option, none, some, List, [], ◌∷◌, arith, ltb,
  if◌then◌else◌, Bool-cases, length,
}
use carma.Base.Int.{
  ℤ, pos, negsuc, pos_part, neg_part, ◌+ℤ◌, ◌-ℤ◌, ◌+int64◌, ◌-int64◌, wrap64, ◌≤ℤ◌, ltb_ℤ,
  max_int64, min_int64, IsInt64, +ℤ_parts, -ℤ_parts,
}
use carma.Base.Text.{Text, text_eq, trim_space, split}
use carma.Base.Decimal.{parse_int64}
use carma.Base.Digits.{remove_commas}
use carma.Model.Money.{
  trim_dollar, fraction, whole_and_fraction, whole_part, combine, parse_parts, parse_cents,
  add_cents, parse_odometer_miles,
}

-- A sum of cents is the exact sum, held within the limits of an int64.
pub add_cents-clamp :
    (a b : ℤ)
    → IsInt64 a
    → IsInt64 b
    → add_cents a b ≡ (
        if ltb_ℤ max_int64 (a +ℤ b)
        then max_int64
        else if ltb_ℤ (a +ℤ b) min_int64
        then min_int64
        else a +ℤ b)
unfolding add_cents
add_cents-clamp a b ha hb = ground (arith, +ℤ_parts a b, -ℤ_parts max_int64 b, -ℤ_parts min_int64 b)

pub add_cents-IsInt64 : (a b : ℤ) → IsInt64 a → IsInt64 b → IsInt64 (add_cents a b)
add_cents-IsInt64 a b ha hb = rw (add_cents-clamp a b ha hb) (ground arith)

pub record IsAmount (a : ℤ) : Type 0 where
  pub low : pos 0 ≤ℤ a
  pub high : a ≤ℤ max_int64

whole_and_fraction-IsAmount :
    (whole frac c : ℤ)
    → IsAmount whole
    → neg_part frac ≤ 99
    → pos_part frac ≤ 99
    → whole_and_fraction whole frac ≡ some c
    → IsAmount c
unfolding whole_and_fraction ◌-int64◌ ◌+int64◌ wrap64 ◌+ℤ◌ ◌-ℤ◌
whole_and_fraction-IsAmount (pos whole) (pos f) c w n p h = ground arith
whole_and_fraction-IsAmount (pos whole) (negsuc f) c w n p h = ground arith
whole_and_fraction-IsAmount (negsuc whole) frac c w n p h = absurd (omega (arith, w.low))

-- A text of at most two characters stands for a number of at most two digits.
parse_int64-small :
    (s : Text) (z : ℤ)
    → length s ≤ 2
    → parse_int64 s ≡ some z
    → (neg_part z ≤ 99) × (pos_part z ≤ 99)
unfolding parse_int64
parse_int64-small [] z l h = cc
parse_int64-small (a ∷ []) z l h = ground arith
parse_int64-small (a ∷ b ∷ []) z l h = ground arith
parse_int64-small (a ∷ b ∷ c ∷ s) z l h = absurd (omega arith)

fraction-small :
    (s : Text) (z : ℤ) → length s ≤ 2 → fraction s ≡ some z → (neg_part z ≤ 99) × (pos_part z ≤ 99)
unfolding fraction text_eq
fraction-small [] z l h = ground arith
fraction-small (a ∷ []) z l h = parse_int64-small (a ∷ b'0' ∷ []) z (omega arith) h
fraction-small (a ∷ b ∷ s) z l h = parse_int64-small (a ∷ b ∷ s) z l h

parse_int64-IsInt64 : (s : Text) (z : ℤ) → parse_int64 s ≡ some z → IsInt64 z
unfolding parse_int64
parse_int64-IsInt64 [] z h = cc
parse_int64-IsInt64 (c ∷ s) z h = ground arith

whole_part-IsAmount : (s : Text) (z : ℤ) → whole_part s ≡ some z → IsAmount z
unfolding whole_part
whole_part-IsAmount s z h = ground (arith, parse_int64-IsInt64 s z)

combine-IsAmount :
    (s : Text) (f : Option ℤ) (c : ℤ)
    → ((z : ℤ) → f ≡ some z → (neg_part z ≤ 99) × (pos_part z ≤ 99))
    → combine (whole_part s) f ≡ some c
    → IsAmount c
combine-IsAmount s f c small h = by_cases (whole_part s) f (whole_part-IsAmount s) small h
  where
    by_cases :
        (w f : Option ℤ)
        → ((z : ℤ) → w ≡ some z → IsAmount z)
        → ((z : ℤ) → f ≡ some z → (neg_part z ≤ 99) × (pos_part z ≤ 99))
        → combine w f ≡ some c
        → IsAmount c
    by_cases (some w) (some f) low small h =
        whole_and_fraction-IsAmount w f c (low w refl) (small f refl).0 (small f refl).1 h
    by_cases none f low small h = cc
    by_cases (some w) none low small h = cc

-- An amount that ParseCents accepts is a nonnegative int64, whatever the text.
pub parse_cents-IsAmount : (raw : Text) (c : ℤ) → parse_cents raw ≡ some c → IsAmount c
unfolding parse_cents
parse_cents-IsAmount raw c h =
    by_parts (split b'.' (trim_space (trim_dollar (remove_commas raw)))) h
  where
    by_parts : (parts : List Text) → parse_parts parts ≡ some c → IsAmount c
    by_parts [] h = unfold parse_parts in cc
    by_parts (a ∷ []) h =
        unfold parse_parts in combine-IsAmount a (some (pos 0)) c (λ z e. ground arith) h
    by_parts (a ∷ b ∷ []) h =
        unfold parse_parts in
        elim (Bool-cases (ltb 2 (length b))) [
          | inl long ↦ absurd (clash (rw long at h))
          | inr short ↦
              combine-IsAmount a (fraction b) c (λ z e. fraction-small b z (ground arith) e)
                (rw short at h)
        ]
      where
        clash : ◌≢◌ {A = Option ℤ} none (some c)
        clash e = cc
    by_parts (a ∷ b ∷ d ∷ r) h = unfold parse_parts in cc

-- Mileage that ParseOdometerMiles accepts is a nonnegative int64.
pub parse_odometer_miles-IsAmount :
    (raw : Text) (m : ℤ) → parse_odometer_miles raw ≡ some m → IsAmount m
unfolding parse_odometer_miles
parse_odometer_miles-IsAmount raw m h = ground (arith, parse_int64-IsInt64 (trim_space raw) m)

abbrev pub max_cents : ℕ
max_cents = 9223372036854775807

abbrev pub capped : ℕ → ℕ
capped n = min n max_cents

pub add_cents-capped :
    (a b : ℕ) → a ≤ max_cents → b ≤ max_cents → add_cents (pos a) (pos b) ≡ pos (capped (a + b))
unfolding ◌+ℤ◌
add_cents-capped a b ha hb =
    rw (add_cents-clamp (pos a) (pos b) (ground arith) (ground arith)) (ground arith)

pub add_cents-parts :
    (a b : ℤ)
    → IsAmount a
    → IsAmount b
    → IsAmount (add_cents a b) × (pos_part (add_cents a b) ≡ capped (pos_part a + pos_part b))
unfolding ◌+ℤ◌
add_cents-parts (pos a) (pos b) ha hb =
    rw (add_cents-capped a b (omega (arith, ha.high)) (omega (arith, hb.high))) (ground arith)
add_cents-parts (pos a) (negsuc b) ha hb = absurd (omega (arith, hb.low))
add_cents-parts (negsuc a) b ha hb = absurd (omega (arith, ha.low))

abbrev pub HasAmount : Option ℤ → Type 0
HasAmount none = Unit {0}
HasAmount (some cost) = IsAmount cost
