-- ===== src/Base/Digits.antt =====
-- Texts of digits: what the string functions leave alone in them.
use carma.Base.Tests.{leb, ◌==◌}
use carma.Base.Lists.{all, filter}
use carma.Base.Text.{Text, is_space, drop_while_end, trim_space, split}
use carma.Base.Decimal.{is_digit}
use Prim.Native.Nat.{ℕ}
use mathlib.Core.Path.{◌≡◌, refl}
use mathlib.Core.Bool.{Bool, true, not}
use mathlib.Core.List.{[], ◌∷◌, ◌++◌}
use native.Mathlib.Omega.{arith}

-- strings.ReplaceAll(s, ",", "")
unfoldable pub remove_commas : Text → Text
remove_commas s = filter (λ c. not (c == b',')) s

pub remove_commas-append :
    (s t : Text) → remove_commas (s ++ t) ≡ remove_commas s ++ remove_commas t
unfolding remove_commas
remove_commas-append [] t = refl
remove_commas-append (c ∷ s) t = ground (arith, remove_commas-append s t)

pub remove_commas_of_digits : (s : Text) → all is_digit s ≡ true → remove_commas s ≡ s
unfolding remove_commas
remove_commas_of_digits [] h = refl
remove_commas_of_digits (c ∷ s) h = ground (arith, remove_commas_of_digits s)

abbrev pub solid : ℕ → Bool
solid c = leb 33 c

pub solid_of_digits : (s : Text) → all is_digit s ≡ true → all solid s ≡ true
solid_of_digits [] h = refl
solid_of_digits (c ∷ s) h = ground (arith, solid_of_digits s)

drop_while_end-solid : (s : Text) → all solid s ≡ true → drop_while_end is_space s ≡ s
unfolding is_space
drop_while_end-solid [] h = refl
drop_while_end-solid (c ∷ s) h = ground (arith, drop_while_end-solid s)

pub trim_space-solid : (s : Text) → all solid s ≡ true → trim_space s ≡ s
unfolding trim_space is_space
trim_space-solid [] h = refl
trim_space-solid (c ∷ s) h = ground (arith, drop_while_end-solid (c ∷ s) h)

pub split_of_digits : (s : Text) → all is_digit s ≡ true → split b'.' s ≡ s ∷ []
unfolding split
split_of_digits [] h = refl
split_of_digits (c ∷ s) h = ground (arith, split_of_digits s)

pub split_at_point :
    (s t : Text) → all is_digit s ≡ true → split b'.' (s ++ b'.' ∷ t) ≡ s ∷ split b'.' t
unfolding split
split_at_point [] t h = refl
split_at_point (c ∷ s) t h = ground (arith, split_at_point s t)
