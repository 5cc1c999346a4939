-- ===== src/Base/Float.antt =====
-- float64, of which the code relies on little: the operations, and how a rounded quotient compares
-- with a bound. It is a parameter of everything that computes with it.
use carma.Base.Int.{ℤ, pos, ◌≤ℤ◌}
use Prim.Native.Nat.{ℕ, ◌≤◌}
use mathlib.Core.Path.{◌≡◌}
use mathlib.Core.Bool.{Bool, true}

pub record Float : Type 1 where
  pub F : Type 0
  pub of_int : ℤ → F
  pub add : F → F → F
  pub sub : F → F → F
  pub mul : F → F → F
  pub div : F → F → F
  pub lt : F → F → Bool
  pub le : F → F → Bool
  pub is_inf : F → Bool
  -- int(math.Round(x))
  pub round : F → ℤ

-- What IEEE 754 promises of math.Round up to a bound that float64 holds exactly.
pub record Rounds (fl : Float) : Type 0 where
  pub round_le :
      (x : fl.F) (n : ℕ)
      → n ≤ 9007199254740992
      → fl.le x (fl.of_int (pos n)) ≡ true
      → fl.round x ≤ℤ pos n
