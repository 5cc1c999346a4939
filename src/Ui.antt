-- ===== src/Ui.antt =====
-- What the pages print (internal/ui/render.go).
pub mod RoundTrip
use carma.Base.{ℕ, suc, ◌+◌, ◌/◌, ◌%◌, List, [], ◌∷◌, ◌++◌}
use carma.Base.Int.{ℤ, pos, negsuc}
use carma.Base.Text.{Text, text}
use carma.Base.Decimal.{decimal}

-- %02d of a number below 100.
abbrev pub two_digits : ℕ → Text
two_digits n = (48 + n / 10) ∷ (48 + n % 10) ∷ []

abbrev pub magnitude_text : ℕ → Text
magnitude_text n = b'$' ∷ decimal (n / 100) ++ b'.' ∷ two_digits (n % 100)

-- The magnitude is taken in uint64, where that of every int64 fits.
unfoldable pub dollars : ℤ → Text
dollars (pos n) = magnitude_text n
dollars (negsuc n) = b'-' ∷ magnitude_text (suc n)
