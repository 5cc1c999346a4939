-- ===== src/Nhtsa.antt =====
-- VINs and recall campaigns of NHTSA (internal/nhtsa/client.go).
pub mod Campaigns
pub mod Decode
use carma.Base.{ℕ, Bool, not, ◌&&◌, ◌||◌, [], leb, ◌==◌, if◌then◌else◌, all, filter, length}
use carma.Base.Text.{Text, trim_space, to_upper}

unfoldable pub normalize_vin : Text → Text
normalize_vin vin = filter (λ c. not (c == b' ' || c == b'-')) (to_upper (trim_space vin))

-- A to H, J to N, P, R to Z and the digits.
abbrev pub vin_char : ℕ → Bool
vin_char c =
    (leb b'A' c && leb c b'H')
    || (leb b'J' c && leb c b'N')
    || c == b'P'
    || (leb b'R' c && leb c b'Z')
    || (leb b'0' c && leb c b'9')

-- vinPattern.MatchString
unfoldable pub is_vin : Text → Bool
is_vin vin = length vin == 17 && all vin_char vin

unfoldable pub lookup_vin : Text → Text
unfolding normalize_vin is_vin
lookup_vin vin = let normal = normalize_vin vin in if is_vin normal then normal else []
