-- ===== src/Config/Metrics.antt =====
-- The address of the metrics listener (validateMetricsAddr and validMetricsHost).
use carma.Base.{
  ℕ, Bool, true, false, not, ◌&&◌, ◌||◌, Option, none, some, [], ◌∷◌, leb, ◌==◌, if◌then◌else◌, all,
  any, length,
}
use carma.Base.Result.{Result, ok, err}
use carma.Base.Text.{Text, text, trim_space, split, starts_with}
use carma.Base.Decimal.{is_digit, parse_nat}
use carma.Config.{
  Addr, Host, ConfigError, bad_metrics_addr, bad_metrics_host, bad_metrics_port, is_empty,
  equal_fold,
}

abbrev pub alnum : ℕ → Bool
alnum c = (leb b'a' c && leb c b'z') || (leb b'A' c && leb c b'Z') || (leb b'0' c && leb c b'9')

abbrev pub zone_char : ℕ → Bool
zone_char c = alnum c || c == b'.' || c == b'_' || c == b'-'

abbrev pub first_char : Text → ℕ
first_char [] = 0
first_char (c ∷ s) = c

abbrev pub last_char : Text → ℕ
last_char [] = 0
last_char (c ∷ []) = c
last_char (c ∷ d ∷ s) = last_char (d ∷ s)

unfoldable pub valid_label : Text → Bool
valid_label label =
    not (is_empty label)
    && leb (length label) 63
    && alnum (first_char label)
    && alnum (last_char label)
    && all (λ c. alnum c || c == b'-') label

-- strings.TrimSuffix(host, ".")
abbrev pub trim_dot : Text → Text
trim_dot [] = []
trim_dot (c ∷ []) = if c == b'.' then [] else c ∷ []
trim_dot (c ∷ d ∷ s) = c ∷ trim_dot (d ∷ s)

unfoldable pub valid_hostname : Text → Bool
unfolding valid_label
valid_hostname hostname =
    not (is_empty hostname) && leb (length hostname) 253 && all valid_label (split b'.' hostname)

-- A numeric address that netip.ParseAddr refuses.
abbrev pub looks_numeric : Text → Bool
looks_numeric host = any (λ c. c == b'.') host && all (λ c. is_digit c || c == b'.') host

abbrev pub bracketed_host : Option Addr → Bool
bracketed_host none = false
bracketed_host (some ip) = ip.is6 && all zone_char ip.zone

abbrev pub plain_host : Text → Option Addr → Bool
plain_host host (some ip) = ip.is4
plain_host host none = if looks_numeric host then false else valid_hostname (trim_dot host)

module _ {L : Type 0} (h : Host L) where
  unfoldable pub valid_metrics_host : Text → Bool → Bool
  valid_metrics_host host bracketed =
      if bracketed
      then bracketed_host (h.parse_addr host)
      else if is_empty host
      then true
      else plain_host host (h.parse_addr host)

  -- strconv.ParseUint(port, 10, 16) on digits.
  abbrev pub small_port : Option ℕ → Bool
  small_port none = false
  small_port (some n) = leb n 65535

  unfoldable pub valid_port : Text → Bool
  valid_port port = all is_digit port && small_port (parse_nat port)

  abbrev pub check_metrics : Text → Option (Text × Text) → Result ConfigError Text
  check_metrics addr none = err bad_metrics_addr
  check_metrics addr (some (host, port)) =
      if is_empty port
      then err bad_metrics_addr
      else if not (valid_metrics_host host (starts_with addr (text "[")))
      then err bad_metrics_host
      else if not (valid_port port)
      then err bad_metrics_port
      else ok addr

  unfoldable pub validate_metrics_addr : Text → Result ConfigError Text
  validate_metrics_addr raw =
      let addr = trim_space raw in
      if equal_fold addr (text "off")
      then ok (text "off")
      else check_metrics addr (h.split_host_port addr)
