-- ===== src/Config.antt =====
-- The settings of the program (internal/config/config.go). The environment, the files, the time zones
-- and the parsers of the standard library are an interface.
pub mod Metrics
pub mod Mail
pub mod Load
use carma.Base.{
  ℕ, Bool, true, false, not, Option, none, some, List, [], ◌∷◌, ◌++◌, ◌==◌, if◌then◌else◌,
}
use carma.Base.Int.{ℤ}
use carma.Base.Result.{Result, ok, err}
use carma.Base.Text.{Text, text, text_eq, trim_space, to_lower, split}
use carma.Email.Recipients.{AddressParser}

-- os.ReadFile: a file's bytes, os.ErrNotExist, or another error.
pub data Reading : Type 0 where
  contents : Text → Reading
  missing unreadable : Reading

-- netip.Addr
pub record Addr : Type 0 where
  pub is4 : Bool
  pub is6 : Bool
  pub zone : Text

-- url.URL
pub record Url : Type 0 where
  pub scheme : Text
  pub host : Text
  pub has_user : Bool
  pub raw_query : Text
  pub fragment : Text
  pub path : Text

-- An unset variable reads as the empty text. A location is any value.
pub record Host (L : Type 0) : Type 0 where
  pub getenv : Text → Text
  pub read_file : Text → Reading
  pub load_zone : Text → Option L
  pub parse_duration : Text → Option ℤ
  pub parse_bool : Text → Option Bool
  pub split_host_port : Text → Option (Text × Text)
  pub parse_addr : Text → Option Addr
  pub parse_url : Text → Option Url
  pub parse_address : AddressParser

pub data ConfigError : Type 0 where
  bad_metrics_addr bad_metrics_host bad_metrics_port : ConfigError
  unreadable_secret empty_secret missing_secret : Text → ConfigError
  local_zone unknown_zone bad_session_ttl bad_max_upload bad_max_multipart bad_email_switch :
      ConfigError
  smtp_password bad_mail_setting bad_smtp_host bad_tls_mode bad_from_address bad_public_url :
      ConfigError
  bad_auth_mode development_in_production no_database_url no_google_access : ConfigError

abbrev pub is_empty : Text → Bool
is_empty [] = true
is_empty (c ∷ s) = false

-- strings.EqualFold on ASCII text.
abbrev pub equal_fold : Text → Text → Bool
equal_fold s t = text_eq (to_lower s) (to_lower t)

module _ {L : Type 0} (h : Host L) where
  abbrev pub env_value : Text → Text → Text
  env_value k d = let v = h.getenv k in if is_empty v then d else v

  -- A file that cannot be read is passed over.
  abbrev pub env_file : Text → Text → Reading → Text
  env_file k d (contents b) = trim_space b
  env_file k d missing = env_value k d
  env_file k d unreadable = env_value k d

  unfoldable pub env : Text → Text → Text
  env k d =
      let f = h.getenv (k ++ text "_FILE") in
      if is_empty f then env_value k d else env_file k d (h.read_file f)

  abbrev pub secret_of : Text → Text → Result ConfigError Text
  secret_of k v = if is_empty v then err (empty_secret k) else ok v

  abbrev pub secret_file : Text → Reading → Result ConfigError Text
  secret_file k missing = ok []
  secret_file k unreadable = err (unreadable_secret k)
  secret_file k (contents b) = secret_of k (trim_space b)

  abbrev pub or_default : Text → Text → Text
  or_default p d = if is_empty p then d else p

  unfoldable pub env_or_file : Text → Text → Result ConfigError Text
  env_or_file k d =
      let v = h.getenv k in
      let p = or_default (h.getenv (k ++ text "_FILE")) d in
      if not (is_empty v) then ok v else if is_empty p then ok [] else secret_file k (h.read_file p)

  abbrev pub required_file : Text → Reading → Result ConfigError Text
  required_file k missing = err (unreadable_secret k)
  required_file k unreadable = err (unreadable_secret k)
  required_file k (contents b) = secret_of k (trim_space b)

  unfoldable pub required_secret_file : Text → Result ConfigError Text
  required_secret_file k =
      let path = trim_space (h.getenv k) in
      if is_empty path then err (missing_secret k) else required_file k (h.read_file path)

  abbrev pub known_zone : Option L → Result ConfigError L
  known_zone none = err unknown_zone
  known_zone (some location) = ok location

  unfoldable pub load_location : Result ConfigError L
  load_location =
      let timezone = env (text "APP_TIMEZONE") (text "America/New_York") in
      if equal_fold timezone (text "Local")
      then err local_zone
      else known_zone (h.load_zone timezone)

-- The values between commas, in lower case and without the blank ones.
abbrev pub add_value : Text → List Text → List Text
add_value v out = if is_empty v then out else v ∷ out

unfoldable pub csv_values : List Text → List Text
csv_values [] = []
csv_values (v ∷ vs) = add_value (to_lower (trim_space v)) (csv_values vs)

unfoldable pub csv : Text → List Text
unfolding csv_values
csv s = csv_values (split b',' s)
