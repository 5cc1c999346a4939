-- ===== src/Config/Mail.antt =====
-- The settings of the reminder emails (ReminderEmail and validateReminderEmail). Go visits the settings
-- in a random order, so that the error does not say which of them is empty or has a newline.
use carma.Base.{Bool, false, not, ◌&&◌, ◌||◌, Option, none, some, ◌==◌, any}
use carma.Base.Result.{Result, guard, ◌>>◌}
use carma.Base.Text.{Text, text, text_eq}
use carma.Config.{
  Url, Host, ConfigError, bad_mail_setting, bad_smtp_host, bad_tls_mode, bad_from_address,
  bad_public_url, is_empty,
}

pub record ReminderEmail : Type 0 where
  pub smtp_host : Text
  pub smtp_username : Text
  pub smtp_password : Text
  pub from_address : Text
  pub from_name : Text
  pub tls_mode : Text
  pub public_url : Text

-- Not empty and on one line.
abbrev pub is_line : Text → Bool
is_line value = not (is_empty value) && not (any (λ c. c == 13 || c == 10) value)

unfoldable pub is_filled : ReminderEmail → Bool
is_filled c =
    is_line c.smtp_host
    && is_line c.smtp_username
    && is_line c.smtp_password
    && is_line c.from_address
    && is_line c.from_name
    && is_line c.tls_mode
    && is_line c.public_url

abbrev pub is_host_port : Option (Text × Text) → Bool
is_host_port none = false
is_host_port (some (host, port)) = not (is_empty host) && not (is_empty port)

abbrev pub is_plain_address : Text → Option (Text × Text) → Bool
is_plain_address value none = false
is_plain_address value (some (name, address)) = text_eq address value

abbrev pub is_https_origin : Option Url → Bool
is_https_origin none = false
is_https_origin (some u) =
    text_eq u.scheme (text "https")
    && not (is_empty u.host)
    && not u.has_user
    && is_empty u.raw_query
    && is_empty u.fragment
    && (is_empty u.path || text_eq u.path (text "/"))

unfoldable pub validate_reminder_email :
    {L : Type 0} → Host L → ReminderEmail → Result ConfigError (Unit {0})
validate_reminder_email h c = do
  guard (is_filled c) bad_mail_setting
  guard (is_host_port (h.split_host_port c.smtp_host)) bad_smtp_host
  guard (text_eq c.tls_mode (text "implicit")) bad_tls_mode
  guard (is_plain_address c.from_address (h.parse_address c.from_address)) bad_from_address
  guard (is_https_origin (h.parse_url c.public_url)) bad_public_url
