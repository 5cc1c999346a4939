-- ===== src/Examples/Settings.antt =====
-- The settings at work.
use carma.Base.{ℕ, refl, false, Option, none, some, [], ◌∷◌, if◌then◌else◌}
use carma.Base.Int.{pos}
use carma.Base.Text.{
  Text, text, text_eq, starts_with, is_space, trim_space, to_lower, split, trim_right,
}
use carma.Base.Decimal.{parse_digits, parse_nat, parse_int64}
use carma.Config.{
  Reading, contents, missing, Url, Host, required_secret_file, env, env_or_file, load_location,
  csv_values, csv,
}
use carma.Config.Metrics.{valid_metrics_host, valid_port, validate_metrics_addr}
use carma.Config.Load.{Config, load, load_enabled, is_google_ready}
use carma.Config.Mail.{ReminderEmail, is_filled, validate_reminder_email}
use carma.Config.Load.Valid.{Valid, load-Valid}

-- A production host that signs in by Google and sends emails; its zones are numbers.
abbrev variables : Text → Text
variables k =
    if text_eq k (text "APP_ENV")
    then text "Production"
    else if text_eq k (text "DATABASE_URL")
    then text "db"
    else if text_eq k (text "AUTH_GOOGLE_CLIENT_ID")
    then text "id"
    else if text_eq k (text "AUTH_GOOGLE_CLIENT_SECRET")
    then text "key"
    else if text_eq k (text "AUTH_GOOGLE_ALLOWED_EMAILS")
    then text "D@x.org, ,"
    else if text_eq k (text "REMINDER_EMAIL_ENABLED")
    then text "true"
    else if text_eq k (text "SMTP_PASSWORD_FILE")
    then text "/smtp"
    else if text_eq k (text "SMTP_HOST")
    then text "mail:465"
    else if text_eq k (text "SMTP_USERNAME")
    then text "carma"
    else if text_eq k (text "SMTP_FROM_ADDRESS")
    then text "c@x.org"
    else if text_eq k (text "SMTP_FROM_NAME")
    then text "Carma"
    else if text_eq k (text "SMTP_TLS_MODE")
    then text "Implicit"
    else if text_eq k (text "PUBLIC_URL")
    then text "https://car/"
    else []

abbrev files : Text → Reading
files path = if text_eq path (text "/smtp") then contents (text "pw\n") else missing

abbrev urls : Text → Option Url
urls s =
    if text_eq s (text "https://car")
    then some (record {
      scheme = text "https";
      host = text "car";
      has_user = false;
      raw_query = [];
      fragment = [];
      path = [];
    })
    else none

abbrev parts_of : Text → Option (Text × Text)
parts_of addr =
    if text_eq addr (text "mail:465")
    then some (text "mail", text "465")
    else some ([], text "9464")

abbrev small_host : Host ℕ
small_host = record {
  getenv = variables;
  read_file = files;
  load_zone = λ name. some 1;
  parse_duration = λ s. some (pos 7776000000000000);
  parse_bool = λ s. some (text_eq s (text "true"));
  split_host_port = parts_of;
  parse_addr = λ host. none;
  parse_url = urls;
  parse_address = λ s. some ([], s);
}

abbrev mail : ReminderEmail
mail = record {
  smtp_host = text "mail:465";
  smtp_username = text "carma";
  smtp_password = text "pw";
  from_address = text "c@x.org";
  from_name = text "Carma";
  tls_mode = text "implicit";
  public_url = text "https://car";
}

abbrev settings : Config ℕ
settings = record {
  app_env = text "Production";
  port = text "4700";
  database_url = text "db";
  auth_mode = text "google";
  google_client_id = text "id";
  google_client_secret = text "key";
  google_redirect_url = text "http://localhost:4700/api/auth/google/callback";
  allowed_emails = text "d@x.org" ∷ [];
  allowed_domains = [];
  session_ttl = pos 7776000000000000;
  asset_root = text ".local/carma-assets";
  max_upload_bytes = pos 26214400;
  max_multipart_bytes = pos 134217728;
  reminder_email = some mail;
  location = 1;
  metrics_addr = text ":9464";
}

load-Valid_example : Valid small_host settings
unfolding load load_enabled env env_or_file required_secret_file load_location csv csv_values split
    validate_metrics_addr valid_metrics_host valid_port parse_int64 parse_nat parse_digits text_eq
    starts_with trim_space is_space to_lower trim_right is_google_ready validate_reminder_email
    is_filled
load-Valid_example = load-Valid small_host settings refl
