-- ===== src/Config/Load.antt =====
-- Load: every setting, read and checked in the order of the source.
pub mod SafeMail
pub mod Valid
use carma.Base.{
  ℕ, Bool, true, false, not, ◌&&◌, ◌||◌, Option, none, some, List, [], ◌∷◌, if◌then◌else◌,
}
use carma.Base.Int.{ℤ, pos, ltb_ℤ}
use carma.Base.Result.{Result, ok, err, guard, ◌>>=◌, ◌>>◌}
use carma.Base.Text.{Text, text, text_eq, trim_space, trim_right, to_lower}
use carma.Base.Decimal.{parse_int64}
use carma.Config.{
  Url, Host, ConfigError, bad_session_ttl, bad_max_upload, bad_max_multipart, bad_email_switch,
  smtp_password, bad_auth_mode, development_in_production, no_database_url, no_google_access,
  is_empty, equal_fold, env, env_or_file, required_secret_file, load_location, csv,
}
use carma.Config.Metrics.{validate_metrics_addr}
use carma.Config.Mail.{ReminderEmail, validate_reminder_email}

-- The reminder emails are off where there are no settings for them.
pub record Config (L : Type 0) : Type 0 where
  pub app_env : Text
  pub port : Text
  pub database_url : Text
  pub auth_mode : Text
  pub google_client_id : Text
  pub google_client_secret : Text
  pub google_redirect_url : Text
  pub allowed_emails : List Text
  pub allowed_domains : List Text
  pub session_ttl : ℤ
  pub asset_root : Text
  pub max_upload_bytes : ℤ
  pub max_multipart_bytes : ℤ
  pub reminder_email : Option ReminderEmail
  pub location : L
  pub metrics_addr : Text

abbrev pub auth_google : Text
auth_google = text "google"

abbrev pub auth_development : Text
auth_development = text "development"

-- A number that passes the test, or the error.
abbrev pub checked {ℓ} : {A : Type ℓ} → (A → Bool) → ConfigError → Option A → Result ConfigError A
checked p e none = err e
checked p e (some a) = if p a then ok a else err e

abbrev pub no_values : List Text → Bool
no_values [] = true
no_values (v ∷ vs) = false

unfoldable pub is_google_ready : Text → Text → List Text → List Text → Bool
is_google_ready id secret emails domains =
    not (is_empty id) && not (is_empty secret) && not (no_values emails && no_values domains)

module _ {L : Type 0} (h : Host L) where
  -- The settings of the emails, before they are validated.
  abbrev pub mail_settings : Text → ReminderEmail
  mail_settings password = record {
    smtp_host = trim_space (h.getenv (text "SMTP_HOST"));
    smtp_username = trim_space (h.getenv (text "SMTP_USERNAME"));
    smtp_password = password;
    from_address = trim_space (h.getenv (text "SMTP_FROM_ADDRESS"));
    from_name = trim_space (h.getenv (text "SMTP_FROM_NAME"));
    tls_mode = to_lower (trim_space (h.getenv (text "SMTP_TLS_MODE")));
    public_url = trim_right (trim_space (h.getenv (text "PUBLIC_URL"))) (text "/");
  }

  unfoldable pub load_enabled : Result ConfigError (Option ReminderEmail)
  load_enabled = do
    guard (is_empty (h.getenv (text "SMTP_PASSWORD"))) smtp_password
    password ← required_secret_file h (text "SMTP_PASSWORD_FILE")
    validate_reminder_email h (mail_settings password)
    ok (some (mail_settings password))

  abbrev pub load_mail : Bool → Result ConfigError (Option ReminderEmail)
  load_mail false = ok none
  load_mail true = load_enabled

  abbrev pub is_access_set : Text → Text → Text → List Text → List Text → Bool
  is_access_set mode id secret emails domains =
      not (text_eq mode auth_google) || is_google_ready id secret emails domains

  abbrev pub load_metrics : Result ConfigError Text
  load_metrics = validate_metrics_addr h (trim_space (env h (text "METRICS_ADDR") (text ":9464")))

  abbrev pub ttl_value : Option ℤ
  ttl_value = h.parse_duration (env h (text "SESSION_TTL") (text "2160h"))

  abbrev pub upload_value : Option ℤ
  upload_value = parse_int64 (env h (text "MAX_UPLOAD_BYTES") (text "26214400"))

  abbrev pub multipart_value : Option ℤ
  multipart_value = parse_int64 (env h (text "MAX_MULTIPART_BYTES") (text "134217728"))

  abbrev pub load_ttl : Result ConfigError ℤ
  load_ttl = checked (λ d. ltb_ℤ (pos 0) d) bad_session_ttl ttl_value

  abbrev pub load_upload : Result ConfigError ℤ
  load_upload = checked (λ n. ltb_ℤ (pos 0) n) bad_max_upload upload_value

  abbrev pub load_multipart : ℤ → Result ConfigError ℤ
  load_multipart upload = checked (λ n. ltb_ℤ upload n) bad_max_multipart multipart_value

  abbrev pub load_enabled_switch : Result ConfigError Bool
  load_enabled_switch =
      checked (λ b. true) bad_email_switch
        (h.parse_bool (env h (text "REMINDER_EMAIL_ENABLED") (text "false")))

  abbrev pub database_secret : Result ConfigError Text
  database_secret = env_or_file h (text "DATABASE_URL") (text "/run/secrets/carma_database_url")

  abbrev pub id_secret : Result ConfigError Text
  id_secret =
      env_or_file h (text "AUTH_GOOGLE_CLIENT_ID") (text "/run/secrets/carma_google_client_id")

  abbrev pub client_secret : Result ConfigError Text
  client_secret =
      env_or_file h (text "AUTH_GOOGLE_CLIENT_SECRET")
        (text "/run/secrets/carma_google_client_secret")

  abbrev pub access_mode : Text
  access_mode = env h (text "AUTH_MODE") auth_google

  abbrev pub known_mode : Text → Bool
  known_mode mode = text_eq mode auth_development || text_eq mode auth_google

  abbrev pub safe_mode : Text → Text → Bool
  safe_mode app_env mode =
      not (equal_fold app_env (text "production") && text_eq mode auth_development)

  unfoldable pub load : Result ConfigError (Config L)
  load = do
    let app_env = env h (text "APP_ENV") (text "development")
    let auth_mode = access_mode
    let emails = csv (h.getenv (text "AUTH_GOOGLE_ALLOWED_EMAILS"))
    let domains = csv (h.getenv (text "AUTH_GOOGLE_ALLOWED_DOMAINS"))
    metrics ← load_metrics
    database ← database_secret
    id ← id_secret
    secret ← client_secret
    location ← load_location h
    ttl ← load_ttl
    upload ← load_upload
    multipart ← load_multipart upload
    enabled ← load_enabled_switch
    mail ← load_mail enabled
    guard (known_mode auth_mode) bad_auth_mode
    guard (safe_mode app_env auth_mode) development_in_production
    guard (not (is_empty database)) no_database_url
    guard (is_access_set auth_mode id secret emails domains) no_google_access
    ok (record {
      app_env = app_env;
      port = env h (text "PORT") (text "4700");
      database_url = database;
      auth_mode = auth_mode;
      google_client_id = id;
      google_client_secret = secret;
      google_redirect_url =
          env h (text "AUTH_GOOGLE_REDIRECT_URL")
            (text "http://localhost:4700/api/auth/google/callback");
      allowed_emails = emails;
      allowed_domains = domains;
      session_ttl = ttl;
      asset_root = env h (text "ASSET_ROOT") (text ".local/carma-assets");
      max_upload_bytes = upload;
      max_multipart_bytes = multipart;
      reminder_email = mail;
      location = location;
      metrics_addr = metrics;
    })

abbrev pub is_https : Option Url → Bool
is_https none = false
is_https (some u) = equal_fold u.scheme (text "https")

-- Always in production, and where the redirect URL is HTTPS.
unfoldable pub secure_cookies : {L : Type 0} → Host L → Config L → Bool
secure_cookies h c =
    equal_fold c.app_env (text "production") || is_https (h.parse_url c.google_redirect_url)
