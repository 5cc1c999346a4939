-- ===== src/Config/Load/Valid.antt =====
-- What a configuration that is loaded promises.
use carma.Base.{
  ◌≡◌, ◌≢◌, ◌⊎◌, inl, inr, Bool, true, false, not, ◌&&◌, ◌||◌, Option, none, some, Bool-cases, List,
  [], ◌∷◌, All, arith,
}
use carma.Base.Int.{ℤ, pos, ◌<ℤ◌, ltb_ℤ}
use carma.Config.Load.SafeMail.{filled_lem, IsSafeMail, validate-IsSafeMail}
use mathlib.Core.Path.{subst}
use carma.Base.Result.{Result, ok, err, Ensures, Ensures-bind, Ensures-guard}
use carma.Base.Text.{Text, text, text_eq, text_eq_iff, to_lower, trim_space, split}
use carma.Config.{
  Host, ConfigError, bad_session_ttl, bad_max_upload, bad_max_multipart, required_secret_file,
  is_empty, equal_fold, env, load_location, csv, csv_values, add_value,
}
use carma.Config.Mail.{ReminderEmail, validate_reminder_email}
use carma.Config.Load.{
  Config, auth_google, auth_development, checked, no_values, is_google_ready, mail_settings,
  load_enabled, load_mail, is_access_set, load, load_metrics, database_secret, id_secret,
  client_secret, load_ttl, ttl_value, upload_value, multipart_value, load_upload, load_multipart,
  load_enabled_switch, access_mode, known_mode, safe_mode,
}

known_mode_lem :
    (mode : Text)
    → (text_eq mode auth_development || text_eq mode auth_google) ≡ true
    → (mode ≡ auth_google) ⊎ (mode ≡ auth_development)
known_mode_lem mode known =
    ground (arith, text_eq_iff mode auth_google, text_eq_iff mode auth_development)

safe_mode_lem :
    (production : Bool) (mode : Text)
    → (text_eq mode auth_development || text_eq mode auth_google) ≡ true
    → not (production && text_eq mode auth_development) ≡ true
    → production ≡ true
    → mode ≡ auth_google
safe_mode_lem production mode known safe e = ground (arith, text_eq_iff mode auth_google)

access_lem :
    (mode : Text) (ready : Bool)
    → (not (text_eq mode auth_google) || ready) ≡ true
    → mode ≡ auth_google
    → ready ≡ true
access_lem mode ready set google = ground (arith, text_eq_iff mode auth_google)

checked_lem {ℓ} :
    {A : Type ℓ} (p : A → Bool) (e : ConfigError) (o : Option A) (a : A)
    → checked p e o ≡ ok a
    → p a ≡ true
checked_lem {A = A} p e none a h = cc
checked_lem {A = A} p e (some b) a h = elim (Bool-cases (p b)) [
  | inl hit ↦ ap_ok b a (simp hit at h) hit
  | inr miss ↦ absurd (clash (simp miss at h))
]
  where
    ap_ok : (b a : A) → ◌≡◌ {A = Result ConfigError A} (ok b) (ok a) → p b ≡ true → p a ≡ true
    ap_ok b a e hit = cc

    clash : ◌≢◌ {A = Result ConfigError A} (err e) (ok a)
    clash k = cc

less : (a b : ℤ) → ltb_ℤ a b ≡ true → a <ℤ b
less a b h = ground arith

is_production :
    (app_env : Text)
    → to_lower app_env ≡ text "production"
    → equal_fold app_env (text "production") ≡ true
unfolding to_lower
is_production app_env e = (text_eq_iff (to_lower app_env) (text "production")).1 e

no_values_lem : (vs : List Text) → no_values vs ≡ false → vs ≢ []
no_values_lem [] h e = cc
no_values_lem (v ∷ vs) h e = cc

add_value-filled :
    (v : Text) (vs : List Text) → All (λ v. v ≢ []) vs → All (λ v. v ≢ []) (add_value v vs)
add_value-filled [] vs k = k
add_value-filled (c ∷ v) vs k = (some_text, k)
  where
    some_text : ◌≢◌ {A = Text} (c ∷ v) []
    some_text e = cc

csv_values-filled : (vs : List Text) → All (λ v. v ≢ []) (csv_values vs)
unfolding csv_values
csv_values-filled [] = tt
csv_values-filled (v ∷ vs) =
    add_value-filled (to_lower (trim_space v)) (csv_values vs) (csv_values-filled vs)

csv-filled : (s : Text) → All (λ v. v ≢ []) (csv s)
unfolding csv
csv-filled s = csv_values-filled (split b',' s)

-- The parts of the test of Google's sign-in.
ready_parts :
    (id secret : Text) (emails domains : List Text)
    → is_google_ready id secret emails domains ≡ true
    → (id ≢ []) × ((secret ≢ []) × ((emails ≢ []) ⊎ (domains ≢ [])))
unfolding is_google_ready
ready_parts id secret emails domains ready = (
  filled_lem id (ground arith),
  (
    filled_lem secret (ground arith),
    elim (Bool-cases (no_values emails)) [
      | inl none_listed ↦ inr (no_values_lem domains (ground arith))
      | inr listed ↦ inl (no_values_lem emails listed)
    ],
  ),
)

module _ {L : Type 0} (h : Host L) where
  abbrev pub MailSafe : Option ReminderEmail → Type 0
  MailSafe none = Unit
  MailSafe (some m) = IsSafeMail h m

  load_enabled-MailSafe : Ensures MailSafe (load_enabled h)
  unfolding load_enabled
  load_enabled-MailSafe =
      Ensures-guard MailSafe (is_empty (h.getenv (text "SMTP_PASSWORD"))) _ _ λ _.
        Ensures-bind MailSafe (required_secret_file h (text "SMTP_PASSWORD_FILE")) _ λ password _.
          Ensures-bind MailSafe (validate_reminder_email h (mail_settings h password)) _ λ u valid.
            subst (Ensures (λ _. IsSafeMail h (mail_settings h password))) valid
              (validate-IsSafeMail h (mail_settings h password))

  load_mail-MailSafe : (enabled : Bool) → Ensures MailSafe (load_mail h enabled)
  load_mail-MailSafe false = tt
  load_mail-MailSafe true = load_enabled-MailSafe

  -- Google's sign-in has its credentials, and lists whom it admits.
  pub record HasAccess (c : Config L) : Type 0 where
    pub id : c.google_client_id ≢ []
    pub secret : c.google_client_secret ≢ []
    pub allowlist : (c.allowed_emails ≢ []) ⊎ (c.allowed_domains ≢ [])

  pub record Valid (c : Config L) : Type 0 where
    pub mode : (c.auth_mode ≡ text "google") ⊎ (c.auth_mode ≡ text "development")
    pub production : to_lower c.app_env ≡ text "production" → c.auth_mode ≡ text "google"
    pub database : c.database_url ≢ []
    pub access : c.auth_mode ≡ text "google" → HasAccess c
    pub emails : All (λ v. v ≢ []) c.allowed_emails
    pub domains : All (λ v. v ≢ []) c.allowed_domains
    pub ttl : pos 0 <ℤ c.session_ttl
    pub upload : pos 0 <ℤ c.max_upload_bytes
    pub multipart : c.max_upload_bytes <ℤ c.max_multipart_bytes
    pub mail : MailSafe c.reminder_email

  has_access :
      (c : Config L)
      → (c.google_client_id ≢ [])
        × ((c.google_client_secret ≢ []) × ((c.allowed_emails ≢ []) ⊎ (c.allowed_domains ≢ [])))
      → HasAccess c
  has_access c k = record { id = k.0; secret = k.1.0; allowlist = k.1.1 }

  load_all-Valid : Ensures Valid (load h)
  unfolding load
  load_all-Valid = Ensures-bind Valid (load_metrics h) _ λ metrics _.
      Ensures-bind Valid (database_secret h) _ λ database _.
        Ensures-bind Valid (id_secret h) _ λ id _.
          Ensures-bind Valid (client_secret h) _ λ secret _.
            Ensures-bind Valid (load_location h) _ λ location _.
              Ensures-bind Valid (load_ttl h) _ λ ttl e_ttl.
                Ensures-bind Valid (load_upload h) _ λ upload e_upload.
                  Ensures-bind Valid (load_multipart h upload) _ λ multipart e_multipart.
                    Ensures-bind Valid (load_enabled_switch h) _ λ enabled _.
                      Ensures-bind Valid (load_mail h enabled) _ λ mail e_mail.
                        Ensures-guard Valid (known_mode h (access_mode h)) _ _ λ mode.
                          Ensures-guard Valid
                            (safe_mode h (env h (text "APP_ENV") (text "development"))
                              (access_mode h))
                            _ _
                            λ production.
                              Ensures-guard Valid (not (is_empty database)) _ _ λ has_database.
                                Ensures-guard Valid
                                  (is_access_set h (access_mode h) id secret
                                    (csv (h.getenv (text "AUTH_GOOGLE_ALLOWED_EMAILS")))
                                    (csv (h.getenv (text "AUTH_GOOGLE_ALLOWED_DOMAINS"))))
                                  _ _
                                  λ access. record {
                                    mode = known_mode_lem (access_mode h) mode;
                                    production = λ e.
                                        safe_mode_lem _ (access_mode h) mode production
                                          (is_production _ e);
                                    database = filled_lem database has_database;
                                    access = λ e. has_access _ (
                                        ready_parts id secret _ _
                                          (access_lem (access_mode h) _ access e));
                                    emails =
                                        csv-filled (h.getenv (text "AUTH_GOOGLE_ALLOWED_EMAILS"));
                                    domains =
                                        csv-filled (h.getenv (text "AUTH_GOOGLE_ALLOWED_DOMAINS"));
                                    ttl = less (pos 0) ttl (
                                        checked_lem (λ d. ltb_ℤ (pos 0) d) bad_session_ttl
                                          (ttl_value h) ttl e_ttl);
                                    upload = less (pos 0) upload (
                                        checked_lem (λ n. ltb_ℤ (pos 0) n) bad_max_upload
                                          (upload_value h) upload e_upload);
                                    multipart = less upload multipart (
                                        checked_lem (λ n. ltb_ℤ upload n) bad_max_multipart
                                          (multipart_value h) multipart e_multipart);
                                    mail =
                                        subst (Ensures MailSafe) e_mail
                                          (load_mail-MailSafe enabled);
                                  }

-- A configuration that Load accepts is safe to run. The mode of sign-in is Google's or that of
-- development, and Google's in production; Google's has a client ID, a secret and an allowlist of addresses
-- or domains, and no value of the lists is blank. There is a database. The session's lifetime and the
-- upload limit are positive, and the limit of a form is above that of an upload. Where the reminder emails
-- are on, none of their settings is empty or breaks a line, the relay has a host and a port, TLS is
-- implicit, the sender's address parses as itself, and links start with https, at a host, without
-- credentials, query, fragment or path.
pub load-Valid : {L : Type 0} (h : Host L) (c : Config L) → load h ≡ ok c → Valid h c
load-Valid h c loaded = subst (Ensures (Valid h)) loaded (load_all-Valid h)
