-- ===== src/Config/Load/SafeMail.antt =====
-- What settings of the reminder emails that are validated promise (validateReminderEmail of
-- internal/config/config.go).
use carma.Base.{
  ◌≡◌, ◌≢◌, refl, ◌⊎◌, true, false, not, ◌||◌, Option, none, some, [], ◌∷◌, ◌==◌, any, All, arith,
}
use carma.Base.Result.{Ensures, Ensures-guard, Ensures-last}
use carma.Base.Text.{Text, text, text_eq, text_eq_iff}
use carma.Config.{Url, Host, is_empty}
use carma.Config.Mail.{
  ReminderEmail, is_line, is_filled, is_host_port, is_plain_address, is_https_origin,
  validate_reminder_email,
}

-- Some text without a carriage return (13) and without a line feed (10).
pub record IsLine (value : Text) : Type 0 where
  pub filled : value ≢ []
  pub unbroken : All (λ c. (c ≢ 13) × (c ≢ 10)) value

-- host:port with both of them.
abbrev pub HasParts : Option (Text × Text) → Type 0
HasParts none = ⊥
HasParts (some (host, port)) = (host ≢ []) × (port ≢ [])

-- The parser finds a mailbox, whose address is the whole text.
abbrev pub ParsesTo : Text → Option (Text × Text) → Type 0
ParsesTo value none = ⊥
ParsesTo value (some (name, address)) = address ≡ value

pub record IsOriginUrl (u : Url) : Type 0 where
  pub scheme : u.scheme ≡ text "https"
  pub host : u.host ≢ []
  pub no_user : u.has_user ≡ false
  pub no_query : u.raw_query ≡ []
  pub no_fragment : u.fragment ≡ []
  pub no_path : (u.path ≡ []) ⊎ (u.path ≡ text "/")

abbrev pub IsOrigin : Option Url → Type 0
IsOrigin none = ⊥
IsOrigin (some u) = IsOriginUrl u

pub is_empty_lem : (s : Text) → is_empty s ≡ true → s ≡ []
is_empty_lem [] h = refl
is_empty_lem (c ∷ s) h = cc

pub filled_lem : (s : Text) → not (is_empty s) ≡ true → s ≢ []
filled_lem [] h e = absurd (clash h)
  where
    clash : not true ≢ true
    clash k = cc
filled_lem (c ∷ s) h e = cc

unbroken_lem :
    (s : Text) → not (any (λ c. c == 13 || c == 10) s) ≡ true → All (λ c. (c ≢ 13) × (c ≢ 10)) s
unbroken_lem [] h = tt
unbroken_lem (c ∷ s) h = ((λ e. ground arith, λ e. ground arith), unbroken_lem s (ground arith))

is_line_lem : (s : Text) → is_line s ≡ true → IsLine s
is_line_lem s h = record {
  filled = filled_lem s (ground arith);
  unbroken = unbroken_lem s (ground arith);
}

is_host_port_lem : (o : Option (Text × Text)) → is_host_port o ≡ true → HasParts o
is_host_port_lem none h = absurd (clash h)
  where
    clash : false ≢ true
    clash e = cc
is_host_port_lem (some (host, port)) h =
    (filled_lem host (ground arith), filled_lem port (ground arith))

is_plain_address_lem :
    (value : Text) (o : Option (Text × Text)) → is_plain_address value o ≡ true → ParsesTo value o
is_plain_address_lem value none h = absurd (clash h)
  where
    clash : false ≢ true
    clash e = cc
is_plain_address_lem value (some (name, address)) h = (text_eq_iff address value).0 h

is_https_origin_lem : (o : Option Url) → is_https_origin o ≡ true → IsOrigin o
is_https_origin_lem none h = absurd (clash h)
  where
    clash : false ≢ true
    clash e = cc
is_https_origin_lem (some u) h = record {
  scheme = (text_eq_iff u.scheme (text "https")).0 (ground arith);
  host = filled_lem u.host (ground arith);
  no_user = ground arith;
  no_query = is_empty_lem u.raw_query (ground arith);
  no_fragment = is_empty_lem u.fragment (ground arith);
  no_path = ground (arith, is_empty_lem u.path, text_eq_iff u.path (text "/"));
}

module _ {L : Type 0} (h : Host L) where
  -- Emails go from an address that parses as itself, over implicit TLS, to a host with a port, and
  -- link to an HTTPS origin without credentials, query, fragment or path; each setting is one line.
  pub record IsSafeMail (m : ReminderEmail) : Type 0 where
    pub host_line : IsLine m.smtp_host
    pub username_line : IsLine m.smtp_username
    pub password_line : IsLine m.smtp_password
    pub address_line : IsLine m.from_address
    pub name_line : IsLine m.from_name
    pub url_line : IsLine m.public_url
    pub relay : HasParts (h.split_host_port m.smtp_host)
    pub tls : m.tls_mode ≡ text "implicit"
    pub sender : ParsesTo m.from_address (h.parse_address m.from_address)
    pub origin : IsOrigin (h.parse_url m.public_url)

  pub validate-IsSafeMail :
      (m : ReminderEmail) → Ensures (λ _. IsSafeMail m) (validate_reminder_email h m)
  unfolding validate_reminder_email is_filled
  validate-IsSafeMail m = Ensures-guard Safe (is_filled m) _ _ λ lines.
      Ensures-guard Safe (is_host_port (h.split_host_port m.smtp_host)) _ _ λ host.
        Ensures-guard Safe (text_eq m.tls_mode (text "implicit")) _ _ λ tls.
          Ensures-guard Safe (is_plain_address m.from_address (h.parse_address m.from_address)) _ _
            λ sender. Ensures-last Safe (is_https_origin (h.parse_url m.public_url)) _ λ origin.
              record {
                host_line = is_line_lem m.smtp_host (ground arith);
                username_line = is_line_lem m.smtp_username (ground arith);
                password_line = is_line_lem m.smtp_password (ground arith);
                address_line = is_line_lem m.from_address (ground arith);
                name_line = is_line_lem m.from_name (ground arith);
                url_line = is_line_lem m.public_url (ground arith);
                relay = is_host_port_lem (h.split_host_port m.smtp_host) host;
                tls = (text_eq_iff m.tls_mode (text "implicit")).0 tls;
                sender =
                    is_plain_address_lem m.from_address (h.parse_address m.from_address) sender;
                origin = is_https_origin_lem (h.parse_url m.public_url) origin;
              }
    where
      Safe : Unit {0} → Type 0
      Safe u = IsSafeMail m
