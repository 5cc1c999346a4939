-- ===== src/Server.antt =====
-- The handlers of internal/server over the store. A handler is a function of the store and of what the
-- request brings; Go's parsers of UUIDs and dates are parameters, as are the random IDs, the clock, and
-- whether a read of the database fails and how its write goes.
pub mod Records
pub mod Reminders
use carma.Base.{
  ℕ, Bool, true, false, not, ◌&&◌, ◌||◌, Option, none, some, List, [], ◌∷◌, ◌==◌, if◌then◌else◌,
  ltb, any,
}
use carma.Base.Result.{Result, ok, err}
use carma.Base.Text.{Text, text, text_eq, trim_space, starts_with}
use carma.Calendar.{Date}
use carma.Model.{Uuid, Vehicle, Record}
use carma.Garage.{Garage, GarageError, not_found, database_error, get_vehicle}

-- A parsed request URI: IsAbs, Host, Path and EscapedPath.
pub record Uri : Type 0 where
  pub is_abs : Bool
  pub host : Text
  pub path : Text
  pub escaped_path : Text

pub record Parsers : Type 0 where
  pub parse_uuid : Text → Option Uuid
  pub parse_date : Text → Option Date
  pub parse_request_uri : Text → Option Uri
  pub path_unescape : Text → Option Text

pub data FormError : Type 0 where
  date_required type_required bad_odometer bad_cost bad_warranty_date warranty_before_service
        bad_warranty_miles :
      FormError

pub data PageAnswer : Type 0 where
  not_found_page failed_page invalid_form bad_request conflict_page : PageAnswer
  record_form : Record → FormError → PageAnswer
  upload_form : Record → PageAnswer
  see_record : Uuid → PageAnswer
  see_vehicle : Uuid → PageAnswer
  see_target : Text → PageAnswer
  see_reminders : Uuid → PageAnswer
  -- The list as a part of the page, and the page with a message at a reminder.
  reminder_list : Uuid → PageAnswer
  reminder_error : Uuid → Uuid → Text → PageAnswer

-- What a handler leaves: the store, the files that it deletes, and its answer.
pub record Served (F : Type 0) : Type 0 where
  pub garage : Garage F
  pub deleted : List Text
  pub response : PageAnswer

abbrev pub error_page : GarageError → PageAnswer
error_page GarageError.not_found = not_found_page
error_page GarageError.below_latest = failed_page
error_page GarageError.conflict = failed_page
error_page GarageError.database_error = failed_page

abbrev pub found {ℓ} : {A : Type ℓ} → Option A → Result GarageError A
found none = err not_found
found (some a) = ok a

-- The field of a form, without its outer blanks: left out, not of its form, or a value.
pub data Field {ℓ} (A : Type ℓ) : Type ℓ where
  unset : Field A
  wrong : Field A
  value : A → Field A

abbrev pub parsed {ℓ} : {A : Type ℓ} → Option A → Field A
parsed none = wrong
parsed (some a) = value a

unfoldable pub read_field {ℓ} : {A : Type ℓ} → (Text → Option A) → Text → Field A
read_field parse raw =
    if text_eq (trim_space raw) [] then unset else parsed (parse (trim_space raw))

module _ {F : Type 0} where
  -- getVehicle: the ID stands in the path.
  unfoldable pub requested_vehicle : Option Uuid → Bool → Garage F → Result GarageError Vehicle
  requested_vehicle none fails t = err not_found
  requested_vehicle (some id) fails t =
      if fails then err database_error else found (get_vehicle id t)

abbrev pub has_char : ℕ → Text → Bool
has_char c s = any (λ d. d == c) s

abbrev pub is_control : ℕ → Bool
is_control c = ltb c 32 || c == 127

abbrev pub is_local_path : Text → Bool
is_local_path s =
    starts_with s (text "/") && not (starts_with s (text "//")) && not (has_char b'\\' s)

abbrev pub is_safe_decoded : Option Text → Bool
is_safe_decoded none = false
is_safe_decoded (some decoded) =
    not (has_char b'\\' decoded) && not (starts_with decoded (text "//"))

abbrev pub is_safe_uri : Parsers → Option Uri → Bool
is_safe_uri p none = false
is_safe_uri p (some u) =
    not u.is_abs
    && text_eq u.host []
    && is_local_path u.path
    && is_safe_decoded (p.path_unescape u.escaped_path)

-- safeRedirectTarget of internal/server/auth.go.
unfoldable pub safe_redirect_target : Parsers → Text → Text × Bool
safe_redirect_target p raw =
    if text_eq raw []
    then (text "/", true)
    else if not (is_local_path raw)
    then (text "/", false)
    else if any is_control raw
    then (text "/", false)
    else if not (is_safe_uri p (p.parse_request_uri raw))
    then (text "/", false)
    else (raw, true)
