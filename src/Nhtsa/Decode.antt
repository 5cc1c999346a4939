-- ===== src/Nhtsa/Decode.antt =====
-- Decoded VINs (Client.DecodeVIN and displayName of internal/nhtsa/client.go).
use carma.Base.{
  Bool, true, not, ◌&&◌, ◌||◌, Option, none, some, List, [], ◌∷◌, leb, ◌==◌, if◌then◌else◌, length,
  map,
}
use carma.Base.Int.{ℤ, pos, leb_ℤ}
use carma.Base.Result.{Result, ok, err}
use carma.Base.Text.{Text, text, text_eq, trim_space, to_upper, to_lower, upper, fields, join}
use carma.Base.Decimal.{parse_int64}
use carma.Nhtsa.{normalize_vin, is_vin}

pub record VinResult : Type 0 where
  pub make : Text
  pub model : Text
  pub model_year : Text
  pub error_code : Text
  pub error_text : Text

pub record DecodedVehicle : Type 0 where
  pub make : Text
  pub model : Text
  pub year : Option ℤ
  pub warning : Text

pub data VinError : Type 0 where
  invalid_vin request_failed not_decoded : VinError

-- The first letter and each letter behind a dash is raised; `dash` tells whether the last one was a
-- dash, or there was none.
unfoldable pub raise_words : Bool → Text → Text
raise_words dash [] = []
raise_words dash (c ∷ s) = (if dash then upper c else c) ∷ raise_words (c == b'-') s

-- On ASCII words.
unfoldable pub display_word : Text → Text
unfolding raise_words
display_word word =
    if leb (length word) 3 || not (text_eq (to_upper word) word)
    then word
    else raise_words true (to_lower word)

unfoldable pub display_name : Text → Text
unfolding display_word
display_name name = join (text " ") (map display_word (fields name))

-- A model year from 1886 to 9999; strconv.Atoi is ParseInt at 64 bits.
abbrev pub valid_year : Option ℤ → Option ℤ
valid_year none = none
valid_year (some year) = if leb_ℤ (pos 1886) year && leb_ℤ year (pos 9999) then some year else none

abbrev pub warning_of : VinResult → Text
warning_of r =
    let code = trim_space r.error_code in
    if text_eq code [] || text_eq code (text "0") then [] else trim_space r.error_text

abbrev pub decode_result : List VinResult → Result VinError DecodedVehicle
decode_result [] = err not_decoded
decode_result (r ∷ rest) =
    if text_eq (trim_space r.make) [] || text_eq (trim_space r.model) []
    then err not_decoded
    else ok (record {
      make = display_name r.make;
      model = trim_space r.model;
      year = valid_year (parse_int64 (trim_space r.model_year));
      warning = warning_of r;
    })

abbrev pub decode_answer : Option (List VinResult) → Result VinError DecodedVehicle
decode_answer none = err request_failed
decode_answer (some results) = decode_result results

-- `request` is the server's answer for a VIN; none is a request that failed.
unfoldable pub decode_vin : (Text → Option (List VinResult)) → Text → Result VinError DecodedVehicle
decode_vin request vin =
    let normal = normalize_vin vin in
    if not (is_vin normal) then err invalid_vin else decode_answer (request normal)
