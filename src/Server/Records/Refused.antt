-- ===== src/Server/Records/Refused.antt =====
-- What a request that is not done leaves behind.
use carma.Base.{◌≡◌, ◌⊎◌, Bool, true, false, []}
use carma.Base.Result.{Result}
use carma.Base.Text.{Text}
use carma.Garage.{Garage, committed}
use carma.Server.{
  PageAnswer, not_found_page, failed_page, invalid_form, bad_request, conflict_page, record_form,
  upload_form, see_record, see_vehicle, see_target, see_reminders, reminder_list, reminder_error,
  Served,
}
use carma.Server.Records.{RecordRequest}

-- Does the answer send the browser on to the result?
abbrev pub is_done : PageAnswer → Bool
is_done not_found_page = false
is_done failed_page = false
is_done invalid_form = false
is_done bad_request = false
is_done conflict_page = false
is_done (record_form r e) = false
is_done (upload_form r) = false
is_done (see_record id) = true
is_done (see_vehicle id) = true
is_done (see_target target) = true
is_done (see_reminders id) = true
is_done (reminder_list id) = true
is_done (reminder_error id at message) = false

-- An answer that does not send the browser on, against what the same request makes of the store where
-- its write is confirmed: the store is as it was or, with the failed page alone, as the whole write makes
-- it; and the failed page deletes no file, since the store may name it.
pub record Whole {F : Type 0} (t : Garage F) (s confirmed : Served F) : Type 0 where
  pub store : (s.garage ≡ t) ⊎ ((s.response ≡ failed_page) × (s.garage ≡ confirmed.garage))
  pub files : s.response ≡ failed_page → s.deleted ≡ []

abbrev pub AllOrNothing : {F : Type 0} → Garage F → Served F → Served F → Type 0
AllOrNothing t s confirmed = is_done s.response ≡ false → Whole t s confirmed

abbrev pub confirm : RecordRequest → RecordRequest
confirm q = record q { write = committed }
