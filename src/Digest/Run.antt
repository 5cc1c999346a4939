-- ===== src/Digest/Run.antt =====
-- One run of the weekly digest (DigestRunner.Run). What the outside world answers to it, the clock,
-- the failures of the database and the mail relay, is a value; the tables and the messages that the
-- relay accepted are passed along.
pub mod Once
pub mod Send
use carma.Base.{
  ℕ, ◌+◌, ◌*◌, ◌-◌, ◌%◌, Bool, true, false, not, ◌&&◌, Option, none, some, List, [], ◌∷◌, ◌++◌, ltb,
  ◌==◌, if◌then◌else◌, filter, map, length, count,
}
use carma.Base.Float.{Float}
use carma.Base.Text.{Text}
use carma.Calendar.{Date, sub_days, sub_months}
use carma.Calendar.Zone.{Zone, today, weekday}
use carma.Model.{Uuid, Instant, Reminder, Recall}
use carma.Reminder.Estimate.{estimate_window_months}
use carma.Reminder.Evaluate.{
  Status, up_to_date, soon, due, disabled, snoozed, Evaluation, evaluate_all, projection_vehicles,
}
use carma.Email.{Message}
use carma.Email.Render.{Links, render_digest, is_due}
use carma.Email.Recipients.{AddressParser, normalize_recipients}
use carma.Digest.Store.{
  Tables, recall_key, reminder_digest_claimed, list_unnotified_recalls, list_mileage_points,
  reserve_reminder_digest, complete_reminder_digest, release_reminder_digest,
}

pub data LockAnswer : Type 0 where
  lock_failed contended acquired : LockAnswer

pub data Failure : Type 0 where
  lock_error unlock_error claim_error reminders_error points_error recalls_error : Failure
  recipients_error no_recipients reserve_error send_error release_error audit_error : Failure

-- What Send answers: the ID of a message that the relay confirmed, an error where the relay did not take
-- the message, or an error although it did, where its confirmation was lost (data.Close() in
-- internal/mailer/smtp.go).
pub data Reply : Type 0 where
  confirmed : Text → Reply
  refused lost : Reply

pub record Answers : Type 0 where
  pub now : Instant
  pub reserved_at : Instant
  pub sent_at : Instant
  pub id : Uuid
  pub lock : LockAnswer
  pub unlock_fails : Bool
  pub claim_fails : Bool
  pub reminders_fail : Bool
  pub points_fail : Bool
  pub recalls_fail : Bool
  pub recipients_fail : Bool
  pub reserve_fails : Bool
  pub send : Reply
  pub release_fails : Bool
  pub complete_fails : Bool

pub record DigestReport : Type 0 where
  pub lock_contended : Bool
  pub already_sent : Bool
  pub too_early : Bool
  pub week_start : Date
  pub overdue : ℕ
  pub due_soon : ℕ
  pub new_recalls : ℕ
  pub recipient_count : ℕ
  pub sent : Bool
  pub message : Option Message

-- A message that the relay accepted, with the week that it is for, and whether Send came to know of it.
pub record Delivery : Type 0 where
  pub week : Date
  pub message : Message
  pub is_confirmed : Bool

pub record World (F : Type 0) : Type 0 where
  pub tables : Tables F
  pub outbox : List Delivery

-- `failures` are the errors that the returned error joins.
pub record Outcome (F : Type 0) : Type 0 where
  pub world : World F
  pub report : DigestReport
  pub failures : List Failure

-- The runner's fields, and the outside code that it calls.
pub record DigestRunner (fl : Float) : Type 0 where
  pub zone : Zone
  pub public_url : Text
  pub allowed : Option (Text → Bool)
  pub links : Links
  pub parse_address : AddressParser

abbrev pub digest_send_hour : ℕ
digest_send_hour = 8

-- A time.Hour in nanoseconds.
abbrev pub hour : ℕ
hour = 3600000000000

unfoldable pub week_start : Date → Date
week_start day = sub_days ((weekday day + 6) % 7) day

abbrev pub new_report : Date → DigestReport
new_report week = record {
  lock_contended = false;
  already_sent = false;
  too_early = false;
  week_start = week;
  overdue = 0;
  due_soon = 0;
  new_recalls = 0;
  recipient_count = 0;
  sent = false;
  message = none;
}

abbrev pub is_soon : Status → Bool
is_soon soon = true
is_soon _ = false

abbrev pub keep_allowed : Option (Text → Bool) → List Text → List Text
keep_allowed none emails = emails
keep_allowed (some allowed) emails = filter allowed emails

abbrev pub is_empty {ℓ} : {A : Type ℓ} → List A → Bool
is_empty [] = true
is_empty (x ∷ xs) = false

module _ {fl : Float} (runner : DigestRunner fl) (a : Answers) where
  open fl use {F}
  open runner use {zone, public_url, allowed, links, parse_address}

  abbrev pub stop : World F → DigestReport → List Failure → Outcome F
  stop w report failures = record { world = w; report = report; failures = failures }

  abbrev pub delivered_to : World F → Date → Message → Bool → World F
  delivered_to w week message is_confirmed = record w {
    outbox =
        w.outbox ++ record { week = week; message = message; is_confirmed = is_confirmed } ∷ [];
  }

  -- An error of Send drops the claim.
  abbrev pub drop_claim : World F → DigestReport → Outcome F
  drop_claim w report =
      if a.release_fails
      then stop w report (send_error ∷ release_error ∷ [])
      else stop (record w { tables = release_reminder_digest a.id w.tables }) report
          (send_error ∷ [])

  -- After the send: the message is recorded, or the claim is dropped.
  unfoldable pub record_outcome : World F → DigestReport → Message → Reply → Outcome F
  record_outcome w report message refused = drop_claim w report
  record_outcome w report message lost =
      drop_claim (delivered_to w report.week_start message false) report
  record_outcome w report message (confirmed message_id) =
      let delivered = delivered_to w report.week_start message true in
      let done = record report { sent = true } in
      let (tables, found) = complete_reminder_digest a.id message_id a.sent_at w.tables in
      if a.complete_fails
      then stop delivered done (audit_error ∷ [])
      else stop (record delivered { tables = tables }) done (if found then [] else audit_error ∷ [])

  -- The claim of the week comes before the send.
  unfoldable pub claim_and_send :
      World F → DigestReport → List Recall → List Text → Message → Outcome F
  claim_and_send w report recalls recipients message =
      let (tables, reserved) =
        reserve_reminder_digest
          (record {
            id = a.id;
            week_start = report.week_start;
            reserved_at = a.reserved_at;
            recipients = recipients;
            recalls = map recall_key recalls;
          })
          w.tables in
      if a.reserve_fails
      then stop w report (reserve_error ∷ [])
      else if not reserved
      then stop w (record report { already_sent = true }) []
      else record_outcome (record w { tables = tables }) report message a.send

  unfoldable pub compose :
      Bool → World F → DigestReport → List (Evaluation F) → List Recall → Outcome F
  compose dry_run w report items recalls =
      let recipients = keep_allowed allowed (normalize_recipients parse_address w.tables.emails) in
      let message = render_digest links items recalls report.week_start public_url recipients in
      let counted = record report { recipient_count = length recipients } in
      if is_empty items && is_empty recalls
      then stop w report []
      else if a.recipients_fail
      then stop w report (recipients_error ∷ [])
      else if is_empty recipients
      then stop w counted (no_recipients ∷ [])
      else if dry_run
      then stop w (record counted { message = some message }) []
      else claim_and_send w (record counted { message = some message }) recalls recipients message

  unfoldable pub gather : Bool → Date → World F → DigestReport → Outcome F
  gather dry_run day w report =
      let reminders = w.tables.reminders in
      let points =
        list_mileage_points (projection_vehicles fl reminders)
          (sub_months estimate_window_months day) w.tables in
      let results = evaluate_all fl zone reminders points day in
      let items = filter (λ e. if is_due e.status then true else is_soon e.status) results in
      let evaluated = record report {
        overdue = count (λ (e : Evaluation F). is_due e.status) results;
        due_soon = count (λ (e : Evaluation F). is_soon e.status) results;
      } in
      let recalls = list_unnotified_recalls w.tables in
      if a.reminders_fail
      then stop w report (reminders_error ∷ [])
      else if a.points_fail
      then stop w report (points_error ∷ [])
      else if a.recalls_fail
      then stop w evaluated (recalls_error ∷ [])
      else compose dry_run w (record evaluated { new_recalls = length recalls }) items recalls

  unfoldable pub check_claim : Date → World F → DigestReport → Outcome F
  check_claim day w report =
      if a.claim_fails
      then stop w report (claim_error ∷ [])
      else if reminder_digest_claimed report.week_start w.tables
      then stop w (record report { already_sent = true }) []
      else gather false day w report

  -- The deferred unlock, whose error is joined to the run's.
  abbrev pub unlock : Outcome F → Outcome F
  unlock o = if a.unlock_fails then record o { failures = o.failures ++ unlock_error ∷ [] } else o

  abbrev pub locked : LockAnswer → Date → World F → DigestReport → Outcome F
  locked lock_failed day w report = stop w report (lock_error ∷ [])
  locked contended day w report = stop w (record report { lock_contended = true }) []
  locked acquired day w report = unlock (check_claim day w report)

  unfoldable pub run : Bool → World F → Outcome F
  run dry_run w =
      let day = today a.now zone in
      let week = week_start day in
      if dry_run
      then gather true day w (new_report week)
      else if ltb a.now (zone.midnight week + digest_send_hour * hour)
      then stop w (record (new_report week) { too_early = true }) []
      else locked a.lock day w (new_report week)
