-- ===== src/Email/Run.antt =====
-- One run of the reminder emails (Runner.Run of internal/reminderemail/runner.go, with the statements
-- of internal/repository/reminder_email.go). The answers of the outside world are values: those of a
-- reminder are a function of its place in the loop.
pub mod Rules
pub mod Spaced
use carma.Base.{
  ℕ, suc, ◌-◌, Bool, true, false, not, ◌&&◌, Option, none, some, List, [], ◌∷◌, ◌++◌, any, filter,
  length, ltb, leb, ◌==◌, if◌then◌else◌,
}
use carma.Base.Float.{Float}
use carma.Base.Text.{Text}
use carma.Calendar.Zone.{Zone, today}
use carma.Model.{Uuid, Instant, Record, Reminder, ReminderNotification}
use carma.Reminder.Evaluate.{Evaluation, evaluate}
use carma.Email.{Message}
use carma.Email.Render.{Links, render, is_due}
use carma.Email.Recipients.{AddressParser, normalize_recipients}

pub data EmailFailure : Type 0 where
  lock_error unlock_error reminders_error not_found canceled recipients_error : EmailFailure
  count_mismatch suppression_error no_recipients send_error audit_error : EmailFailure

pub record Options : Type 0 where
  pub dry_run : Bool
  pub reminder_id : Option Uuid
  pub require_recipient_count : Option ℕ

pub record Report : Type 0 where
  pub lock_contended : Bool
  pub target_found : Bool
  pub evaluated : ℕ
  pub due : ℕ
  pub suppressed : ℕ
  pub sent : ℕ
  pub failed : ℕ
  pub recipient_count : ℕ

-- What one pass of the loop gets from outside.
pub record PassAnswers : Type 0 where
  pub canceled : Bool
  pub suppression_fails : Bool
  pub recipients_fail : Bool
  pub send : Option Text
  pub id : Uuid
  pub sent_at : Instant
  pub audit_fails : Bool

-- The lock is none where asking for it fails.
pub record EmailAnswers : Type 0 where
  pub lock : Option Bool
  pub unlock_fails : Bool
  pub reminders_fail : Bool
  pub now : Instant
  pub pass : ℕ → PassAnswers

pub record EmailRunner (fl : Float) : Type 0 where
  pub zone : Zone
  pub public_url : Text
  pub policy : Option (Text → Bool)
  pub links : Links
  pub parse_address : AddressParser

-- The tables that a run reads and writes, and the messages that the relay accepted.
pub record Post (F : Type 0) : Type 0 where
  pub reminders : List (Reminder F)
  pub emails : List Text
  pub notifications : List ReminderNotification
  pub outbox : List Message

-- The loop's variables; `recipients` is none until they are loaded.
pub record Progress (F : Type 0) : Type 0 where
  pub post : Post F
  pub report : Report
  pub errors : List EmailFailure
  pub recipients : Option (List Text)

-- The next pass, or a return with an error before the errors so far.
pub data Pass (F : Type 0) : Type 0 where
  continue : Progress F → Pass F
  return : EmailFailure → Progress F → Pass F

-- 30 days in nanoseconds.
abbrev pub suppression_window : ℕ
suppression_window = 2592000000000000

-- SELECT EXISTS(... WHERE reminder_id=$1 AND sent_at >= $2)
unfoldable pub reminder_notification_since : Uuid → Instant → List ReminderNotification → Bool
reminder_notification_since id cutoff rows =
    any (λ n. n.reminder_id == id && leb cutoff n.sent_at) rows

module _ {fl : Float} (runner : EmailRunner fl) (options : Options) where
  open fl use {F}
  open runner use {zone, public_url, policy, links, parse_address}

  abbrev pub admit : Option (Text → Bool) → List Text → List Text
  admit none emails = emails
  admit (some test) emails = filter test emails

  abbrev pub loaded : List Text → Progress F → Progress F
  loaded recipients p = record p {
    recipients = some recipients;
    report = record (p.report) { recipient_count = length recipients };
  }

  abbrev pub load_from : Bool → Progress F → Option (List Text) → Option (List Text × Progress F)
  load_from fails p (some recipients) = some (recipients, p)
  load_from fails p none =
      let recipients = admit policy (normalize_recipients parse_address p.post.emails) in
      if fails then none else some (recipients, loaded recipients p)

  -- The recipients, and the progress once they are loaded; none where that fails.
  unfoldable pub load_recipients : Bool → Progress F → Option (List Text × Progress F)
  load_recipients fails p = load_from fails p p.recipients

  -- A newer baseline record moves the cutoff up to when it was logged.
  abbrev pub cutoff_from : Instant → Option Record → Instant
  cutoff_from start none = start
  cutoff_from start (some baseline) =
      if ltb start baseline.created_at then baseline.created_at else start

  unfoldable pub suppression_cutoff : Instant → Reminder F → Instant
  suppression_cutoff now r = cutoff_from (now - suppression_window) r.baseline

  abbrev pub fail : EmailFailure → Progress F → Progress F
  fail e p = record p {
    report = record (p.report) { failed = suc (p.report.failed) };
    errors = p.errors ++ e ∷ [];
  }

  abbrev pub accept : Message → Progress F → Progress F
  accept message p = record p { post = record (p.post) { outbox = p.post.outbox ++ message ∷ [] } }

  abbrev pub notification : PassAnswers → Reminder F → List Text → Text → ReminderNotification
  notification a r recipients message_id = record {
    id = a.id;
    reminder_id = r.id;
    sent_at = a.sent_at;
    recipients = recipients;
    message_id = message_id;
  }

  abbrev pub audit : ReminderNotification → Progress F → Progress F
  audit n p = record p {
    report = record (p.report) { sent = suc (p.report.sent) };
    post = record (p.post) { notifications = p.post.notifications ++ n ∷ [] };
  }

  unfoldable pub record_send :
      PassAnswers → Reminder F → List Text → Message → Option Text → Progress F → Progress F
  record_send a r recipients message none p = fail send_error p
  record_send a r recipients message (some message_id) p =
      if a.audit_fails
      then fail audit_error (accept message p)
      else audit (notification a r recipients message_id) (accept message p)

  abbrev pub is_empty : List Text → Bool
  is_empty [] = true
  is_empty (t ∷ ts) = false

  abbrev pub deliver :
      PassAnswers
      → Reminder F
      → Evaluation F
      → Progress F
      → Option (List Text × Progress F)
      → Pass F
  deliver a r result p none = return recipients_error p
  deliver a r result p (some (recipients, q)) =
      if is_empty recipients
      then return no_recipients q
      else if options.dry_run
      then continue q
      else continue
          (record_send a r recipients (render links result public_url recipients) a.send q)

  unfoldable pub handle_due :
      PassAnswers → Instant → Reminder F → Evaluation F → Progress F → Pass F
  handle_due a now r result p =
      if not (is_due result.status)
      then continue p
      else if a.suppression_fails
      then continue (fail suppression_error p)
      else if reminder_notification_since r.id (suppression_cutoff now r) p.post.notifications
      then continue
          (record p { report = record (p.report) { suppressed = suc (p.report.suppressed) } })
      else deliver a r result p (load_recipients a.recipients_fail p)

  abbrev pub check_count :
      PassAnswers
      → Instant
      → Reminder F
      → Evaluation F
      → ℕ
      → Progress F
      → Option (List Text × Progress F)
      → Pass F
  check_count a now r result required p none = return recipients_error p
  check_count a now r result required p (some (recipients, q)) =
      if not (length recipients == required)
      then return count_mismatch q
      else handle_due a now r result q

  abbrev pub check_required :
      PassAnswers → Instant → Reminder F → Evaluation F → Progress F → Option ℕ → Pass F
  check_required a now r result p none = handle_due a now r result p
  check_required a now r result p (some required) =
      check_count a now r result required p (load_recipients a.recipients_fail p)

  abbrev pub count_evaluated : Bool → Progress F → Progress F
  count_evaluated overdue p = record p {
    report = record (p.report) {
      evaluated = suc (p.report.evaluated);
      due = if overdue then suc (p.report.due) else p.report.due;
    };
  }

  unfoldable pub pass : PassAnswers → Instant → Reminder F → Progress F → Pass F
  pass a now r p =
      let result = evaluate fl zone r (today now zone) in
      if a.canceled
      then return canceled p
      else check_required a now r result (count_evaluated (is_due result.status) p)
          options.require_recipient_count

  module _ (a : EmailAnswers) where
    abbrev pub after_pass :
        Pass F → (Progress F → Progress F × List EmailFailure) → Progress F × List EmailFailure
    after_pass (continue p) next = next p
    after_pass (return e p) next = (p, e ∷ p.errors)

    unfoldable pub pass_loop : ℕ → List (Reminder F) → Progress F → Progress F × List EmailFailure
    pass_loop i [] p = (p, p.errors)
    pass_loop i (r ∷ rs) p = after_pass (pass (a.pass i) a.now r p) (λ q. pass_loop (suc i) rs q)

    abbrev pub no_report : Report
    no_report = record {
      lock_contended = false;
      target_found = false;
      evaluated = 0;
      due = 0;
      suppressed = 0;
      sent = 0;
      failed = 0;
      recipient_count = 0;
    }

    abbrev pub start_at : Post F → Report → Progress F
    start_at post report = record { post = post; report = report; errors = []; recipients = none }

    unfoldable pub select : Post F → Option Uuid → Progress F × List EmailFailure
    select post none =
        pass_loop 0 post.reminders (start_at post (record no_report { target_found = true }))
    select post (some id) =
        let targets = filter (λ (r : Reminder F). r.id == id) post.reminders in
        let found = any (λ (r : Reminder F). r.id == id) post.reminders in
        if not found
        then (start_at post no_report, not_found ∷ [])
        else pass_loop 0 targets (start_at post (record no_report { target_found = true }))

    unfoldable pub send_all : Post F → Progress F × List EmailFailure
    send_all post =
        if a.reminders_fail
        then (start_at post no_report, reminders_error ∷ [])
        else select post options.reminder_id

    abbrev pub unlock_mail : Progress F × List EmailFailure → Progress F × List EmailFailure
    unlock_mail (p, errors) = (p, if a.unlock_fails then errors ++ unlock_error ∷ [] else errors)

    abbrev pub under_lock : Post F → Option Bool → Progress F × List EmailFailure
    under_lock post none = (start_at post no_report, lock_error ∷ [])
    under_lock post (some false) = (start_at post (record no_report { lock_contended = true }), [])
    under_lock post (some true) = unlock_mail (send_all post)

    unfoldable pub run_emails : Post F → Progress F × List EmailFailure
    run_emails post = if options.dry_run then send_all post else under_lock post a.lock
