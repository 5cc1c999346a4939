-- ===== src/Examples/Emails.antt =====
-- The reminder emails at work.
use carma.Base.{true, false, none, some, [], ◌∷◌, arith}
use carma.Base.Int.{ℤ}
use carma.Base.Text.{text}
use carma.Calendar.{date}
use carma.Calendar.Zone.{Zone}
use carma.Model.{Uuid, Instant, ReminderNotification}
use carma.Email.Run.{Options, PassAnswers, EmailAnswers, EmailRunner, Post, run_emails}
use carma.Email.Run.Spaced.{SpacedBy, run_emails-SpacedBy}
use carma.Examples.{whole_numbers, every_six_months}

-- August 1, 2026, when the oil change is overdue.
abbrev august : Zone
august = record { date_of = λ now. date 2026 8 1; midnight = λ day. 0 }

abbrev runner : EmailRunner whole_numbers
runner = record {
  zone = august;
  public_url = text "https://carma.example";
  policy = none;
  links = record { uuid_path = λ id. text "id"; query_escape = λ t. t };
  parse_address = λ value. some ([], value);
}

abbrev options : Options
options = record { dry_run = false; reminder_id = none; require_recipient_count = none }

abbrev pass_answers : PassAnswers
pass_answers = record {
  canceled = false;
  suppression_fails = false;
  recipients_fail = false;
  send = some (text "<2@carma.example>");
  id = 12;
  sent_at = 9000000000000001;
  audit_fails = false;
}

abbrev answers : EmailAnswers
answers = record {
  lock = some true;
  unlock_fails = false;
  reminders_fail = false;
  now = 9000000000000000;
  pass = λ i. pass_answers;
}

-- An email of 40 days before.
abbrev earlier : ReminderNotification
earlier = record {
  id = 11;
  reminder_id = 9;
  sent_at = 5544000000000000;
  recipients = text "sam@carma.example" ∷ [];
  message_id = text "<1@carma.example>";
}

abbrev post : Post ℤ
post = record {
  reminders = every_six_months ∷ [];
  emails = text "sam@carma.example" ∷ [];
  notifications = earlier ∷ [];
  outbox = [];
}

abbrev logged : Uuid → Instant
logged id = 5

run_emails-SpacedBy_example :
    SpacedBy logged (run_emails runner options answers post).0.post.notifications
run_emails-SpacedBy_example =
    run_emails-SpacedBy runner options logged answers post (λ i. omega arith) (omega arith, tt)
      (tt, tt)
