-- ===== src/Examples/Digests.antt =====
-- The weekly digest at work.
use carma.Base.{◌≡◌, refl, true, false, none, some, [], ◌∷◌}
use carma.Base.Int.{ℤ}
use carma.Base.Text.{text, text_eq, trim_space, to_lower}
use carma.Calendar.{date, sub_days, previous}
use carma.Calendar.Days.{day_number}
use carma.Calendar.Zone.{Zone, weekday, today}
use carma.Model.{Recall, ReminderDigest}
use carma.Email.Render.{Links, render_digest}
use carma.Email.Recipients.{plain_address, has_two_parts, AddressParser, normalize_recipients}
use carma.Digest.Store.{
  Tables, claimed, announced, list_unnotified_recalls, list_mileage_points, with_claim,
  release_reminder_digest,
}
use carma.Digest.Store.Facts.{Fresh, release-with_claim}
use carma.Reminder.Evaluate.{evaluate_all, projection_vehicles}
use carma.Digest.Run.{confirmed, refused, Answers, acquired, World, DigestRunner, run, week_start}
use carma.Digest.Run.Once.{Once, start, ran, Reached-Once}
use carma.Digest.Run.Send.{Healthy, Sent, run-Sent, run-refused, run_dry}
use carma.Examples.{whole_numbers}

-- An address parser that takes the whole text for the address.
abbrev whole_address : AddressParser
whole_address value = some ([], value)

abbrev links : Links
links = record { uuid_path = λ id. text "id"; query_escape = λ t. t }

-- Thursday, January 15, 2026, whose week starts on the 12th at instant 0.
abbrev january : Zone
january = record { date_of = λ now. date 2026 1 15; midnight = λ day. 0 }

abbrev runner : DigestRunner whole_numbers
runner = record {
  zone = january;
  public_url = text "https://carma.example";
  allowed = none;
  links = links;
  parse_address = whole_address;
}

abbrev airbag : Recall
airbag = record {
  vehicle_id = 1;
  vehicle_name = text "Wagon";
  vehicle_vin = [];
  campaign_number = text "26V001";
  component = text "AIR BAGS";
  summary = text "May rupture.";
  consequence = [];
  remedy = [];
  report_received_on = none;
  park_it = false;
  park_outside = false;
  first_seen_at = 4;
  dismissed_at = none;
}

abbrev household : Tables ℤ
household = record {
  digests = [];
  notifications = [];
  vehicles = 1 ∷ [];
  open_recalls = airbag ∷ [];
  reminders = [];
  points = [];
  emails = text "Sam@carma.example" ∷ text "sam@carma.example" ∷ [];
}

abbrev quiet : World ℤ
quiet = record { tables = household; outbox = [] }

abbrev answers : Answers
answers = record {
  now = 86400000000000;
  reserved_at = 86400000000001;
  sent_at = 86400000000002;
  id = 77;
  lock = acquired;
  unlock_fails = false;
  claim_fails = false;
  reminders_fail = false;
  points_fail = false;
  recalls_fail = false;
  recipients_fail = false;
  reserve_fails = false;
  send = confirmed (text "<1@carma.example>");
  release_fails = false;
  complete_fails = false;
}

abbrev refusing : Answers
refusing = record answers { send = refused }

monday : week_start (date 2026 1 15) ≡ date 2026 1 12
unfolding week_start sub_days weekday day_number previous
monday = refl

abbrev claim : ReminderDigest
claim = record {
  id = 77;
  week_start = date 2026 1 12;
  reserved_at = 5;
  recipients = text "sam@carma.example" ∷ [];
  recalls = record { vehicle_id = 1; campaign_number = text "26V001" } ∷ [];
}

household-Fresh : Fresh 77 household
household-Fresh = record { no_digest = refl; no_notification = refl }

Reached-Once_example : Once (run runner answers false quiet).world
Reached-Once_example =
    Reached-Once runner (run runner answers false quiet).world
      (ran quiet answers false (start household) household-Fresh)

run-refused_example : (run runner refusing false quiet).world ≡ quiet
run-refused_example = run-refused runner refusing false quiet refl refl household-Fresh

run_dry_example : (run runner answers true quiet).world ≡ quiet
run_dry_example = run_dry runner answers quiet

all_well : Healthy runner answers
all_well = record {
  locks = refl;
  unlocks = refl;
  claims = refl;
  lists_reminders = refl;
  lists_points = refl;
  lists_recalls = refl;
  lists_recipients = refl;
  reserves = refl;
  completes = refl;
}

release-with_claim_example : release_reminder_digest 77 (with_claim claim household) ≡ household
release-with_claim_example = release-with_claim claim household household-Fresh

run-Sent_example :
    Sent runner answers quiet
      (week_start (date 2026 1 15))
      (render_digest links {F = ℤ} []
        (airbag ∷ [])
        (week_start (date 2026 1 15))
        (text "https://carma.example")
        (normalize_recipients whole_address household.emails))
      (run runner answers false quiet)
unfolding today week_start sub_days weekday day_number previous claimed announced evaluate_all
    projection_vehicles list_unnotified_recalls list_mileage_points normalize_recipients
    plain_address has_two_parts trim_space to_lower text_eq
run-Sent_example =
    run-Sent runner answers all_well (text "<1@carma.example>") refl quiet refl refl refl refl
