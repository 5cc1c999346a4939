-- ===== src/Digest/Run/Send.antt =====
-- What a run does to the world: nothing where no message leaves, one message where all goes well, and a
-- message without a claim where its confirmation is lost.
use carma.Base.{
  ◌+◌, ◌*◌, ◌≡◌, refl, ap, ◌∙◌, inl, inr, Bool, true, false, ◌&&◌, none, List, [], ◌∷◌, ◌++◌, arith,
  ltb, ◌==◌, ==_iff, if◌then◌else◌, filter, Bool-cases, any, any-append, map,
}
use carma.Base.Float.{Float}
use carma.Base.Text.{Text}
use carma.Calendar.{Date, sub_months}
use carma.Calendar.Zone.{today}
use carma.Model.{Recall, ReminderDigest}
use carma.Reminder.Estimate.{estimate_window_months}
use carma.Reminder.Evaluate.{Evaluation, evaluate_all, projection_vehicles}
use carma.Email.Render.{render_digest, is_due}
use carma.Email.Recipients.{normalize_recipients}
use carma.Email.{Message}
use carma.Digest.Store.{
  list_unnotified_recalls, list_mileage_points, claimed, with_claim, recall_key,
  reserve_reminder_digest, reminder_digest_claimed, complete_reminder_digest,
}
use carma.Digest.Store.Facts.{Fresh, release-with_claim}
use carma.Digest.Run.{
  confirmed, refused, lost, delivered_to, acquired, Answers, DigestReport, World, Outcome,
  DigestRunner, record_outcome, claim_and_send, compose, gather, check_claim, locked, run,
  week_start, digest_send_hour, hour, is_empty, is_soon, keep_allowed,
}
use carma.Digest.Run.Once.{either, run_keeps}

module _ {fl : Float} (runner : DigestRunner fl) (a : Answers) where
  open fl use {F}

  -- A refused message whose claim is dropped leaves no trace: the tables and the outbox are as before
  -- the run, if the claim's ID is new.
  pub run-refused :
      (dry_run : Bool) (w : World F)
      → a.send ≡ refused
      → a.release_fails ≡ false
      → Fresh a.id w.tables
      → (run runner a dry_run w).world ≡ w
  unfolding claim_and_send reserve_reminder_digest record_outcome
  run-refused dry_run w refusal released fresh =
      run_keeps runner a (λ v. v ≡ w) w refl sending dry_run
    where
      claim_of : DigestReport → List Text → List Recall → ReminderDigest
      claim_of report recipients recalls = record {
        id = a.id;
        week_start = report.week_start;
        reserved_at = a.reserved_at;
        recipients = recipients;
        recalls = map recall_key recalls;
      }

      sending :
          (report : DigestReport) (recalls : List Recall) (recipients : List Text)
          (message : Message)
          → (claim_and_send runner a w report recalls recipients message).world ≡ w
      sending report recalls recipients message =
          elim (Bool-cases (claimed report.week_start w.tables.digests)) [
            | inl taken ↦ rw taken (either (λ v. v ≡ w) a.reserve_fails _ _ refl refl)
            | inr free ↦ rw free (
                either (λ v. v ≡ w) a.reserve_fails _ _ refl
                  (rw (refusal, released)
                    (ap (λ t. record w { tables = t })
                      (release-with_claim (claim_of report recipients recalls) w.tables fresh))))
          ]

  compose_dry :
      (w : World F) (report : DigestReport) (items : List (Evaluation F)) (recalls : List Recall)
      → (compose runner a true w report items recalls).world ≡ w
  unfolding compose
  compose_dry w report items recalls = search (either (λ v. v ≡ w))

  gather_dry :
      (day : Date) (w : World F) (report : DigestReport)
      → (gather runner a true day w report).world ≡ w
  unfolding gather
  gather_dry day w report = search (either (λ v. v ≡ w), compose_dry w)

  -- A dry run changes nothing, whatever fails.
  pub run_dry : (w : World F) → (run runner a true w).world ≡ w
  unfolding run
  run_dry w = gather_dry (today a.now runner.zone) w _

  -- All goes well: the lock is got and nothing fails.
  pub record Healthy : Type 0 where
    pub locks : a.lock ≡ acquired
    pub unlocks : a.unlock_fails ≡ false
    pub claims : a.claim_fails ≡ false
    pub lists_reminders : a.reminders_fail ≡ false
    pub lists_points : a.points_fail ≡ false
    pub lists_recalls : a.recalls_fail ≡ false
    pub lists_recipients : a.recipients_fail ≡ false
    pub reserves : a.reserve_fails ≡ false
    pub completes : a.complete_fails ≡ false

  abbrev pub items_of : World F → Date → List (Evaluation F)
  items_of w day =
      filter (λ e. if is_due e.status then true else is_soon e.status)
        (evaluate_all fl runner.zone w.tables.reminders
          (list_mileage_points (projection_vehicles fl w.tables.reminders)
            (sub_months estimate_window_months day) w.tables)
          day)

  abbrev pub recipients_of : World F → List Text
  recipients_of w =
      keep_allowed runner.allowed (normalize_recipients runner.parse_address w.tables.emails)

  -- The outcome of a run that sent one message, and could do all that it meant to do.
  pub record Sent (w : World F) (week : Date) (message : Message) (o : Outcome F) : Type 0 where
    pub no_failure : o.failures ≡ []
    pub reported : o.report.sent ≡ true
    pub posted :
        o.world.outbox
        ≡ w.outbox ++ record { week = week; message = message; is_confirmed = true } ∷ []

  -- What the claim and the send of a free week do, a run does that has a message to send.
  module _ {ℓ} (h : Healthy) (w : World F) (P : Date → Message → Outcome F → Type ℓ)
      (sending : (report : DigestReport) (recalls : List Recall) (recipients : List Text)
          (message : Message)
        → claimed report.week_start w.tables.digests ≡ false
        → P report.week_start message
            (claim_and_send runner a w report recalls recipients message)) where
    compose-sends :
        (report : DigestReport) (items : List (Evaluation F)) (recalls : List Recall)
        → claimed report.week_start w.tables.digests ≡ false
        → (is_empty items && is_empty recalls) ≡ false
        → is_empty (recipients_of w) ≡ false
        → P report.week_start
            (render_digest runner.links items recalls report.week_start runner.public_url
              (recipients_of w))
            (compose runner a false w report items recalls)
    unfolding compose
    compose-sends report items recalls free news somebody =
        simp (news, h.lists_recipients, somebody) (sending _ recalls (recipients_of w) _ free)

    gather-sends :
        (day : Date) (report : DigestReport)
        → claimed report.week_start w.tables.digests ≡ false
        → (is_empty (items_of w day) && is_empty (list_unnotified_recalls w.tables)) ≡ false
        → is_empty (recipients_of w) ≡ false
        → P report.week_start
            (render_digest runner.links
              (items_of w day)
              (list_unnotified_recalls w.tables)
              report.week_start
              runner.public_url
              (recipients_of w))
            (gather runner a false day w report)
    unfolding gather
    gather-sends day report free news somebody =
        simp (h.lists_reminders, h.lists_points, h.lists_recalls)
          (compose-sends _ (items_of w day) (list_unnotified_recalls w.tables) free news somebody)

    locked-sends :
        (day : Date) (report : DigestReport)
        → claimed report.week_start w.tables.digests ≡ false
        → (is_empty (items_of w day) && is_empty (list_unnotified_recalls w.tables)) ≡ false
        → is_empty (recipients_of w) ≡ false
        → P report.week_start
            (render_digest runner.links
              (items_of w day)
              (list_unnotified_recalls w.tables)
              report.week_start
              runner.public_url
              (recipients_of w))
            (locked runner a acquired day w report)
    unfolding check_claim reminder_digest_claimed
    locked-sends day report free news somebody =
        simp (h.unlocks, h.claims, free) (gather-sends day report free news somebody)

    run-sends :
        ltb a.now
            (runner.zone.midnight (week_start (today a.now runner.zone)) + digest_send_hour * hour)
          ≡ false
        → claimed (week_start (today a.now runner.zone)) w.tables.digests ≡ false
        → (is_empty (items_of w (today a.now runner.zone))
            && is_empty (list_unnotified_recalls w.tables))
          ≡ false
        → is_empty (recipients_of w) ≡ false
        → P
            (week_start (today a.now runner.zone))
            (render_digest runner.links
              (items_of w (today a.now runner.zone))
              (list_unnotified_recalls w.tables)
              (week_start (today a.now runner.zone))
              runner.public_url
              (recipients_of w))
            (run runner a false w)
    unfolding run
    run-sends on_time free news somebody =
        simp (on_time, h.locks) (locked-sends (today a.now runner.zone) _ free news somebody)

  module _ (h : Healthy) (id : Text) (sent : a.send ≡ confirmed id) (w : World F) where
    record_outcome-Sent :
        (d : ReminderDigest) (report : DigestReport) (message : Message)
        → d.id ≡ a.id
        → Sent w report.week_start message (
            record_outcome runner a
              (record w { tables = with_claim d w.tables })
              report
              message
              (confirmed id))
    unfolding record_outcome complete_reminder_digest with_claim
    record_outcome-Sent d report message same =
        simp (h.completes, found) (record { no_failure = refl; reported = refl; posted = refl })
      where
        found :
            any
              (λ row. row.id == a.id)
              (w.tables.digests
                ++ record {
                  id = d.id;
                  week_start = d.week_start;
                  reserved_at = d.reserved_at;
                  recipients = d.recipients;
                  sent = none;
                }
                  ∷ [])
            ≡ true
        found =
            any-append (λ row. row.id == a.id) w.tables.digests _ ∙ ground (arith, ==_iff d.id a.id)

    claim_and_send-Sent :
        (report : DigestReport) (recalls : List Recall) (recipients : List Text) (message : Message)
        → claimed report.week_start w.tables.digests ≡ false
        → Sent w report.week_start message
            (claim_and_send runner a w report recalls recipients message)
    unfolding claim_and_send reserve_reminder_digest
    claim_and_send-Sent report recalls recipients message free =
        simp (free, h.reserves, sent) (record_outcome-Sent _ report message refl)

    -- From Monday 08:00 on, a week that is not claimed, with something to say and somebody to say it
    -- to, is sent if nothing fails: the report says so, no error is returned, and the relay accepts
    -- one message more, the digest of the day's evaluations and of the new recalls.
    pub run-Sent :
        ltb a.now
            (runner.zone.midnight (week_start (today a.now runner.zone)) + digest_send_hour * hour)
          ≡ false
        → claimed (week_start (today a.now runner.zone)) w.tables.digests ≡ false
        → (is_empty (items_of w (today a.now runner.zone))
            && is_empty (list_unnotified_recalls w.tables))
          ≡ false
        → is_empty (recipients_of w) ≡ false
        → Sent w
            (week_start (today a.now runner.zone))
            (render_digest runner.links
              (items_of w (today a.now runner.zone))
              (list_unnotified_recalls w.tables)
              (week_start (today a.now runner.zone))
              runner.public_url
              (recipients_of w))
            (run runner a false w)
    run-Sent on_time free news somebody =
        run-sends h w (Sent w) claim_and_send-Sent on_time free news somebody

  -- The confirmation of a message was lost, and its claim was dropped.
  abbrev Lost : World F → Date → Message → Outcome F → Type 0
  Lost w week message o = o.world ≡ delivered_to runner a w week message false

  module _ (missed : a.send ≡ lost) (released : a.release_fails ≡ false) (h : Healthy) (w : World F)
      (fresh : Fresh a.id w.tables) where
    claim_and_send-Lost :
        (report : DigestReport) (recalls : List Recall) (recipients : List Text) (message : Message)
        → claimed report.week_start w.tables.digests ≡ false
        → Lost w report.week_start message
            (claim_and_send runner a w report recalls recipients message)
    unfolding claim_and_send reserve_reminder_digest record_outcome
    claim_and_send-Lost report recalls recipients message free =
        simp (free, h.reserves, missed, released)
          (ap (λ t. record (delivered_to runner a w report.week_start message false) { tables = t })
            (release-with_claim
              (record {
                id = a.id;
                week_start = report.week_start;
                reserved_at = a.reserved_at;
                recipients = recipients;
                recalls = map recall_key recalls;
              })
              w.tables fresh))

    -- A message whose confirmation is lost has left, but its week is as free as it was, if the claim is
    -- dropped under a new ID and nothing else fails: the next run has it to send again.
    pub run-lost :
        ltb a.now
            (runner.zone.midnight (week_start (today a.now runner.zone)) + digest_send_hour * hour)
          ≡ false
        → claimed (week_start (today a.now runner.zone)) w.tables.digests ≡ false
        → (is_empty (items_of w (today a.now runner.zone))
            && is_empty (list_unnotified_recalls w.tables))
          ≡ false
        → is_empty (recipients_of w) ≡ false
        → (run runner a false w).world
          ≡ delivered_to runner a w
              (week_start (today a.now runner.zone))
              (render_digest runner.links
                (items_of w (today a.now runner.zone))
                (list_unnotified_recalls w.tables)
                (week_start (today a.now runner.zone))
                runner.public_url
                (recipients_of w))
              false
    run-lost on_time free news somebody =
        run-sends h w (Lost w) claim_and_send-Lost on_time free news somebody
