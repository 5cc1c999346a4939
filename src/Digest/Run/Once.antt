-- ===== src/Digest/Run/Once.antt =====
-- A confirmed message is the last of its week, whatever fails.
use carma.Base.{
  ◌≡◌, ◌≢◌, refl, sym, ap, ◌∙◌, inl, inr, Bool, true, false, List, [], ◌∷◌, ◌++◌, arith,
  if◌then◌else◌, Bool-cases, All, count, count-append, map,
}
use carma.Base.Float.{Float}
use carma.Base.Text.{Text}
use carma.Calendar.{Date}
use carma.Model.{Recall, ReminderDigest}
use carma.Reminder.Evaluate.{Evaluation}
use carma.Email.{Message}
use carma.Digest.Store.{
  Tables, DigestRow, same_date, claimed, with_claim, recall_key, reserve_reminder_digest,
  complete_reminder_digest,
}
use carma.Digest.Store.Facts.{Fresh, with_claim-claimed, release-with_claim, complete-claimed}
use carma.Digest.Run.{
  LockAnswer, lock_failed, contended, acquired, Reply, confirmed, refused, lost, Answers,
  DigestReport, Delivery, World, Outcome, DigestRunner, record_outcome, claim_and_send, compose,
  gather, check_claim, locked, run,
}

-- No later message is of the week of a confirmed one.
abbrev pub Final : List Delivery → Type 0
Final [] = Unit
Final (d ∷ outbox) =
    (d.is_confirmed ≡ true → count (λ e. same_date e.week d.week) outbox ≡ 0) × Final outbox

-- The week of each confirmed message is still claimed, and the message is the last of its week.
pub record Once {F : Type 0} (w : World F) : Type 0 where
  pub covered : All (λ d. d.is_confirmed ≡ true → claimed d.week w.tables.digests ≡ true) w.outbox
  pub final : Final w.outbox

same_date-eq : (a b : Date) → same_date a b ≡ true → a ≡ b
same_date-eq a b h = ground arith

same_date_refl : (t : Date) → same_date t t ≡ true
same_date_refl t = ground arith

-- Claims are only added.
covered_mono :
    (rows more : List DigestRow) (outbox : List Delivery)
    → ((week : Date) → claimed week rows ≡ true → claimed week more ≡ true)
    → All (λ d. d.is_confirmed ≡ true → claimed d.week rows ≡ true) outbox
    → All (λ d. d.is_confirmed ≡ true → claimed d.week more ≡ true) outbox
covered_mono rows more [] grow h = tt
covered_mono rows more (d ∷ outbox) grow h =
    ((λ sure. grow d.week (h.0 sure)), covered_mono rows more outbox grow h.1)

covered_snoc :
    (rows : List DigestRow) (outbox : List Delivery) (d : Delivery)
    → All (λ e. e.is_confirmed ≡ true → claimed e.week rows ≡ true) outbox
    → (d.is_confirmed ≡ true → claimed d.week rows ≡ true)
    → All (λ e. e.is_confirmed ≡ true → claimed e.week rows ≡ true) (outbox ++ d ∷ [])
covered_snoc rows [] d h k = (k, tt)
covered_snoc rows (e ∷ outbox) d h k = (h.0, covered_snoc rows outbox d h.1 k)

-- A claimed week is another one than a week that is not claimed.
other_week :
    (rows : List DigestRow) (week taken : Date)
    → claimed week rows ≡ false
    → claimed taken rows ≡ true
    → same_date week taken ≡ false
other_week rows week taken free held = elim (Bool-cases (same_date week taken)) [
  | inl same ↦
      absurd
        (clash (sym held ∙ ap (λ x. claimed x rows) (sym (same_date-eq week taken same)) ∙ free))
  | inr other ↦ other
]
  where
    clash : ◌≢◌ {A = Bool} true false
    clash e = cc

-- A message of a week that is not claimed leaves the confirmed ones the last of their weeks.
Final-snoc :
    (rows : List DigestRow) (outbox : List Delivery) (d : Delivery)
    → claimed d.week rows ≡ false
    → All (λ e. e.is_confirmed ≡ true → claimed e.week rows ≡ true) outbox
    → Final outbox
    → Final (outbox ++ d ∷ [])
Final-snoc rows [] d free h f = ((λ sure. refl), tt)
Final-snoc rows (e ∷ outbox) d free h f = (
  (λ sure. ground (
    arith,
    count-append (λ x. same_date x.week e.week) outbox (d ∷ []),
    f.0 sure,
    other_week rows d.week e.week free (h.0 sure),
  )),
  Final-snoc rows outbox d free h.1 f.1,
)

pub either {ℓ} :
    {F : Type 0} (P : World F → Type ℓ) (b : Bool) (x y : Outcome F)
    → P x.world
    → P y.world
    → P (if b then x else y).world
either P true x y h k = h
either P false x y h k = k

module _ {fl : Float} (runner : DigestRunner fl) (a : Answers) where
  open fl use {F}

  -- What holds of the world before the claim and after the claim and the send holds after the run.
  module _ {ℓ} (P : World F → Type ℓ) (w : World F) (before : P w)
      (sending : (report : DigestReport) (recalls : List Recall) (recipients : List Text)
          (message : Message)
        → P (claim_and_send runner a w report recalls recipients message).world) where
    compose_keeps :
        (dry_run : Bool) (report : DigestReport) (items : List (Evaluation F))
        (recalls : List Recall)
        → P (compose runner a dry_run w report items recalls).world
    unfolding compose
    compose_keeps dry_run report items recalls = search (either P, sending)

    gather_keeps :
        (dry_run : Bool) (day : Date) (report : DigestReport)
        → P (gather runner a dry_run day w report).world
    unfolding gather
    gather_keeps dry_run day report = search (either P, compose_keeps dry_run)

    check_claim_keeps :
        (day : Date) (report : DigestReport) → P (check_claim runner a day w report).world
    unfolding check_claim
    check_claim_keeps day report = search (either P, gather_keeps false)

    locked_keeps :
        (lock : LockAnswer) (day : Date) (report : DigestReport)
        → P (locked runner a lock day w report).world
    locked_keeps lock_failed day report = before
    locked_keeps contended day report = before
    locked_keeps acquired day report = search (either P, check_claim_keeps)

    pub run_keeps : (dry_run : Bool) → P (run runner a dry_run w).world
    unfolding run
    run_keeps dry_run = search (either P, gather_keeps true, locked_keeps)

  module _ (w : World F) (fresh : Fresh a.id w.tables) (once : Once w) where
    abbrev claim_of : DigestReport → List Recall → List Text → ReminderDigest
    claim_of report recalls recipients = record {
      id = a.id;
      week_start = report.week_start;
      reserved_at = a.reserved_at;
      recipients = recipients;
      recalls = map recall_key recalls;
    }

    abbrev claimed_world : ReminderDigest → World F
    claimed_world d = record w { tables = with_claim d w.tables }

    grows :
        (d : ReminderDigest) (week : Date)
        → claimed week w.tables.digests ≡ true
        → claimed week (with_claim d w.tables).digests ≡ true
    grows d week h = with_claim-claimed d w.tables week ∙ rw h

    own : (d : ReminderDigest) → claimed d.week_start (with_claim d w.tables).digests ≡ true
    own d = with_claim-claimed d w.tables d.week_start ∙ ground (arith, same_date_refl d.week_start)

    Once-claimed : (d : ReminderDigest) → Once (claimed_world d)
    Once-claimed d = record {
      covered =
          covered_mono w.tables.digests (with_claim d w.tables).digests w.outbox (grows d)
            once.covered;
      final = once.final;
    }

    delivery : Date → Message → Bool → Delivery
    delivery week message is_confirmed = record {
      week = week;
      message = message;
      is_confirmed = is_confirmed;
    }

    -- The message of a new claim, with the claim kept.
    delivered-Once :
        (d : ReminderDigest) (t : Tables F) (message : Message) (is_confirmed : Bool)
        → ((week : Date) → claimed week t.digests ≡ claimed week (with_claim d w.tables).digests)
        → claimed d.week_start w.tables.digests ≡ false
        → Once (record {
          tables = t;
          outbox = w.outbox ++ delivery d.week_start message is_confirmed ∷ [];
        })
    unfolding delivery
    delivered-Once d t message is_confirmed same free = record {
      covered =
          covered_snoc t.digests w.outbox (delivery d.week_start message is_confirmed)
            (covered_mono w.tables.digests t.digests w.outbox (λ week h. same week ∙ grows d week h)
              once.covered)
            (λ sure. same d.week_start ∙ own d);
      final =
          Final-snoc w.tables.digests w.outbox (delivery d.week_start message is_confirmed) free
            once.covered once.final;
    }

    -- A message that was not confirmed, with its claim dropped.
    dropped-Once :
        (week : Date) (message : Message)
        → claimed week w.tables.digests ≡ false
        → Once (record { tables = w.tables; outbox = w.outbox ++ delivery week message false ∷ [] })
    unfolding delivery
    dropped-Once week message free = record {
      covered =
          covered_snoc w.tables.digests w.outbox (delivery week message false) once.covered
            (λ never. cc);
      final =
          Final-snoc w.tables.digests w.outbox (delivery week message false) free once.covered
            once.final;
    }

    record_outcome-Once :
        (report : DigestReport) (recalls : List Recall) (recipients : List Text) (message : Message)
        (send : Reply)
        → claimed report.week_start w.tables.digests ≡ false
        → Once
            (record_outcome runner a
              (claimed_world (claim_of report recalls recipients))
              report
              message
              send).world
    unfolding record_outcome delivery
    record_outcome-Once report recalls recipients message refused free =
        either Once a.release_fails _ _ (Once-claimed (claim_of report recalls recipients))
          (rw (release-with_claim (claim_of report recalls recipients) w.tables fresh) once)
    record_outcome-Once report recalls recipients message lost free =
        either Once a.release_fails _ _
          (delivered-Once d (with_claim d w.tables) message false (λ week. refl) free)
          (rw (release-with_claim d w.tables fresh) (dropped-Once report.week_start message free))
      where
        d : ReminderDigest
        d = claim_of report recalls recipients
    record_outcome-Once report recalls recipients message (confirmed id) free =
        either Once a.complete_fails _ _
          (delivered-Once d (with_claim d w.tables) message true (λ week. refl) free)
          (delivered-Once d (complete_reminder_digest a.id id a.sent_at (with_claim d w.tables)).0
            message true (λ week. complete-claimed a.id id a.sent_at week (with_claim d w.tables))
            free)
      where
        d : ReminderDigest
        d = claim_of report recalls recipients

    claim_and_send-Once :
        (report : DigestReport) (recalls : List Recall) (recipients : List Text) (message : Message)
        → Once (claim_and_send runner a w report recalls recipients message).world
    unfolding claim_and_send reserve_reminder_digest
    claim_and_send-Once report recalls recipients message =
        elim (Bool-cases (claimed report.week_start w.tables.digests)) [
          | inl taken ↦ rw taken (either Once a.reserve_fails _ _ once once)
          | inr free ↦ rw free (
              either Once a.reserve_fails _ _ once
                (record_outcome-Once report recalls recipients message a.send free))
        ]

  -- A run keeps it so that no message follows a confirmed one of its week and the week of each confirmed
  -- message is claimed, whatever the lock, the database and the relay answer, where the claim's ID is new.
  pub run-Once :
      (dry_run : Bool) (w : World F)
      → Fresh a.id w.tables
      → Once w
      → Once (run runner a dry_run w).world
  run-Once dry_run w fresh once = run_keeps Once w once (claim_and_send-Once w fresh once) dry_run

-- The worlds that the digest can come to: nothing was sent at first, a run has a new ID, a claim may be
-- committed although the run got an error for it, and between the runs all but the claimed weeks may change.
pub data Reached {fl : Float} (runner : DigestRunner fl) : World (Float.F fl) → Type 0 where
  start : (t : Tables (Float.F fl)) → Reached runner (record { tables = t; outbox = [] })
  ran :
      (w : World (Float.F fl)) (a : Answers) (dry_run : Bool)
      → Reached runner w
      → Fresh a.id w.tables
      → Reached runner (run runner a dry_run w).world
  claimed_unknown :
      (w : World (Float.F fl)) (d : ReminderDigest)
      → Reached runner w
      → Reached runner (record w { tables = (reserve_reminder_digest d w.tables).0 })
  edited :
      (w : World (Float.F fl)) (t : Tables (Float.F fl))
      → Reached runner w
      → t.digests ≡ w.tables.digests
      → Reached runner (record w { tables = t })

reserved-grows :
    {F : Type 0} (d : ReminderDigest) (t : Tables F) (week : Date)
    → claimed week t.digests ≡ true
    → claimed week (reserve_reminder_digest d t).0.digests ≡ true
unfolding reserve_reminder_digest
reserved-grows d t week h = elim (Bool-cases (claimed d.week_start t.digests)) [
  | inl taken ↦ rw taken h
  | inr free ↦ rw free (with_claim-claimed d t week ∙ rw h)
]

-- However the runs go, and whatever else changes between them, no digest of a week reaches the relay after
-- one of the same week whose acceptance the relay confirmed, and the week of each confirmed digest is
-- claimed, if each run's claim has a new ID. So a week that is sent twice was sent first without a
-- confirmation: the reply was lost.
pub Reached-Once :
    {fl : Float} (runner : DigestRunner fl) (w : World (Float.F fl)) → Reached runner w → Once w
Reached-Once runner _ (start t) = record { covered = tt; final = tt }
Reached-Once runner _ (ran w a dry_run r fresh) =
    run-Once runner a dry_run w fresh (Reached-Once runner w r)
Reached-Once runner _ (claimed_unknown w d r) = record {
  covered =
      covered_mono w.tables.digests (reserve_reminder_digest d w.tables).0.digests w.outbox
        (reserved-grows d w.tables) (Reached-Once runner w r).covered;
  final = (Reached-Once runner w r).final;
}
Reached-Once runner _ (edited w t r same) = record {
  covered = rw same (Reached-Once runner w r).covered;
  final = (Reached-Once runner w r).final;
}
