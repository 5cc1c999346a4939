-- ===== src/Digest/Store/Facts.antt =====
-- Claims and releases of a week.
use carma.Base.{
  ◌≡◌, refl, ap, ap₂, ◌∙◌, inl, inr, Bool, true, false, not, ◌&&◌, ◌||◌, none, some, List, [], ◌∷◌,
  ◌++◌, append-nil, arith, ◌==◌, ==_iff, Bool-cases, any, any-append, all, filter, map,
}
use carma.Base.Text.{Text}
use carma.Calendar.{Date}
use carma.Model.{Uuid, Instant, RecallKey, ReminderDigest}
use carma.Digest.Store.{
  DigestRow, NotificationRow, Tables, same_date, announced, claimed, announce, not_of_digest,
  unsent_row, set_sent, with_claim, complete_reminder_digest, release_reminder_digest,
}

-- No row carries the ID, as that of a new random UUID.
pub record Fresh {F : Type 0} (id : Uuid) (t : Tables F) : Type 0 where
  pub no_digest : any (λ row. row.id == id) t.digests ≡ false
  pub no_notification : all (λ row. not_of_digest id row.digest_id) t.notifications ≡ true

pub filter-append {ℓ} :
    {A : Type ℓ} (p : A → Bool) (xs ys : List A) → filter p (xs ++ ys) ≡ filter p xs ++ filter p ys
filter-append p [] ys = refl
filter-append p (x ∷ xs) ys = ground (arith, filter-append p xs ys)

filter_of_all {ℓ} : {A : Type ℓ} (p : A → Bool) (xs : List A) → all p xs ≡ true → filter p xs ≡ xs
filter_of_all p [] h = refl
filter_of_all p (x ∷ xs) h = ground (arith, filter_of_all p xs)

-- Announcing adds rows of the digest only.
announce-filter :
    (id : Uuid) (at : Instant) (vehicles : List Uuid) (keys : List RecallKey)
    (rows : List NotificationRow)
    → filter (λ row. not_of_digest id row.digest_id) (announce id at vehicles keys rows)
      ≡ filter (λ row. not_of_digest id row.digest_id) rows
unfolding announce
announce-filter id at vehicles [] rows = refl
announce-filter id at vehicles (key ∷ keys) rows =
    elim (Bool-cases (any (λ v. v == key.vehicle_id) vehicles && not (announced key rows))) [
      | inl new ↦ rw new (
          announce-filter id at vehicles keys (rows ++ added ∷ [])
          ∙ filter-append (λ row. not_of_digest id row.digest_id) rows (added ∷ [])
          ∙ ground (
            arith,
            append-nil (filter (λ row. not_of_digest id row.digest_id) rows),
            ==_iff id id,
          ))
      | inr old ↦ rw old (announce-filter id at vehicles keys rows)
    ]
  where
    added : NotificationRow
    added = record { key = key; notified_at = at; digest_id = some id }

unsent_of_fresh :
    (id : Uuid) (rows : List DigestRow)
    → any (λ row. row.id == id) rows ≡ false
    → (filter (λ row. not (unsent_row id row)) rows ≡ rows) × (any (unsent_row id) rows ≡ false)
unsent_of_fresh id [] h = (refl, refl)
unsent_of_fresh id (row ∷ rows) h = ground (arith, unsent_of_fresh id rows)

module _ {F : Type 0} (d : ReminderDigest) (t : Tables F) where
  -- A claim adds its week to those that are claimed.
  pub with_claim-claimed :
      (week : Date)
      → claimed week (with_claim d t).digests
        ≡ (claimed week t.digests || same_date d.week_start week)
  unfolding with_claim claimed
  with_claim-claimed week =
      any-append (λ row. same_date row.week_start week) t.digests _ ∙ ground arith

  -- Releasing a claim that was just made under a new ID leaves the tables as they were before it: the
  -- week is free again, and its recalls are to be announced again.
  pub release-with_claim : Fresh d.id t → release_reminder_digest d.id (with_claim d t) ≡ t
  unfolding release_reminder_digest with_claim
  release-with_claim fresh = rw (found, rows_back, announce_back) refl
    where
      row : DigestRow
      row = record {
        id = d.id;
        week_start = d.week_start;
        reserved_at = d.reserved_at;
        recipients = d.recipients;
        sent = none;
      }

      found : any (unsent_row d.id) (t.digests ++ row ∷ []) ≡ true
      found = any-append (unsent_row d.id) t.digests (row ∷ []) ∙ ground (arith, ==_iff d.id d.id)

      rows_back : filter (λ r. not (unsent_row d.id r)) (t.digests ++ row ∷ []) ≡ t.digests
      rows_back =
          filter-append (λ r. not (unsent_row d.id r)) t.digests (row ∷ [])
          ∙ ap₂ ◌++◌ (unsent_of_fresh d.id t.digests fresh.no_digest).0
              (ground (arith, ==_iff d.id d.id))
          ∙ append-nil t.digests

      announce_back :
          filter
            (λ r. not_of_digest d.id r.digest_id)
            (announce d.id d.reserved_at t.vehicles d.recalls t.notifications)
          ≡ t.notifications
      announce_back =
          announce-filter d.id d.reserved_at t.vehicles d.recalls t.notifications
          ∙ filter_of_all (λ r. not_of_digest d.id r.digest_id) t.notifications
              fresh.no_notification

set_sent-week_start :
    (id : Uuid) (at : Instant) (message_id : Text) (r : DigestRow)
    → (set_sent id at message_id r).week_start ≡ r.week_start
unfolding set_sent
set_sent-week_start id at message_id r = ground arith

claimed-set_sent :
    (id : Uuid) (at : Instant) (message_id : Text) (week : Date) (rows : List DigestRow)
    → claimed week (map (set_sent id at message_id) rows) ≡ claimed week rows
unfolding claimed
claimed-set_sent id at message_id week [] = refl
claimed-set_sent id at message_id week (r ∷ rows) =
    rw (set_sent-week_start id at message_id r)
      (ap (λ b. same_date r.week_start week || b) (claimed-set_sent id at message_id week rows))

-- Recording the message does not move a claim.
pub complete-claimed :
    {F : Type 0} (id : Uuid) (message_id : Text) (at : Instant) (week : Date) (t : Tables F)
    → claimed week (complete_reminder_digest id message_id at t).0.digests ≡ claimed week t.digests
unfolding complete_reminder_digest
complete-claimed id message_id at week t = claimed-set_sent id at message_id week t.digests
