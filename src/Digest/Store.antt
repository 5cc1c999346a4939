-- ===== src/Digest/Store.antt =====
-- The digest's tables: the claimed weeks, the announced recalls, and what a run reads. A statement
-- of SQL is the function of the tables that it computes; that it can fail is the runner's to handle.
pub mod Facts
use carma.Base.{
  ℕ, Bool, true, false, not, ◌&&◌, ◌||◌, Option, none, some, List, [], ◌∷◌, ◌++◌, ◌==◌,
  if◌then◌else◌, any, filter, map,
}
use carma.Base.Text.{Text, text_eq}
use carma.Calendar.{Date, before}
use carma.Model.{Uuid, Instant, Reminder, MileagePoint, Recall, RecallKey, ReminderDigest}

abbrev pub same_date : Date → Date → Bool
same_date a b = a.year == b.year && a.month == b.month && a.day == b.day

-- A row of reminder_digests; `sent` holds sent_at and message_id.
pub record DigestRow : Type 0 where
  pub id : Uuid
  pub week_start : Date
  pub reserved_at : Instant
  pub recipients : List Text
  pub sent : Option (Instant × Text)

-- A row of recall_notifications; a baseline campaign has no digest.
pub record NotificationRow : Type 0 where
  pub key : RecallKey
  pub notified_at : Instant
  pub digest_id : Option Uuid

-- `open_recalls` are the undismissed campaigns of active vehicles that their last check covers.
pub record Tables (F : Type 0) : Type 0 where
  pub digests : List DigestRow
  pub notifications : List NotificationRow
  pub vehicles : List Uuid
  pub open_recalls : List Recall
  pub reminders : List (Reminder F)
  pub points : List MileagePoint
  pub emails : List Text

abbrev pub same_key : RecallKey → RecallKey → Bool
same_key a b = a.vehicle_id == b.vehicle_id && text_eq a.campaign_number b.campaign_number

abbrev pub recall_key : Recall → RecallKey
recall_key r = record { vehicle_id = r.vehicle_id; campaign_number = r.campaign_number }

unfoldable pub announced : RecallKey → List NotificationRow → Bool
announced key rows = any (λ row. same_key row.key key) rows

unfoldable pub claimed : Date → List DigestRow → Bool
claimed week rows = any (λ row. same_date row.week_start week) rows

-- INSERT ... ON CONFLICT (vehicle_id, campaign_number) DO NOTHING, for vehicles that still exist.
unfoldable pub announce :
    Uuid → Instant → List Uuid → List RecallKey → List NotificationRow → List NotificationRow
unfolding announced
announce id at vehicles [] rows = rows
announce id at vehicles (key ∷ keys) rows = announce id at vehicles keys (
    if any (λ v. v == key.vehicle_id) vehicles && not (announced key rows)
    then rows ++ record { key = key; notified_at = at; digest_id = some id } ∷ []
    else rows)

abbrev pub not_of_digest : Uuid → Option Uuid → Bool
not_of_digest id none = true
not_of_digest id (some d) = not (d == id)

abbrev pub unsent_row : Uuid → DigestRow → Bool
unsent_row id row = row.id == id && elim (row.sent) [ none ↦ true | some outcome ↦ false ]

unfoldable pub set_sent : Uuid → Instant → Text → DigestRow → DigestRow
set_sent id at message_id row =
    if row.id == id then record row { sent = some (at, message_id) } else row

module _ {F : Type 0} where
  unfoldable pub reminder_digest_claimed : Date → Tables F → Bool
  reminder_digest_claimed week t = claimed week t.digests

  unfoldable pub list_unnotified_recalls : Tables F → List Recall
  list_unnotified_recalls t =
      filter (λ r. not (announced (recall_key r) t.notifications)) t.open_recalls

  unfoldable pub list_mileage_points : List Uuid → Date → Tables F → List MileagePoint
  list_mileage_points ids since t =
      filter (λ p. any (λ v. v == p.vehicle_id) ids && not (before p.on since)) t.points

  -- The rows that a claim inserts.
  unfoldable pub with_claim : ReminderDigest → Tables F → Tables F
  with_claim d t = record t {
    digests =
        t.digests
        ++ record {
          id = d.id;
          week_start = d.week_start;
          reserved_at = d.reserved_at;
          recipients = d.recipients;
          sent = none;
        }
          ∷ [];
    notifications = announce d.id d.reserved_at t.vehicles d.recalls t.notifications;
  }

  -- The claim of the week; false where it is claimed already, and then nothing changes.
  unfoldable pub reserve_reminder_digest : ReminderDigest → Tables F → Tables F × Bool
  reserve_reminder_digest d t =
      if claimed d.week_start t.digests then (t, false) else (with_claim d t, true)

  -- The record of an accepted message; false is ErrNotFound.
  unfoldable pub complete_reminder_digest : Uuid → Text → Instant → Tables F → Tables F × Bool
  complete_reminder_digest id message_id at t = (
    record t { digests = map (set_sent id at message_id) t.digests },
    any (λ row. row.id == id) t.digests,
  )

  -- A claim whose message was not sent is dropped, and its recalls are to be announced again.
  unfoldable pub release_reminder_digest : Uuid → Tables F → Tables F
  release_reminder_digest id t =
      if any (unsent_row id) t.digests
      then record t {
        digests = filter (λ row. not (unsent_row id row)) t.digests;
        notifications = filter (λ row. not_of_digest id row.digest_id) t.notifications;
      }
      else t
