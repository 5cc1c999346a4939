-- ===== src/Model.antt =====
-- The domain types (internal/model/model.go, odometer.go, recall.go, notification.go) and the rules
-- on them that need no database.
--
-- A uuid.UUID is a number, an instant is a count of nanoseconds, a DATE column or any other value
-- that is only read by its Date() is a calendar date, a *T is an Option and an int64 is an integer
-- whose sums wrap (`Base.Int`).
pub mod Money
pub mod Spend
pub mod Warranty
use carma.Base.{ℕ, Bool, Option, List}
use carma.Base.Int.{ℤ}
use carma.Base.Text.{Text}
use carma.Calendar.{Date}

abbrev pub Uuid : Type 0
Uuid = ℕ

abbrev pub Instant : Type 0
Instant = ℕ

pub record User : Type 0 where
  pub id : Uuid
  pub oauth_provider : Text
  pub oauth_subject : Text
  pub email : Text
  pub display_name : Text
  pub avatar_url : Text
  pub created_at : Instant
  pub updated_at : Instant
  pub last_login_at : Instant

pub record Session : Type 0 where
  pub id : Uuid
  pub user_id : Uuid
  pub expires_at : Instant
  pub created_at : Instant
  pub user_agent : Text
  pub ip_address : Text

pub record Record : Type 0 where
  pub id : Uuid
  pub vehicle_id : Uuid
  pub service_type_id : Uuid
  pub created_by : Uuid
  pub vehicle_name : Text
  pub service_type_name : Text
  pub created_by_name : Text
  pub occurred_on : Date
  pub odometer_miles : Option ℤ
  pub cost_cents : Option ℤ
  pub vendor : Text
  pub notes : Text
  pub warranty_until_on : Option Date
  pub warranty_until_miles : Option ℤ
  pub created_at : Instant
  pub updated_at : Instant
  pub attachment_count : ℕ

pub record Vehicle : Type 0 where
  pub id : Uuid
  pub nickname : Text
  pub year : Option ℤ
  pub make : Text
  pub model : Text
  pub vin : Text
  pub license_plate : Text
  pub photo_key : Text
  pub notes : Text
  pub archived_at : Option Instant
  pub created_at : Instant
  pub updated_at : Instant
  pub current_odometer : Option ℤ
  pub current_odometer_on : Option Date
  pub latest_odometer : Option ℤ
  pub last_record : Option Record

pub record ServiceType : Type 0 where
  pub id : Uuid
  pub name : Text
  pub seeded : Bool
  pub created_at : Instant

pub record Attachment : Type 0 where
  pub id : Uuid
  pub record_id : Uuid
  pub original_filename : Text
  pub content_type : Text
  pub storage_key : Text
  pub byte_size : ℤ
  pub created_at : Instant

pub record RecordQuery : Type 0 where
  pub vehicle_id : Option Uuid
  pub search : Text
  pub service_type_id : Option Uuid
  pub since : Option Date
  pub until : Option Date
  pub sort : Text
  pub desc : Bool

-- `F` is float64. An interval of months is never negative: the schema checks that it is positive.
pub record Reminder (F : Type 0) : Type 0 where
  pub id : Uuid
  pub vehicle_id : Uuid
  pub service_type_id : Uuid
  pub vehicle_name : Text
  pub service_type_name : Text
  pub interval_months : Option ℕ
  pub interval_miles : Option ℤ
  pub starting_odometer : Option ℤ
  pub starting_odometer_pending : Bool
  pub enabled : Bool
  pub snoozed_until_on : Option Date
  pub snoozed_until_miles : Option ℤ
  pub created_at : Instant
  pub updated_at : Instant
  pub baseline : Option Record
  pub latest_odometer : Option ℤ
  pub miles_per_day : Option F
  pub estimate_hint : Text

pub record MileagePoint : Type 0 where
  pub vehicle_id : Uuid
  pub on : Date
  pub miles : ℤ

pub record Recall : Type 0 where
  pub vehicle_id : Uuid
  pub vehicle_name : Text
  pub vehicle_vin : Text
  pub campaign_number : Text
  pub component : Text
  pub summary : Text
  pub consequence : Text
  pub remedy : Text
  pub report_received_on : Option Date
  pub park_it : Bool
  pub park_outside : Bool
  pub first_seen_at : Instant
  pub dismissed_at : Option Instant

pub record RecallKey : Type 0 where
  pub vehicle_id : Uuid
  pub campaign_number : Text

pub record ReminderNotification : Type 0 where
  pub id : Uuid
  pub reminder_id : Uuid
  pub sent_at : Instant
  pub recipients : List Text
  pub message_id : Text

pub record ReminderDigest : Type 0 where
  pub id : Uuid
  pub week_start : Date
  pub reserved_at : Instant
  pub recipients : List Text
  pub recalls : List RecallKey
