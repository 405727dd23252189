-- ===== src/Models/Rows.antt =====
-- The rows of the tables. `event_id` stands for the primary key and for the UUID of an event, which
-- the database makes together; times are numbers of seconds. A key and an EPC of an event have at
-- most 128 characters, a response code of an attempt at most 64 and its kind of error at most 128: a
-- save of a longer one raises.
use rfid.Prelude.{ℕ, String, Bool, Option, List}
use rfid.Models.Choices.{Role, Operation, Status, QueueState, Outcome}

pub record ReaderDevice : Type 0 where
  pub id : ℕ
  pub code : String
  pub role : Role
  pub device_address : ℕ
  pub enabled : Bool
  pub shared_operations : Bool

pub record RfidSession : Type 0 where
  pub id : ℕ
  pub external_session_key : String
  pub device_id : ℕ
  pub operation_type : Operation
  pub odoo_reference : String
  pub status : Status
  pub closed_at : Option ℕ

pub record RawRfidEvent : Type 0 where
  pub event_id : ℕ
  pub device_id : ℕ
  pub rfid_session_id : Option ℕ
  pub reader_event_key : String
  pub epc : String
  pub raw_payload : String
  pub queue_state : QueueState
  pub received_at : ℕ

pub record DeliveryAttempt : Type 0 where
  pub id : ℕ
  pub event_id : ℕ
  pub attempt_number : ℕ
  pub outcome : Outcome
  pub response_code : String
  pub error_kind : String
  pub detail : String
  pub completed_at : Option ℕ
  pub next_retry_at : Option ℕ

-- The database: the four tables, the next primary key to give out, and the clock that
-- `timezone.now()` reads.
pub record Database : Type 0 where
  pub devices : List ReaderDevice
  pub sessions : List RfidSession
  pub events : List RawRfidEvent
  pub attempts : List DeliveryAttempt
  pub next_id : ℕ
  pub now : ℕ
