-- ===== src/Intake/FinalTags.antt =====
-- bridge_core/final_tag_ingestion.py: the tag frames of a running session become queued events. SHA-256
-- and JSON are parameters: `sha256_hex` is `sha256(text.encode("utf-8")).hexdigest()`, `json_dumps` is
-- `json.dumps` of the report.
use rfid.Prelude.{
  ℕ, Bool, true, false, not, ◌&&◌, Option, some, String, List, [], ◌∷◌, length, find?, filter, ltb,
  ◌==◌, nat_eq, string_eq,
}
use rfid.Prelude.Text.{strip, join, text_length, text_take, upper, is_ascii}
use rfid.Result.{Result, ok, err, raise_if, ◌>>=◌, ◌>>◌}
use rfid.Protocol.{ProtocolError, RfidFrame, RfidTagData, parse_tag_data}
use rfid.Models.{
  active, status_eq, QueueState, queued, inflight, state_eq, ReaderDevice, RfidSession,
  RawRfidEvent, Database, Exception, does_not_exist, raw_rfid_event, session_key_empty,
  session_key_too_long, tag_device_disabled, no_active_session, not_an_active_tag,
  tag_address_mismatch, epc_missing, epc_not_ascii, tag_frame_failed, tag_payload,
  assignment_failed, assignment_incomplete, assignment_counts_differ, event_epc_differs,
  event_of_other_session, event_state_invalid,
}
use rfid.Models.Orm.{Transaction, found}
use rfid.Intake.Ingestion.{TechnicalRfidRead, IngestionResult, event_of_key, ingest_technical_reads}
use rfid.Intake.Assignment.{AssignmentCycleResult, run_active_session_assignment_cycle}

pub record FinalTagIngestionResult : Type 0 where
  pub frame_count : ℕ
  pub technical_read_count : ℕ
  pub created_count : ℕ
  pub duplicate_count : ℕ
  pub assigned_count : ℕ
  pub queued_count : ℕ

-- What is written as JSON into the payload of an event.
pub record TagReport : Type 0 where
  pub source : String
  pub session_key : String
  pub reader_code : String
  pub reader_address : ℕ
  pub sequence : ℕ
  pub command : ℕ
  pub status : ℕ
  pub tag : RfidTagData

abbrev command_active_tag : ℕ
command_active_tag = 0xf9

unfoldable pub normalized_session_key : String → Result Exception String
normalized_session_key session_key = do
  let value = strip session_key
  raise_if (value == "") session_key_empty
  raise_if (ltb 128 (text_length value)) session_key_too_long
  ok value

-- `RFIDProtocolError` passes through.
abbrev pub parsed_tag : Result ProtocolError RfidTagData → Result Exception RfidTagData
parsed_tag (err e) = err (tag_payload e)
parsed_tag (ok tag) = ok tag

-- The states that an event of a final session may be in.
abbrev pub is_final_state : QueueState → Bool
is_final_state queued = true
is_final_state inflight = true
is_final_state QueueState.retry = true
is_final_state QueueState.sent = true
is_final_state _ = false

abbrev pub session_of_event : RawRfidEvent → RfidSession → Bool
session_of_event event session = elim event.rfid_session_id [
  | Option.none ↦ false
  | some i ↦ i == session.id
]

-- The loop behind the assignment: the event of every read is there and as it should be.
unfoldable pub check_events :
    ReaderDevice → RfidSession → List TechnicalRfidRead → Database → Result Exception (Unit {0})
check_events device session [] db = ok tt
check_events device session (read ∷ reads) db = do
  event ←
      found (does_not_exist raw_rfid_event) (event_of_key device.id read.reader_event_key db.events)
  raise_if (not (event.epc == read.epc)) event_epc_differs
  raise_if (not (session_of_event event session)) event_of_other_session
  raise_if (not (is_final_state event.queue_state)) (event_state_invalid event.queue_state)
  check_events device session reads db

abbrev pub queued_of_session : ReaderDevice → RfidSession → Database → List RawRfidEvent
queued_of_session device session db =
    filter (λ e. e.device_id == device.id && session_of_event e session && e.queue_state == queued)
      db.events

abbrev pub matching_session : ReaderDevice → String → Database → Option RfidSession
matching_session device key db =
    find? (λ s. s.device_id == device.id && s.external_session_key == key && s.status == active)
      db.sessions

-- What follows the assignment.
unfoldable pub conclude_ingestion :
    ReaderDevice
    → RfidSession
    → List RfidFrame
    → List TechnicalRfidRead
    → IngestionResult
    → AssignmentCycleResult × Database
    → Result Exception (FinalTagIngestionResult × Database)
conclude_ingestion device session frames reads ingestion (assignment, db) = do
  raise_if (ltb 0 assignment.failed_count) assignment_failed
  raise_if (ltb 0 assignment.unassigned_count) assignment_incomplete
  raise_if (not (assignment.assigned_count == ingestion.created_count)) assignment_counts_differ
  check_events device session reads db
  ok (
    record {
      frame_count = length frames;
      technical_read_count = length reads;
      created_count = ingestion.created_count;
      duplicate_count = ingestion.duplicate_count;
      assigned_count = assignment.assigned_count;
      queued_count = length (queued_of_session device session db);
    },
    db,
  )

module _ (sha256_hex : String → String) (json_dumps : TagReport → String) where
  unfoldable pub event_key : String → String → String
  event_key session_key epc =
      join "final:"
        (join (text_take 24 (sha256_hex session_key)) (join ":" (text_take 24 (sha256_hex epc))))

  unfoldable pub frame_to_technical_read :
      RfidFrame → ReaderDevice → String → Result Exception TechnicalRfidRead
  frame_to_technical_read frame device session_key = do
    raise_if (not (frame.command == command_active_tag)) not_an_active_tag
    raise_if (not (frame.address == device.device_address)) tag_address_mismatch
    raise_if (not (frame.status == 0)) (tag_frame_failed frame.status)
    tag ← parsed_tag (parse_tag_data frame.payload)
    let epc = upper (strip tag.epc)
    raise_if (epc == "") epc_missing
    raise_if (not (is_ascii epc)) epc_not_ascii
    ok (record {
      reader_event_key = event_key session_key epc;
      epc = epc;
      raw_payload = json_dumps (record {
        source = "final_active_runtime";
        session_key = session_key;
        reader_code = device.code;
        reader_address = frame.address;
        sequence = frame.sequence;
        command = frame.command;
        status = frame.status;
        tag = record tag { epc = epc };
      });
    })

  unfoldable pub frames_to_reads :
      List RfidFrame → ReaderDevice → String → Result Exception (List TechnicalRfidRead)
  frames_to_reads [] device session_key = ok []
  frames_to_reads (frame ∷ frames) device session_key = do
    read ← frame_to_technical_read frame device session_key
    reads ← frames_to_reads frames device session_key
    ok (read ∷ reads)

  unfoldable pub ingest_final_active_tag_frames :
      ReaderDevice → String → List RfidFrame → Transaction FinalTagIngestionResult
  ingest_final_active_tag_frames device raw_session_key frames db = do
    session_key ← normalized_session_key raw_session_key
    raise_if (not device.enabled) tag_device_disabled
    session ← found no_active_session (matching_session device session_key db)
    reads ← frames_to_reads frames device session_key
    ingested ← ingest_technical_reads device reads db
    conclude_ingestion device session frames reads ingested.0
        (run_active_session_assignment_cycle ingested.0.created_event_ids ingested.1)
