-- ===== src/Intake/FinalEvents.antt =====
-- The events that the final check of an ingestion has seen.
use rfid.Prelude.{
  ◌≡◌, ap, ◌∙◌, inl, inr, true, some, List, [], ◌∷◌, length, All, ◌==◌, nat_eq, string_eq,
  nat_beq_iff, arith, Option-cases, Bool-cases,
}
use rfid.Result.{ok, Result-cases}
use rfid.Protocol.{RfidFrame}
use rfid.Models.{status_eq, state_eq, ReaderDevice, RfidSession, RawRfidEvent, Database}
use rfid.Intake.Ingestion.{TechnicalRfidRead, IngestionResult, event_of_key}
use rfid.Intake.Assignment.{AssignmentCycleResult}
use rfid.Intake.FinalTags.{
  FinalTagIngestionResult, is_final_state, session_of_event, check_events, queued_of_session,
  conclude_ingestion,
}

-- The event of a read: it has the read's EPC, belongs to the session, and waits for its delivery or has
-- been sent.
pub record IsIngested (device : ReaderDevice) (session : RfidSession) (db : Database)
    (read : TechnicalRfidRead) : Type 0 where
  pub event : RawRfidEvent
  pub is_there : event_of_key device.id read.reader_event_key db.events ≡ some event
  pub same_epc : event.epc ≡ read.epc
  pub same_session : event.rfid_session_id ≡ some session.id
  pub in_queue : is_final_state event.queue_state ≡ true

session_of_event-eq :
    (event : RawRfidEvent) (session : RfidSession)
    → session_of_event event session ≡ true
    → event.rfid_session_id ≡ some session.id
session_of_event-eq event session h = elim (Option-cases event.rfid_session_id) [
  | inl e ↦ absurd (ground arith)
  | inr (i, e) ↦ e ∙ ap some ((nat_beq_iff i session.id).0 (rw e at h))
]

pub check-IsIngested :
    (device : ReaderDevice) (session : RfidSession) (reads : List TechnicalRfidRead) (db : Database)
    → check_events device session reads db ≡ ok tt
    → All (IsIngested device session db) reads
unfolding check_events
check-IsIngested device session [] db h = tt
check-IsIngested device session (read ∷ reads) db h =
    elim (Option-cases (event_of_key device.id read.reader_event_key db.events)) [
      | inl e ↦ absurd (ground arith)
      | inr (event, e) ↦ elim (Bool-cases (event.epc == read.epc)) [
        | inr f ↦ absurd (ground arith)
        | inl f ↦ elim (Bool-cases (session_of_event event session)) [
          | inr g ↦ absurd (ground arith)
          | inl g ↦ elim (Bool-cases (is_final_state event.queue_state)) [
            | inr k ↦ absurd (ground arith)
            | inl k ↦ (
              record {
                event = event;
                is_there = e;
                same_epc = (string_eq.same_iff event.epc read.epc).0 f;
                same_session = session_of_event-eq event session g;
                in_queue = k;
              },
              check-IsIngested device session reads db (ground arith),
            )
          ]
        ]
      ]
    ]

-- What an ingestion concludes with, where it returns.
pub record Concluded (device : ReaderDevice) (session : RfidSession) (frames : List RfidFrame)
    (reads : List TechnicalRfidRead) (ingestion : IngestionResult)
    (assignment : AssignmentCycleResult) (db : Database) (r : FinalTagIngestionResult)
    (db' : Database) : Type 0 where
  pub same_db : db' ≡ db
  pub checked : check_events device session reads db ≡ ok tt
  pub all_assigned : assignment.assigned_count ≡ ingestion.created_count
  pub result : r ≡ record {
    frame_count = length frames;
    technical_read_count = length reads;
    created_count = ingestion.created_count;
    duplicate_count = ingestion.duplicate_count;
    assigned_count = assignment.assigned_count;
    queued_count = length (queued_of_session device session db);
  }

pub conclude-Concluded :
    (device : ReaderDevice) (session : RfidSession) (frames : List RfidFrame)
    (reads : List TechnicalRfidRead) (ingestion : IngestionResult)
    (assignment : AssignmentCycleResult) (db : Database) {r : FinalTagIngestionResult}
    {db' : Database}
    → conclude_ingestion device session frames reads ingestion (assignment, db) ≡ ok (r, db')
    → Concluded device session frames reads ingestion assignment db r db'
unfolding conclude_ingestion
conclude-Concluded device session frames reads ingestion assignment db {r} {db'} h =
    elim (Result-cases (check_events device session reads db)) [
      | inr (x, e) ↦ absurd (ground arith)
      | inl (u, e) ↦ record {
        same_db = ground arith;
        checked = e;
        all_assigned = ground arith;
        result = ground arith;
      }
    ]
