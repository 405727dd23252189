-- ===== src/Intake/Cycle.antt =====
-- bridge_core/worker_cycle.py: the reads of every device are ingested and assigned. The backend that
-- makes the reads is a parameter, which may raise.
use rfid.Prelude.{ℕ, ◌+◌, not, List, [], ◌∷◌}
use rfid.Result.{Result, ok, err, raise_if, ◌>>=◌, ◌>>◌}
use rfid.Models.{ReaderDevice, Database, Exception, disabled_device_in_cycle}
use rfid.Intake.Ingestion.{TechnicalRfidRead, IngestionResult, rows_left, ingest_technical_reads}
use rfid.Intake.Assignment.{AssignmentCycleResult, run_active_session_assignment_cycle}

pub record WorkerCycleResult : Type 0 where
  pub device_count : ℕ
  pub received_count : ℕ
  pub created_count : ℕ
  pub duplicate_count : ℕ
  pub assignment_selected_count : ℕ
  pub assigned_count : ℕ
  pub unassigned_count : ℕ
  pub assignment_failed_count : ℕ

abbrev pub nothing_done : WorkerCycleResult
nothing_done = record {
  device_count = 0;
  received_count = 0;
  created_count = 0;
  duplicate_count = 0;
  assignment_selected_count = 0;
  assigned_count = 0;
  unassigned_count = 0;
  assignment_failed_count = 0;
}

abbrev pub add_device :
    WorkerCycleResult → IngestionResult → AssignmentCycleResult → WorkerCycleResult
add_device r i a = record {
  device_count = r.device_count + 1;
  received_count = r.received_count + i.received_count;
  created_count = r.created_count + i.created_count;
  duplicate_count = r.duplicate_count + i.duplicate_count;
  assignment_selected_count = r.assignment_selected_count + a.selected_count;
  assigned_count = r.assigned_count + a.assigned_count;
  unassigned_count = r.unassigned_count + a.unassigned_count;
  assignment_failed_count = r.assignment_failed_count + a.failed_count;
}

-- The reads of one device, ingested: what may raise in a round.
unfoldable pub ingest_device :
    (ReaderDevice → Database → Result Exception (List TechnicalRfidRead))
    → ReaderDevice
    → Database
    → Result Exception (IngestionResult × Database)
ingest_device read_events device db = do
  raise_if (not device.enabled) disabled_device_in_cycle
  technical_reads ← read_events device db
  ingest_technical_reads device technical_reads db

abbrev pub counted :
    WorkerCycleResult
    → IngestionResult
    → AssignmentCycleResult × Database
    → WorkerCycleResult × Database
counted r ingestion (assignment, db) = (add_device r ingestion assignment, db)

-- The database where a round has raised.
unfoldable pub left_by :
    (ReaderDevice → Database → Result Exception (List TechnicalRfidRead))
    → ReaderDevice
    → Database
    → Database
left_by read_events device db = elim (read_events device db) [
  | err e ↦ db
  | ok technical_reads ↦ rows_left device technical_reads db
]

-- The rounds, over the counters so far. What was written stays when a later round raises.
unfoldable pub ingest_devices :
    (ReaderDevice → Database → Result Exception (List TechnicalRfidRead))
    → List ReaderDevice
    → WorkerCycleResult × Database
    → Result Exception WorkerCycleResult × Database
ingest_devices read_events [] (r, db) = (ok r, db)
ingest_devices read_events (device ∷ devices) (r, db) = elim (ingest_device read_events device db) [
  | err e ↦ (err e, left_by read_events device db)
  | ok (ingestion, db') ↦
      ingest_devices read_events devices
        (counted r ingestion (run_active_session_assignment_cycle ingestion.created_event_ids db'))
]

unfoldable pub run_device_ingestion_cycle :
    (ReaderDevice → Database → Result Exception (List TechnicalRfidRead))
    → List ReaderDevice
    → Database
    → Result Exception WorkerCycleResult × Database
run_device_ingestion_cycle read_events devices db =
    ingest_devices read_events devices (nothing_done, db)
