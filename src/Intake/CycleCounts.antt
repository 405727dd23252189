-- ===== src/Intake/CycleCounts.antt =====
-- What a cycle over the devices counts, and what it keeps.
use rfid.Prelude.{
  ℕ, ◌+◌, ◌≡◌, Bool, true, false, if◌then◌else◌, refl, ap, ◌∙◌, inl, inr, List, [], ◌∷◌, length,
  arith,
}
use rfid.Result.{Result, ok, err, Result-cases}
use rfid.Models.{ReaderDevice, Database, Exception}
use rfid.Delivery.{IsLogged}
use rfid.Intake.Ingestion.{
  TechnicalRfidRead, IngestionResult, fitting, rows_left, ingest_reads, ingested,
  ingest_technical_reads,
}
use rfid.Intake.Assignment.{run_active_session_assignment_cycle}
use rfid.Intake.Assigned.{run-assigns}
use rfid.Intake.Returned.{ingest-length-le}
use rfid.Intake.Logged.{IsReferential, ingest-IsLogged, assign-IsReferential}
use rfid.Intake.Cycle.{
  WorkerCycleResult, nothing_done, add_device, counted, ingest_device, left_by, ingest_devices,
  run_device_ingestion_cycle,
}

-- The counters of a cycle agree with one another.
pub record IsBalanced (r : WorkerCycleResult) : Type 0 where
  pub received : r.created_count + r.duplicate_count ≡ r.received_count
  pub selected : r.assignment_selected_count ≡ r.created_count
  pub assigned :
      r.assigned_count + r.unassigned_count + r.assignment_failed_count
      ≡ r.assignment_selected_count

-- What holds of the database between two rounds.
abbrev pub Kept : Database → Type 0
Kept db = IsLogged db × IsReferential db

module _ (read_events : ReaderDevice → Database → Result Exception (List TechnicalRfidRead)) where
  -- A device whose reads were ingested.
  device-ingested :
      (device : ReaderDevice) (db : Database) {i : IngestionResult} {db' : Database}
      → ingest_device read_events device db ≡ ok (i, db')
      → (reads : List TechnicalRfidRead) × ((i, db')
          ≡ ingested reads (ingest_reads device reads db))
  unfolding ingest_device ingest_technical_reads
  device-ingested device db {i} {db'} h = elim (Result-cases (read_events device db)) [
    | inr (x, e) ↦ absurd (ground arith)
    | inl (reads, e) ↦ (reads, ground arith)
  ]

  round-IsBalanced :
      (device : ReaderDevice) (reads : List TechnicalRfidRead) (r : WorkerCycleResult)
      (db : Database)
      → IsBalanced r
      → Kept db
      → IsBalanced (
          add_device r
            (ingested reads (ingest_reads device reads db)).0
            (run_active_session_assignment_cycle
              (ingest_reads device reads db).0
              (ingest_reads device reads db).1).0)
        × Kept
            (run_active_session_assignment_cycle
              (ingest_reads device reads db).0
              (ingest_reads device reads db).1).1
  unfolding run_active_session_assignment_cycle
  round-IsBalanced device reads r db b (v, f) =
      let ids = (ingest_reads device reads db).0 in
      let (v', f') = ingest-IsLogged device reads db v f in
      let (s, t, v'') = run-assigns ids (ingest_reads device reads db).1 v' in
      let le = ingest-length-le device reads db in
      (
        record {
          received = omega (arith, b.received);
          selected = omega (arith, b.selected, s);
          assigned = omega (arith, b.assigned, s, t);
        },
        (v'', assign-IsReferential ids _ (ingest_reads device reads db).1 f'),
      )

  -- The rows that stay where a round raises.
  rows-Kept :
      (device : ReaderDevice) (reads : List TechnicalRfidRead) (db : Database)
      → Kept db
      → Kept (rows_left device reads db)
  unfolding rows_left
  rows-Kept device reads db k =
      kept_if device.enabled (ingest-IsLogged device (fitting device reads db) db k.0 k.1)
    where
      kept_if : (b : Bool) {other : Database} → Kept other → Kept (if b then other else db)
      kept_if true h = h
      kept_if false h = k

  left-Kept :
      (device : ReaderDevice) (db : Database) → Kept db → Kept (left_by read_events device db)
  unfolding left_by
  left-Kept device db k = elim (Result-cases (read_events device db)) [
    | inr (x, e) ↦ rw (e, left_by) k
    | inl (reads, e) ↦ rw (e, left_by) (rows-Kept device reads db k)
  ]

  -- The end of a cycle from a state between two rounds.
  abbrev pub Ends : ℕ → Result Exception WorkerCycleResult × Database → Type 0
  Ends n (err e, db) = Kept db
  Ends n (ok r, db) = (r.device_count ≡ n) × IsBalanced r × Kept db

  rounds-Ends :
      (devices : List ReaderDevice) (r : WorkerCycleResult) (db : Database)
      → IsBalanced r
      → Kept db
      → Ends (r.device_count + length devices) (ingest_devices read_events devices (r, db))
  unfolding ingest_devices
  rounds-Ends [] r db b k = (omega arith, b, k)
  rounds-Ends (device ∷ devices) r db b k =
      elim (Result-cases (ingest_device read_events device db)) [
        | inr (x, e) ↦ rw (e, ingest_devices) (left-Kept device db k)
        | inl ((i, db'), e) ↦
            let (reads, same) = device-ingested device db e in
            let (b', k') = round-IsBalanced device reads r db b k in
            let ids = (ingest_reads device reads db).0 in
            let cycle = run_active_session_assignment_cycle ids (ingest_reads device reads db).1 in
            let r' = add_device r (ingested reads (ingest_reads device reads db)).0 cycle.0 in
            let rest = rounds-Ends devices r' cycle.1 b' k' in
            let n : r'.device_count + length devices ≡ r.device_count + length (device ∷ devices) =
              omega arith in
            rw (e ∙ ap ok same, ingest_devices, counted) (rw n at rest)
      ]

  -- A cycle over devices keeps the queue and the delivery log in agreement, whether it returns or one
  -- of its rounds raises. Where it returns, it has counted every device, every read as created or as a
  -- duplicate, and every created event as assigned, unassigned or failed.
  pub run_device-Ends :
      (devices : List ReaderDevice) (db : Database)
      → Kept db
      → Ends (length devices) (run_device_ingestion_cycle read_events devices db)
  unfolding run_device_ingestion_cycle
  run_device-Ends devices db k =
      let begin : IsBalanced nothing_done = record {
        received = refl;
        selected = refl;
        assigned = refl;
      } in
      let rest = rounds-Ends devices nothing_done db begin k in
      let n : 0 + length devices ≡ length devices = omega arith in rw n at rest
