-- ===== src/Tests/Intake.antt =====
-- A read that comes twice, and its way into the queue.
use rfid.Prelude.{◌≡◌, refl, subst, arith, ℕ, zero, suc, String, none, List, [], ◌∷◌}
use rfid.Prelude.Text.{join}
use rfid.Result.{ok, err}
use rfid.Models.{Database, RawRfidEvent, unassigned, value_too_long, raw_rfid_event}
use rfid.Queue.{validate_states}
use rfid.Session.{operation_by_role}
use rfid.Delivery.{IsLogged, History}
use rfid.Tests.Sample.{dock, queued_event, sample}
use rfid.Intake.{
  TechnicalRfidRead, ingest_reads, fitting, event_fits, rows_left, ingest_technical_reads, ingested,
  ingest-again, assign_event_to_active_session, assign_all, run_active_session_assignment_cycle,
  run-assigns, total,
}

abbrev read : TechnicalRfidRead
read = record { reader_event_key = "r1"; epc = "E280"; raw_payload = "{}" }

abbrev reads : List TechnicalRfidRead
reads = read ∷ read ∷ []

-- One event for two reads with one key.
one_event : (ingest_reads dock reads sample).0 ≡ 4 ∷ []
unfolding ingest_reads
one_event = refl

all_fit : fitting dock reads sample ≡ reads
unfolding fitting event_fits
all_fit = refl

-- A read whose EPC has 129 characters stops the ingestion, and its row is the first that is missing.
abbrev long_text : ℕ → String
long_text zero = ""
long_text (suc n) = join "0" (long_text n)

abbrev long_read : TechnicalRfidRead
long_read = record { reader_event_key = "r2"; epc = long_text 129; raw_payload = "{}" }

too_long :
    ingest_technical_reads dock (read ∷ long_read ∷ []) sample ≡ err (value_too_long raw_rfid_event)
unfolding ingest_technical_reads fitting event_fits
too_long = refl

one_left : rows_left dock (read ∷ long_read ∷ []) sample ≡ (ingest_reads dock reads sample).1
unfolding rows_left fitting event_fits ingest_reads
one_left = refl

ingest-again_example :
    (ingest_technical_reads dock reads sample
      ≡ ok (ingested reads (ingest_reads dock reads sample)))
    × (ingest_technical_reads dock reads (ingest_reads dock reads sample).1
        ≡ ok (
          record {
            received_count = 2;
            created_count = 0;
            duplicate_count = 2;
            created_event_ids = [];
          },
          (ingest_reads dock reads sample).1,
        ))
ingest-again_example = ingest-again dock reads sample refl all_fit

abbrev waiting_event : RawRfidEvent
waiting_event = record queued_event { rfid_session_id = none; queue_state = unassigned }

abbrev waiting : Database
waiting = record sample { events = waiting_event ∷ [] }

cycle_counts :
    (run_active_session_assignment_cycle (3 ∷ 9 ∷ []) waiting).0
    ≡ record { selected_count = 2; assigned_count = 1; unassigned_count = 0; failed_count = 1 }
unfolding run_active_session_assignment_cycle assign_all assign_event_to_active_session
    validate_states operation_by_role
cycle_counts = refl

waiting-IsLogged : IsLogged waiting
waiting-IsLogged = record {
  agrees = λ i e h.
      let row : waiting_event ≡ e = ground arith in
      subst (λ (x : RawRfidEvent). History x.queue_state []) row tt;
  numbered = λ i. tt;
  fresh = tt;
}

run-assigns_example :
    ((run_active_session_assignment_cycle (3 ∷ 9 ∷ []) waiting).0.selected_count ≡ 2)
    × (total (run_active_session_assignment_cycle (3 ∷ 9 ∷ []) waiting).0 ≡ 2)
    × IsLogged (run_active_session_assignment_cycle (3 ∷ 9 ∷ []) waiting).1
run-assigns_example = run-assigns (3 ∷ 9 ∷ []) waiting waiting-IsLogged
