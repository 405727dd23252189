-- ===== src/Tests/FinalTags.antt =====
-- A tag frame of a running session.
use rfid.Prelude.{◌+◌, ◌≡◌, refl, arith, subst, some, String, List, [], ◌∷◌, All}
use rfid.Prelude.Text.{strip, upper, is_ascii, text_take}
use rfid.Result.{Result, ok, err}
use rfid.Protocol.{RfidFrame, parse_tag_data, take_field, sized_field, text_field, hex_upper}
use rfid.Models.{
  ReaderDevice, Database, RfidSession, RawRfidEvent, Exception, no_active_session, queued,
}
use rfid.Queue.{validate_states}
use rfid.Session.{operation_by_role}
use rfid.Delivery.{IsLogged, History}
use rfid.Intake.{
  TechnicalRfidRead, FinalTagIngestionResult, TagReport, normalized_session_key, event_key,
  frame_to_technical_read, frames_to_reads, check_events, conclude_ingestion, matching_session,
  ingest_final_active_tag_frames, ingest_reads, ingest_technical_reads, fitting, event_fits,
  assign_event_to_active_session, assign_all, run_active_session_assignment_cycle, IsIngested,
  run_device_ingestion_cycle, ingest_devices, ingest_device, Ends, run_device-Ends, IsReferential,
  ingest_final-IsIngested, ingest_final-again, ingest_final-IsLogged,
}
use rfid.Tests.Sample.{dock, queued_event, sample}

abbrev digest : String → String
digest text = "0123456789abcdef0123456789abcdef"

abbrev dumps : TagReport → String
dumps report = "{}"

-- A tag with the EPC E20A.
abbrev tag_frame : RfidFrame
tag_frame = record {
  address = 1;
  sequence = 0;
  command = 0xf9;
  status = 0;
  payload = 0 ∷ 0 ∷ 0 ∷ 4 ∷ 1 ∷ 2 ∷ 0xe2 ∷ 0x0a ∷ [];
  raw_frame = [];
}

abbrev tag_frames : List RfidFrame
tag_frames = tag_frame ∷ tag_frame ∷ []

-- Two frames of one tag make one event.
abbrev first_time : FinalTagIngestionResult
first_time = record {
  frame_count = 2;
  technical_read_count = 2;
  created_count = 1;
  duplicate_count = 1;
  assigned_count = 1;
  queued_count = 2;
}

abbrev tag_event : RawRfidEvent
tag_event = record {
  event_id = 4;
  device_id = 1;
  rfid_session_id = some 2;
  reader_event_key = "final:0123456789abcdef01234567:0123456789abcdef01234567";
  epc = "E20A";
  raw_payload = "{}";
  queue_state = queued;
  received_at = 200;
}

abbrev tagged : Database
tagged = record sample { events = tag_event ∷ queued_event ∷ []; next_id = 5 }

tagged_once :
    ingest_final_active_tag_frames digest dumps dock " S1" tag_frames sample
    ≡ ok (first_time, tagged)
unfolding ingest_final_active_tag_frames normalized_session_key frames_to_reads
    frame_to_technical_read parse_tag_data take_field sized_field text_field hex_upper upper
    is_ascii text_take strip event_key ingest_technical_reads fitting event_fits ingest_reads
    run_active_session_assignment_cycle assign_all assign_event_to_active_session validate_states
    operation_by_role conclude_ingestion check_events
tagged_once = refl

unknown_session :
    ingest_final_active_tag_frames digest dumps dock "S2" tag_frames sample ≡ err no_active_session
unfolding ingest_final_active_tag_frames normalized_session_key strip
unknown_session = refl

ingest_final-IsIngested_example :
    (key : String) × (session : RfidSession) × (reads : List TechnicalRfidRead)
    × (normalized_session_key " S1" ≡ ok key)
    × (matching_session dock key sample ≡ some session)
    × (frames_to_reads digest dumps tag_frames dock key ≡ ok reads)
    × All (IsIngested dock session tagged) reads
    × (first_time.frame_count ≡ 2)
    × (first_time.created_count + first_time.duplicate_count ≡ 2)
    × (first_time.assigned_count ≡ first_time.created_count)
ingest_final-IsIngested_example =
    ingest_final-IsIngested digest dumps dock " S1" tag_frames sample tagged first_time tagged_once

ingest_final-again_example :
    ingest_final_active_tag_frames digest dumps dock " S1" tag_frames tagged
    ≡ ok (record first_time { created_count = 0; duplicate_count = 2; assigned_count = 0 }, tagged)
ingest_final-again_example =
    ingest_final-again digest dumps dock " S1" tag_frames sample tagged first_time tagged_once

sample-IsLogged : IsLogged sample
sample-IsLogged = record {
  agrees = λ i e h.
      let row : queued_event ≡ e = ground arith in
      subst (λ (x : RawRfidEvent). History x.queue_state []) row tt;
  numbered = λ i. tt;
  fresh = tt;
}

ingest_final-IsLogged_example : IsLogged tagged × IsReferential tagged
ingest_final-IsLogged_example =
    ingest_final-IsLogged digest dumps dock " S1" tag_frames sample tagged first_time
      sample-IsLogged tt tagged_once

-- A backend with one read for every device.
abbrev one_read : ReaderDevice → Database → Result Exception (List TechnicalRfidRead)
one_read device db = ok (record { reader_event_key = "r1"; epc = "E280"; raw_payload = "{}" } ∷ [])

cycle_of_one :
    (run_device_ingestion_cycle one_read (dock ∷ []) sample).0
    ≡ ok (record {
      device_count = 1;
      received_count = 1;
      created_count = 1;
      duplicate_count = 0;
      assignment_selected_count = 1;
      assigned_count = 1;
      unassigned_count = 0;
      assignment_failed_count = 0;
    })
unfolding run_device_ingestion_cycle ingest_devices ingest_device ingest_technical_reads fitting
    event_fits ingest_reads run_active_session_assignment_cycle assign_all
    assign_event_to_active_session validate_states operation_by_role
cycle_of_one = refl

run_device-Ends_example : Ends one_read 1 (run_device_ingestion_cycle one_read (dock ∷ []) sample)
run_device-Ends_example = run_device-Ends one_read (dock ∷ []) sample (sample-IsLogged, tt)
