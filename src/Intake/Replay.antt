-- ===== src/Intake/Replay.antt =====
-- What an ingestion of final tags leaves in the database, and that it can be repeated.
use rfid.Prelude.{
  ◌+◌, ◌≡◌, refl, sym, ap, subst, ◌∙◌, true, not, ltb, some, String, List, [], length, All, arith,
}
use rfid.Result.{ok, raise_if}
use rfid.Protocol.{RfidFrame}
use rfid.Models.{
  tag_device_disabled, device_disabled, value_too_long, raw_rfid_event, ReaderDevice, RfidSession,
  Database,
}
use rfid.Intake.Ingestion.{
  TechnicalRfidRead, fitting, ingest_reads, ingested, ingest_technical_reads,
}
use rfid.Intake.Again.{Has, known, known-fitting}
use rfid.Intake.Assignment.{assign_all, run_active_session_assignment_cycle}
use rfid.Intake.FinalTags.{
  FinalTagIngestionResult, TagReport, normalized_session_key, check_events, queued_of_session,
  matching_session, conclude_ingestion, frames_to_reads, ingest_final_active_tag_frames,
}
use rfid.Intake.FinalEvents.{IsIngested, check-IsIngested, Concluded, conclude-Concluded}
use rfid.Intake.Returned.{
  ingest-sessions, ingest-length-le, assign-sessions, All-map, frames_to_reads-length, Returned,
  ingest-Returned,
}

module _ (sha256_hex : String → String) (json_dumps : TagReport → String) where
  -- The database behind the assignment.
  abbrev behind : ReaderDevice → List TechnicalRfidRead → Database → Database
  behind device reads db =
      (run_active_session_assignment_cycle (ingest_reads device reads db).0
        (ingest_reads device reads db).1).1

  -- Where every read is known, an ingestion counts them.
  repeated :
      (device : ReaderDevice) (raw_key key : String) (session : RfidSession)
      (frames : List RfidFrame) (reads : List TechnicalRfidRead) (db : Database)
      → normalized_session_key raw_key ≡ ok key
      → device.enabled ≡ true
      → matching_session device key db ≡ some session
      → frames_to_reads sha256_hex json_dumps frames device key ≡ ok reads
      → ingest_reads device reads db ≡ ([], db)
      → fitting device reads db ≡ reads
      → check_events device session reads db ≡ ok tt
      → ingest_final_active_tag_frames sha256_hex json_dumps device raw_key frames db
        ≡ ok (
          record {
            frame_count = length frames;
            technical_read_count = length reads;
            created_count = 0;
            duplicate_count = length reads;
            assigned_count = 0;
            queued_count = length (queued_of_session device session db);
          },
          db,
        )
  unfolding ingest_final_active_tag_frames ingest_technical_reads conclude_ingestion
      run_active_session_assignment_cycle assign_all
  repeated device raw_key key session frames reads db normalized enabled found read same fit
        checked =
      let e : raise_if (not device.enabled) tag_device_disabled ≡ ok tt = ground arith in
      let f : raise_if (not device.enabled) device_disabled ≡ ok tt = ground arith in
      let g : raise_if (ltb (length (fitting device reads db)) (length reads))
            (value_too_long raw_rfid_event)
          ≡ ok tt =
        ground (arith, ap length fit) in
      rw (normalized, e, found, read, f, g, same, checked) (ground arith)

  module _ (device : ReaderDevice) (raw_key : String) (frames : List RfidFrame) (db db' : Database)
      (r : FinalTagIngestionResult)
      (returned : ingest_final_active_tag_frames sha256_hex json_dumps device raw_key frames db
        ≡ ok (r, db')) where
    steps : Returned sha256_hex json_dumps device raw_key frames db r db'
    steps = ingest-Returned sha256_hex json_dumps device raw_key frames db returned

    concluded :
        Concluded device steps.session frames steps.reads
          (ingested steps.reads (ingest_reads device steps.reads db)).0
          (run_active_session_assignment_cycle
            (ingest_reads device steps.reads db).0
            (ingest_reads device steps.reads db).1).0
          (behind device steps.reads db)
          r
          db'
    concluded =
        conclude-Concluded device steps.session frames steps.reads _ _
          (behind device steps.reads db) steps.concluded

    events_there : All (IsIngested device steps.session db') steps.reads
    events_there =
        subst (λ d. All (IsIngested device steps.session d) steps.reads) (sym concluded.same_db)
          (check-IsIngested device steps.session steps.reads (behind device steps.reads db)
            concluded.checked)

    frame_reads : length steps.reads ≡ length frames
    frame_reads = frames_to_reads-length sha256_hex json_dumps frames device steps.key steps.read

    -- If an ingestion of tag frames returns, the session with the given key was active on the reader,
    -- and every frame's read has an event in the new database, with its EPC, in that session and
    -- queued, in flight, waiting for a retry or sent. Every frame counts as created or as a
    -- duplicate, and every created event was assigned.
    pub ingest_final-IsIngested :
        (key : String) × (session : RfidSession) × (reads : List TechnicalRfidRead)
        × (normalized_session_key raw_key ≡ ok key)
        × (matching_session device key db ≡ some session)
        × (frames_to_reads sha256_hex json_dumps frames device key ≡ ok reads)
        × All (IsIngested device session db') reads
        × (r.frame_count ≡ length frames)
        × (r.created_count + r.duplicate_count ≡ length frames)
        × (r.assigned_count ≡ r.created_count)
    ingest_final-IsIngested =
        let counts = concluded.result in
        let le = ingest-length-le device steps.reads db in
        (
          steps.key,
          steps.session,
          steps.reads,
          steps.normalized,
          steps.found,
          steps.read,
          events_there,
          ground arith,
          ground (arith, frame_reads),
          ground (arith, concluded.all_assigned),
        )

    same_sessions : db'.sessions ≡ db.sessions
    unfolding run_active_session_assignment_cycle
    same_sessions =
        ap (λ (d : Database). d.sessions) concluded.same_db
        ∙ assign-sessions (ingest_reads device steps.reads db).0 _
            (ingest_reads device steps.reads db).1
        ∙ ingest-sessions device steps.reads db

    have_events : All (λ read. Has device db' read.reader_event_key) steps.reads
    have_events =
        All-map {Q = λ read. Has device db' read.reader_event_key}
          (λ read (e : IsIngested device steps.session db' read) n. cc (e.is_there)) steps.reads
          events_there

    found_again : matching_session device steps.key db' ≡ some steps.session
    found_again = rw same_sessions steps.found

    checked_again : check_events device steps.session steps.reads db' ≡ ok tt
    checked_again = rw concluded.same_db concluded.checked

    still_queued : length (queued_of_session device steps.session db') ≡ r.queued_count
    still_queued =
        ap (λ d. length (queued_of_session device steps.session d)) concluded.same_db
        ∙ sym (ap (λ (x : FinalTagIngestionResult). x.queued_count) concluded.result)

    -- An ingestion of tag frames that returned can be repeated: it returns again, creates nothing,
    -- counts every frame as a duplicate, and leaves the database as it is.
    pub ingest_final-again :
        ingest_final_active_tag_frames sha256_hex json_dumps device raw_key frames db'
        ≡ ok (
          record {
            frame_count = length frames;
            technical_read_count = length frames;
            created_count = 0;
            duplicate_count = length frames;
            assigned_count = 0;
            queued_count = r.queued_count;
          },
          db',
        )
    ingest_final-again =
        repeated device raw_key steps.key steps.session frames steps.reads db' steps.normalized
          steps.enabled found_again steps.read (known device steps.reads db' have_events)
          (known-fitting device steps.reads db' have_events) checked_again
        ∙ rw (frame_reads, still_queued) refl
