-- ===== src/Intake/Returned.antt =====
-- What an ingestion of final tags has gone through, where it returned.
use rfid.Prelude.{
  ℕ, suc, ◌+◌, ◌≤◌, ◌≡◌, refl, sym, ap, ◌∙◌, inl, inr, true, some, String, List, [], ◌∷◌, length,
  All, arith, Option-cases,
}
use rfid.Result.{ok, Result-cases, >>=-eq-ok}
use rfid.Protocol.{RfidFrame}
use rfid.Models.{ReaderDevice, RfidSession, Database}
use rfid.Intake.Ingestion.{
  TechnicalRfidRead, event_of_key, new_event, insert_event, ingest_reads, ingested,
  ingest_technical_reads,
}
use rfid.Intake.Assignment.{
  AssignmentCycleResult, assign_event_to_active_session, count_exception, assign_all,
  run_active_session_assignment_cycle,
}
use rfid.Intake.Assigned.{assign-Assigns}
use rfid.Intake.FinalTags.{
  FinalTagIngestionResult, TagReport, normalized_session_key, matching_session, conclude_ingestion,
  frame_to_technical_read, frames_to_reads, ingest_final_active_tag_frames,
}

pub ingest-sessions :
    (device : ReaderDevice) (reads : List TechnicalRfidRead) (db : Database)
    → (ingest_reads device reads db).1.sessions ≡ db.sessions
unfolding ingest_reads
ingest-sessions device [] db = refl
ingest-sessions device (read ∷ reads) db =
    elim (Option-cases (event_of_key device.id read.reader_event_key db.events)) [
      | inr (e, f) ↦ rw (f, ingest_reads) (ingest-sessions device reads db)
      | inl f ↦
          rw (f, ingest_reads)
            (ingest-sessions device reads (insert_event (new_event device read db) db))
    ]

-- No more events are created than there are reads.
pub ingest-length-le :
    (device : ReaderDevice) (reads : List TechnicalRfidRead) (db : Database)
    → length (ingest_reads device reads db).0 ≤ length reads
unfolding ingest_reads
ingest-length-le device [] db = omega arith
ingest-length-le device (read ∷ reads) db =
    elim (Option-cases (event_of_key device.id read.reader_event_key db.events)) [
      | inr (e, f) ↦ rw (f, ingest_reads) (omega (arith, ingest-length-le device reads db))
      | inl f ↦
          rw (f, ingest_reads)
            (omega
              (arith, ingest-length-le device reads (insert_event (new_event device read db) db)))
    ]

pub assign-sessions :
    (event_ids : List ℕ) (r : AssignmentCycleResult) (db : Database)
    → (assign_all event_ids r db).1.sessions ≡ db.sessions
unfolding assign_all
assign-sessions [] r db = refl
assign-sessions (i ∷ event_ids) r db = elim (Result-cases (assign_event_to_active_session i db)) [
  | inr (x, e) ↦ rw (e, assign_all) (assign-sessions event_ids (count_exception x r) db)
  | inl ((a, db'), e) ↦
      let done = assign-Assigns i db e in
      rw (e, assign_all)
        (assign-sessions event_ids (record r { assigned_count = r.assigned_count + 1 }) db'
          ∙ ap (λ (d : Database). d.sessions) done.result)
]

pub All-map :
    {A : Type 0} {P Q : A → Type 0} → ((a : A) → P a → Q a) → (xs : List A) → All P xs → All Q xs
All-map f [] h = tt
All-map f (x ∷ xs) h = (f x h.0, All-map f xs h.1)

module _ (sha256_hex : String → String) (json_dumps : TagReport → String) where
  pub frames_to_reads-length :
      (frames : List RfidFrame) (device : ReaderDevice) (key : String)
      {reads : List TechnicalRfidRead}
      → frames_to_reads sha256_hex json_dumps frames device key ≡ ok reads
      → length reads ≡ length frames
  unfolding frames_to_reads
  frames_to_reads-length [] device key h = ground arith
  frames_to_reads-length (frame ∷ frames) device key {reads} h =
      let (read, h1, k1) =
        >>=-eq-ok (frame_to_technical_read sha256_hex json_dumps frame device key) _ h in
      let (more, h2, k2) =
        >>=-eq-ok (frames_to_reads sha256_hex json_dumps frames device key) _ k1 in
      let same : read ∷ more ≡ reads = cc in
      let n = frames_to_reads-length frames device key h2 in ap length (sym same) ∙ ap suc n

  -- What an ingestion that returned has gone through.
  pub record Returned (device : ReaderDevice) (raw_key : String) (frames : List RfidFrame)
      (db : Database) (r : FinalTagIngestionResult) (db' : Database) : Type 0 where
    pub key : String
    pub session : RfidSession
    pub reads : List TechnicalRfidRead
    pub normalized : normalized_session_key raw_key ≡ ok key
    pub enabled : device.enabled ≡ true
    pub found : matching_session device key db ≡ some session
    pub read : frames_to_reads sha256_hex json_dumps frames device key ≡ ok reads
    pub concluded :
        conclude_ingestion device session frames reads
          (ingested reads (ingest_reads device reads db)).0
          (run_active_session_assignment_cycle
            (ingest_reads device reads db).0
            (ingest_reads device reads db).1)
        ≡ ok (r, db')

  pub ingest-Returned :
      (device : ReaderDevice) (raw_key : String) (frames : List RfidFrame) (db : Database)
      {r : FinalTagIngestionResult} {db' : Database}
      → ingest_final_active_tag_frames sha256_hex json_dumps device raw_key frames db ≡ ok (r, db')
      → Returned device raw_key frames db r db'
  unfolding ingest_final_active_tag_frames ingest_technical_reads
  ingest-Returned device raw_key frames db {r} {db'} h =
      elim (Result-cases (normalized_session_key raw_key)) [
        | inr (x, e) ↦ absurd (ground arith)
        | inl (key, e) ↦ elim (Option-cases (matching_session device key db)) [
          | inl f ↦ absurd (ground arith)
          | inr (session, f) ↦
              elim (Result-cases (frames_to_reads sha256_hex json_dumps frames device key)) [
                | inr (x, g) ↦ absurd (ground arith)
                | inl (reads, g) ↦ record {
                  key = key;
                  session = session;
                  reads = reads;
                  normalized = e;
                  enabled = ground arith;
                  found = f;
                  read = g;
                  concluded = ground arith;
                }
              ]
        ]
      ]
