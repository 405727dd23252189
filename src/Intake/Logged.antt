-- ===== src/Intake/Logged.antt =====
-- The ingestion of final tags and the delivery log.
use rfid.Prelude.{
  ℕ, ◌+◌, ◌≤◌, ◌<◌, ◌≡◌, refl, sym, subst, inl, inr, some, String, List, [], ◌∷◌, All, ◌==◌, nat_eq,
  nat_beq_iff, arith, Option-cases, Bool-cases,
}
use rfid.Result.{ok, Result-cases}
use rfid.Protocol.{RfidFrame}
use rfid.Models.{DeliveryAttempt, RawRfidEvent, ReaderDevice, Database}
use rfid.Models.Orm.{find_event}
use rfid.Delivery.{IsLogged, History, Descends, outcomes, attempts_of}
use rfid.Intake.Ingestion.{TechnicalRfidRead, event_of_key, new_event, insert_event, ingest_reads}
use rfid.Intake.Assignment.{
  AssignmentCycleResult, assign_event_to_active_session, count_exception, assign_all,
  run_active_session_assignment_cycle,
}
use rfid.Intake.Assigned.{assign-Assigns, run-assigns}
use rfid.Intake.FinalTags.{FinalTagIngestionResult, TagReport, ingest_final_active_tag_frames}
use rfid.Intake.FinalEvents.{conclude-Concluded}
use rfid.Intake.Returned.{ingest-Returned}

-- Every attempt is one of an event that was given its key before.
abbrev pub IsReferential : Database → Type 0
IsReferential db = All (λ (a : DeliveryAttempt). a.event_id < db.next_id) db.attempts

Descends-mono : (m n : ℕ) (xs : List DeliveryAttempt) → m ≤ n → Descends m xs → Descends n xs
Descends-mono m n [] h d = tt
Descends-mono m n (x ∷ xs) h d = (omega (arith, d.0), d.1)

Below-mono :
    (m n : ℕ) (xs : List DeliveryAttempt)
    → m ≤ n
    → All (λ (a : DeliveryAttempt). a.event_id < m) xs
    → All (λ (a : DeliveryAttempt). a.event_id < n) xs
Below-mono m n [] h d = tt
Below-mono m n (x ∷ xs) h d = (omega (arith, d.0), Below-mono m n xs h d.1)

-- A new key has no attempts.
attempts_of-new :
    (n : ℕ) (xs : List DeliveryAttempt)
    → All (λ (a : DeliveryAttempt). a.event_id < n) xs
    → attempts_of n xs ≡ []
attempts_of-new n [] h = refl
attempts_of-new n (x ∷ xs) h = elim (Bool-cases (x.event_id == n)) [
  | inl e ↦
      let same : x.event_id ≡ n = (nat_beq_iff x.event_id n).0 e in absurd (omega (arith, h.0))
  | inr e ↦ rw (e, attempts_of) (attempts_of-new n xs h.1)
]

module _ (device : ReaderDevice) (read : TechnicalRfidRead) (db : Database) where
  added : Database
  added = insert_event (new_event device read db) db

  added-agrees :
      IsLogged db
      → IsReferential db
      → (i : ℕ) (e : RawRfidEvent) → find_event i added.events ≡ some e
      → History e.queue_state (outcomes (attempts_of i added.attempts))
  unfolding added
  added-agrees v f i e h = elim (Bool-cases (db.next_id == i)) [
    | inr other ↦ v.agrees i e (ground arith)
    | inl here ↦
        let key : db.next_id ≡ i = (nat_beq_iff db.next_id i).0 here in
        let row : new_event device read db ≡ e = ground arith in
        let log : attempts_of i db.attempts ≡ [] =
          subst (λ j. attempts_of j db.attempts ≡ []) key
            (attempts_of-new db.next_id db.attempts f) in
        subst (λ (x : RawRfidEvent). History x.queue_state (outcomes (attempts_of i db.attempts)))
          row (rw log tt)
  ]

  added-IsLogged : IsLogged db → IsReferential db → IsLogged added × IsReferential added
  unfolding added
  added-IsLogged v f = (
    record {
      agrees = unfold added in added-agrees v f;
      numbered = v.numbered;
      fresh = Descends-mono db.next_id (db.next_id + 1) db.attempts (omega arith) v.fresh;
    },
    Below-mono db.next_id (db.next_id + 1) db.attempts (omega arith) f,
  )

pub ingest-IsLogged :
    (device : ReaderDevice) (reads : List TechnicalRfidRead) (db : Database)
    → IsLogged db
    → IsReferential db
    → IsLogged (ingest_reads device reads db).1 × IsReferential (ingest_reads device reads db).1
unfolding ingest_reads added
ingest-IsLogged device [] db v f = (v, f)
ingest-IsLogged device (read ∷ reads) db v f =
    elim (Option-cases (event_of_key device.id read.reader_event_key db.events)) [
      | inr (e, g) ↦ rw (g, ingest_reads) (ingest-IsLogged device reads db v f)
      | inl g ↦
          let (v', f') = added-IsLogged device read db v f in
          rw (g, ingest_reads) (ingest-IsLogged device reads (added device read db) v' f')
    ]

pub assign-IsReferential :
    (event_ids : List ℕ) (r : AssignmentCycleResult) (db : Database)
    → IsReferential db
    → IsReferential (assign_all event_ids r db).1
unfolding assign_all
assign-IsReferential [] r db f = f
assign-IsReferential (i ∷ event_ids) r db f =
    elim (Result-cases (assign_event_to_active_session i db)) [
      | inr (x, e) ↦ rw (e, assign_all) (assign-IsReferential event_ids (count_exception x r) db f)
      | inl ((a, db'), e) ↦
          rw (e, assign_all)
            (assign-IsReferential event_ids (record r { assigned_count = r.assigned_count + 1 }) db'
              (subst IsReferential (sym (assign-Assigns i db e).result) f))
    ]

-- An ingestion of tag frames keeps the queue and the delivery log in agreement, and attempts only of
-- events with keys that were given out.
pub ingest_final-IsLogged :
    (sha256_hex : String → String) (json_dumps : TagReport → String) (device : ReaderDevice)
    (raw_key : String) (frames : List RfidFrame) (db db' : Database) (r : FinalTagIngestionResult)
    → IsLogged db
    → IsReferential db
    → ingest_final_active_tag_frames sha256_hex json_dumps device raw_key frames db ≡ ok (r, db')
    → IsLogged db' × IsReferential db'
unfolding run_active_session_assignment_cycle
ingest_final-IsLogged sha256_hex json_dumps device raw_key frames db db' r v f h =
    let steps = ingest-Returned sha256_hex json_dumps device raw_key frames db h in
    let ids = (ingest_reads device steps.reads db).0 in
    let done = (ingest_reads device steps.reads db).1 in
    let (v', f') = ingest-IsLogged device steps.reads db v f in
    let concluded =
      conclude-Concluded device steps.session frames steps.reads _ _
        (run_active_session_assignment_cycle ids done).1 steps.concluded in
    (
      subst IsLogged (sym concluded.same_db) (run-assigns ids done v').2,
      subst IsReferential (sym concluded.same_db) (assign-IsReferential ids _ done f'),
    )
