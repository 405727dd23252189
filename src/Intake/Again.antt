-- ===== src/Intake/Again.antt =====
-- Reads that are ingested again change nothing.
use rfid.Prelude.{
  ℕ, ◌≡◌, ◌≢◌, sym, ap, subst, refl, inl, inr, true, none, some, String, List, [], ◌∷◌, length, All,
  nat_eq, string_eq, arith, Option-cases,
}
use rfid.Result.{ok}
use rfid.Models.{ReaderDevice, RawRfidEvent, Database}
use rfid.Intake.Ingestion.{
  TechnicalRfidRead, event_of_key, new_event, insert_event, with_id, ingest_reads, ingested,
  fitting, ingest_technical_reads,
}
use text.Mathlib.TextEquality.{eq_iff}

-- The device has an event with the key.
abbrev pub Has : ReaderDevice → Database → String → Type 0
Has device db key = event_of_key device.id key db.events ≢ none

insert-Has :
    (device : ReaderDevice) (db : Database) (key : String) (e : RawRfidEvent)
    → Has device db key
    → Has device (insert_event e db) key
insert-Has device db key e h = λ n. h (ground arith)

new-Has :
    (device : ReaderDevice) (db : Database) (read : TechnicalRfidRead)
    → Has device (insert_event (new_event device read db) db) read.reader_event_key
new-Has device db read = λ n. ground (arith, eq_iff read.reader_event_key read.reader_event_key)

-- Ingestion removes no event.
ingest-Has :
    (device : ReaderDevice) (reads : List TechnicalRfidRead) (db : Database) (key : String)
    → Has device db key
    → Has device (ingest_reads device reads db).1 key
unfolding ingest_reads
ingest-Has device [] db key h = h
ingest-Has device (read ∷ reads) db key h =
    elim (Option-cases (event_of_key device.id read.reader_event_key db.events)) [
      | inr (e, f) ↦ rw (f, ingest_reads) (ingest-Has device reads db key h)
      | inl f ↦
          rw (f, ingest_reads)
            (ingest-Has device reads (insert_event (new_event device read db) db) key
              (insert-Has device db key (new_event device read db) h))
    ]

-- The database after the first read, where its event is there and where it is not.
pub after-known :
    (device : ReaderDevice) (read : TechnicalRfidRead) (reads : List TechnicalRfidRead)
    (db : Database) {e : RawRfidEvent}
    → event_of_key device.id read.reader_event_key db.events ≡ some e
    → ingest_reads device (read ∷ reads) db ≡ ingest_reads device reads db
unfolding ingest_reads
after-known device read reads db f = rw (f, ingest_reads) refl

pub after-new :
    (device : ReaderDevice) (read : TechnicalRfidRead) (reads : List TechnicalRfidRead)
    (db : Database)
    → event_of_key device.id read.reader_event_key db.events ≡ none
    → ingest_reads device (read ∷ reads) db
      ≡ with_id db.next_id (ingest_reads device reads (insert_event (new_event device read db) db))
unfolding ingest_reads
after-new device read reads db f = rw (f, ingest_reads) refl

-- Every read that was ingested has its event.
ingested-Has :
    (device : ReaderDevice) (reads : List TechnicalRfidRead) (db : Database)
    → All (λ read. Has device (ingest_reads device reads db).1 read.reader_event_key) reads
ingested-Has device [] db = tt
ingested-Has device (read ∷ reads) db =
    let Good =
      λ (r : List ℕ × Database). All (λ t. Has device r.1 t.reader_event_key) (read ∷ reads) in
    elim (Option-cases (event_of_key device.id read.reader_event_key db.events)) [
      | inr (e, f) ↦
          subst Good (sym (after-known device read reads db f)) (
            ingest-Has device reads db read.reader_event_key (λ n. cc),
            ingested-Has device reads db,
          )
      | inl f ↦
          let db' = insert_event (new_event device read db) db in
          subst Good (sym (after-new device read reads db f)) (
            ingest-Has device reads db' read.reader_event_key (new-Has device db read),
            ingested-Has device reads db',
          )
    ]

-- Nothing is created where every read has its event.
pub known :
    (device : ReaderDevice) (reads : List TechnicalRfidRead) (db : Database)
    → All (λ read. Has device db read.reader_event_key) reads
    → ingest_reads device reads db ≡ ([], db)
unfolding ingest_reads
known device [] db h = refl
known device (read ∷ reads) db h =
    elim (Option-cases (event_of_key device.id read.reader_event_key db.events)) [
      | inr (e, f) ↦ rw (f, ingest_reads) (known device reads db h.1)
      | inl f ↦ absurd (h.0 f)
    ]

-- And nothing has to fit.
pub known-fitting :
    (device : ReaderDevice) (reads : List TechnicalRfidRead) (db : Database)
    → All (λ read. Has device db read.reader_event_key) reads
    → fitting device reads db ≡ reads
unfolding fitting
known-fitting device [] db h = refl
known-fitting device (read ∷ reads) db h =
    elim (Option-cases (event_of_key device.id read.reader_event_key db.events)) [
      | inr (e, f) ↦ rw (f, fitting) (ap (λ rest. read ∷ rest) (known-fitting device reads db h.1))
      | inl f ↦ absurd (h.0 f)
    ]

-- With an enabled device, where the key and the EPC of every read that has no event yet fit their
-- columns, ingesting the reads succeeds, and so does ingesting them again: every read counts as a
-- duplicate, none as created, and the database stays as the first time left it.
pub ingest-again :
    (device : ReaderDevice) (reads : List TechnicalRfidRead) (db : Database)
    → device.enabled ≡ true
    → fitting device reads db ≡ reads
    → (ingest_technical_reads device reads db ≡ ok (ingested reads (ingest_reads device reads db)))
      × (ingest_technical_reads device reads (ingest_reads device reads db).1
          ≡ ok (
            record {
              received_count = length reads;
              created_count = 0;
              duplicate_count = length reads;
              created_event_ids = [];
            },
            (ingest_reads device reads db).1,
          ))
unfolding ingest_technical_reads
ingest-again device reads db h fit =
    let same = known device reads (ingest_reads device reads db).1 (ingested-Has device reads db) in
    let same_reads =
      known-fitting device reads (ingest_reads device reads db).1 (ingested-Has device reads db) in
    (ground (arith, ap length fit), ground (arith, same, ap length same_reads))
