-- ===== src/Intake/Ingestion.antt =====
-- bridge_core/ingestion.py: reads become events, each once.
use rfid.Prelude.{
  ℕ, ◌+◌, ◌-◌, Bool, ltb, leb, if◌then◌else◌, not, ◌&&◌, Option, none, some, String, List, [], ◌∷◌,
  length, find?, ◌==◌, nat_eq, string_eq,
}
use rfid.Prelude.Text.{text_length}
use rfid.Result.{ok, raise_if, ◌>>◌}
use rfid.Models.{
  unassigned, ReaderDevice, RawRfidEvent, Database, device_disabled, value_too_long, raw_rfid_event,
}
use rfid.Models.Orm.{Transaction}

-- `TechnicalRFIDRead` of bridge_core/reader_backends.py.
pub record TechnicalRfidRead : Type 0 where
  pub reader_event_key : String
  pub epc : String
  pub raw_payload : String

pub record IngestionResult : Type 0 where
  pub received_count : ℕ
  pub created_count : ℕ
  pub duplicate_count : ℕ
  pub created_event_ids : List ℕ

-- `RawRFIDEvent.objects.get(device=…, reader_event_key=…)`; the pair is unique.
abbrev pub event_of_key : ℕ → String → List RawRfidEvent → Option RawRfidEvent
event_of_key device_id key = find? (λ e. e.device_id == device_id && e.reader_event_key == key)

-- The row that `get_or_create` inserts.
abbrev pub new_event : ReaderDevice → TechnicalRfidRead → Database → RawRfidEvent
new_event device read db = record {
  event_id = db.next_id;
  device_id = device.id;
  rfid_session_id = none;
  reader_event_key = read.reader_event_key;
  epc = read.epc;
  raw_payload = read.raw_payload;
  queue_state = unassigned;
  received_at = db.now;
}

abbrev pub insert_event : RawRfidEvent → Database → Database
insert_event event db = record db { events = event ∷ db.events; next_id = db.next_id + 1 }

abbrev pub with_id : ℕ → List ℕ × Database → List ℕ × Database
with_id i (ids, db) = (i ∷ ids, db)

-- The loop: the identifiers of the new events, and the database.
unfoldable pub ingest_reads : ReaderDevice → List TechnicalRfidRead → Database → List ℕ × Database
ingest_reads device [] db = ([], db)
ingest_reads device (read ∷ reads) db =
    elim (event_of_key device.id read.reader_event_key db.events) [
      | some event ↦ ingest_reads device reads db
      | none ↦
          with_id (new_event device read db).event_id
            (ingest_reads device reads (insert_event (new_event device read db) db))
    ]

abbrev pub ingested : List TechnicalRfidRead → List ℕ × Database → IngestionResult × Database
ingested reads (ids, db) = (
  record {
    received_count = length reads;
    created_count = length ids;
    duplicate_count = length reads - length ids;
    created_event_ids = ids;
  },
  db,
)

-- Whether the columns of bridge_core/models.py have room for the key and the EPC.
unfoldable pub event_fits : RawRfidEvent → Bool
event_fits event = leb (text_length event.reader_event_key) 128 && leb (text_length event.epc) 128

-- The reads that the loop gets through: the insertion of a row that does not fit raises.
unfoldable pub fitting : ReaderDevice → List TechnicalRfidRead → Database → List TechnicalRfidRead
fitting device [] db = []
fitting device (read ∷ reads) db = elim (event_of_key device.id read.reader_event_key db.events) [
  | some event ↦ read ∷ fitting device reads db
  | none ↦
      let rest = fitting device reads (insert_event (new_event device read db) db) in
      if event_fits (new_event device read db) then read ∷ rest else []
]

-- The database where `ingest_technical_reads` has raised: each row is inserted for itself, and those
-- before the one that does not fit stay, unless the caller has a transaction, which rolls them back.
unfoldable pub rows_left : ReaderDevice → List TechnicalRfidRead → Database → Database
rows_left device technical_reads db =
    if device.enabled then (ingest_reads device (fitting device technical_reads db) db).1 else db

-- Raises before anything is written, or at the first row that does not fit.
unfoldable pub ingest_technical_reads :
    ReaderDevice → List TechnicalRfidRead → Transaction IngestionResult
ingest_technical_reads device technical_reads db = do
  raise_if (not device.enabled) device_disabled
  raise_if (ltb (length (fitting device technical_reads db)) (length technical_reads))
      (value_too_long raw_rfid_event)
  ok (ingested technical_reads (ingest_reads device technical_reads db))
