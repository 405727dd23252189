-- ===== src/Tests/Sample.antt =====
-- A small database: a reader at the receiving door, its open session and a queued event.
use rfid.Prelude.{true, false, none, some, [], ◌∷◌}
use rfid.Models.{
  Database, RawRfidEvent, ReaderDevice, RfidSession, queued, active, receiving, receipt,
}

abbrev pub dock : ReaderDevice
dock = record {
  id = 1;
  code = "receiving-door-01";
  role = receiving;
  device_address = 1;
  enabled = true;
  shared_operations = false;
}

abbrev pub open_session : RfidSession
open_session = record {
  id = 2;
  external_session_key = "S1";
  device_id = 1;
  operation_type = receipt;
  odoo_reference = "WH/IN/1";
  status = active;
  closed_at = none;
}

abbrev pub queued_event : RawRfidEvent
queued_event = record {
  event_id = 3;
  device_id = 1;
  rfid_session_id = some 2;
  reader_event_key = "final:a:b";
  epc = "E280";
  raw_payload = "{}";
  queue_state = queued;
  received_at = 100;
}

abbrev pub sample : Database
sample = record {
  devices = dock ∷ [];
  sessions = open_session ∷ [];
  events = queued_event ∷ [];
  attempts = [];
  next_id = 4;
  now = 200;
}
