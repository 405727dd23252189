-- ===== src/Tests/Reader.antt =====
-- A reader that answers a START and a STOP.
use rfid.Prelude.{ℕ, ◌≡◌, refl, true, some, List, [], ◌∷◌, ◌++◌}
use rfid.Prelude.Text.{strip}
use rfid.Result.{ok}
use rfid.Protocol.{
  RfidFrame, build_frame, feed, round, candidate, synced_round, sync, decode, parse_frame,
  calculate_crc,
}
use rfid.Reader.{
  make_executor, validate_device, transport_exchange, exchange, finally, bytes, ReaderSettings,
  Executor, start_reader, after_requests, after_request, new_executor, scanned, scanned-append,
  scan, answer, accepts_start, start, begin, start_inventory, make_transport, validate_connection,
  enter, send, receive, receive_rounds, receive_answer, receive_matched, wait_for, wait_scanned,
  wait_for_start_response, and_then, undone_on_error, throw, no_answer, close_session,
}

abbrev door : ReaderSettings
door = record {
  code = "receiving-door-01";
  device_address = 1;
  enabled = true;
  inventory_is_active = true;
  connection = record {
    host = "10.0.0.7";
    port = 8090;
    connect_timeout_seconds = 5;
    read_timeout_seconds = 5;
  };
}

-- The answer to a START, and a tag.
abbrev started_bytes : List ℕ
started_bytes = 0xfe ∷ 0 ∷ 9 ∷ 1 ∷ 10 ∷ 0x81 ∷ 0 ∷ 221 ∷ 126 ∷ []

abbrev tag_bytes : List ℕ
tag_bytes = 0xfe ∷ 0 ∷ 16 ∷ 1 ∷ 0 ∷ 0xf9 ∷ 0 ∷ 0 ∷ 0 ∷ 0 ∷ 4 ∷ 1 ∷ 1 ∷ 7 ∷ 233 ∷ 36 ∷ []

abbrev started_with : List ℕ → Executor
started_with chunk =
    after_requests door (start_reader "S1" "receiving-door-01" ∷ [])
      (new_executor (bytes [] ∷ bytes [] ∷ bytes chunk ∷ []))

abbrev tag_frame : RfidFrame
tag_frame = record {
  address = 1;
  sequence = 0;
  command = 0xf9;
  status = 0;
  payload = 0 ∷ 0 ∷ 0 ∷ 4 ∷ 1 ∷ 1 ∷ 7 ∷ [];
  raw_frame = tag_bytes;
}

abbrev start_frame : RfidFrame
start_frame = record {
  address = 1;
  sequence = 10;
  command = 0x81;
  status = 0;
  payload = [];
  raw_frame = started_bytes;
}

-- A tag in front of the answer is kept, and one behind it in the same chunk is not.
tag_in_front : (started_with (tag_bytes ++ started_bytes)).pending_tag_frames ≡ tag_frame ∷ []
unfolding after_requests after_request start begin start_inventory make_transport
    validate_connection enter send receive receive_rounds receive_answer receive_matched wait_for
    wait_scanned wait_for_start_response and_then undone_on_error scan build_frame feed round
    candidate synced_round sync decode parse_frame calculate_crc strip
tag_in_front = refl

tag_behind : (started_with (started_bytes ++ tag_bytes)).pending_tag_frames ≡ []
unfolding after_requests after_request start begin start_inventory make_transport
    validate_connection enter send receive receive_rounds receive_answer receive_matched wait_for
    wait_scanned wait_for_start_response and_then undone_on_error scan build_frame feed round
    candidate synced_round sync decode parse_frame calculate_crc strip
tag_behind = refl

now_active : (started_with started_bytes).active_session_key ≡ some "S1"
unfolding after_requests after_request start begin start_inventory make_transport
    validate_connection enter send receive receive_rounds receive_answer receive_matched wait_for
    wait_scanned wait_for_start_response and_then undone_on_error scan build_frame feed round
    candidate synced_round sync decode parse_frame calculate_crc strip
now_active = refl

abbrev idle : Executor
idle = new_executor []

answer_found :
    scan 1 0x81 accepts_start (tag_frame ∷ start_frame ∷ []) []
    ≡ answer start_frame (tag_frame ∷ [])
unfolding scan
answer_found = refl

scanned-append_example :
    scanned 1 0x81 accepts_start (throw no_answer) (tag_frame ∷ start_frame ∷ tag_frame ∷ []) idle
    ≡ (ok start_frame, record idle { pending_tag_frames = tag_frame ∷ [] })
scanned-append_example =
    scanned-append 1 0x81 accepts_start (tag_frame ∷ []) start_frame (throw no_answer) idle
      (tag_frame ∷ start_frame ∷ []) (tag_frame ∷ []) answer_found

made : make_executor door [] ≡ ok idle
unfolding make_executor validate_device strip
made = refl

-- A START whose answer has come.
answered_start :
    (transport_exchange
      (1 ∷ [])
      (0x81 ∷ [])
      32
      (new_executor (bytes [] ∷ bytes [] ∷ bytes started_bytes ∷ [])).port).0
    ≡ ok (start_frame ∷ [])
unfolding transport_exchange exchange enter send receive receive_rounds receive_answer
    receive_matched and_then finally feed round candidate synced_round sync decode parse_frame
    calculate_crc close_session
answered_start = refl
