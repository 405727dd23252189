-- ===== src/Reader/Inventory.antt =====
-- bridge_core/final_reader_executor.py: an inventory that runs from START to STOP over one session.
use rfid.Prelude.{
  ℕ, zero, suc, Bool, true, false, not, ◌&&◌, ◌||◌, Option, none, some, String, List, [], ◌∷◌, ◌++◌,
  ◌==◌, nat_eq, string_eq, if◌then◌else◌,
}
use rfid.Prelude.Text.{strip}
use rfid.Result.{Result, ok, err}
use rfid.Protocol.{ProtocolError, RfidFrame, build_frame, pack_u32}
use rfid.Reader.Io.{
  ReaderError, protocol, address_mismatch, tag_frame_failed, rejected, no_answer, identity_mismatch,
  session_key_missing, other_session, not_active, Io, ◌>>=◌, ◌>>◌, pure, throw, checked, finally,
  undone_on_error,
}
use rfid.Reader.Transport.{
  TcpReaderConnection, make_transport, Port, fresh, enter, close_session, send, receive,
}

abbrev pub command_stop : ℕ
command_stop = 0x7f

abbrev command_start_inventory : ℕ
command_start_inventory = 0x81

abbrev pub command_active_tag : ℕ
command_active_tag = 0xf9

-- The device that an executor was made for.
pub record ReaderSettings : Type 0 where
  pub code : String
  pub device_address : ℕ
  pub enabled : Bool
  -- `inventory_mode == ACTIVE`
  pub inventory_is_active : Bool
  pub connection : TcpReaderConnection

-- `has_session` tells whether `_session` is set; the session object and the network are the port.
pub record Executor : Type 0 where
  pub has_session : Bool
  pub active_session_key : Option String
  pub pending_tag_frames : List RfidFrame
  pub port : Port

abbrev pub is_set : Option String → Bool
is_set none = false
is_set (some key) = true

abbrev pub is_active : Executor → Bool
is_active e = e.has_session && is_set e.active_session_key

-- A call of the session.
abbrev pub with_port :
    {A : Type 0} → Executor → Result ReaderError A × Port → Result ReaderError A × Executor
with_port e (r, p) = (r, record e { port = p })

abbrev pub on_session : {A : Type 0} → Io Port A → Io Executor A
on_session m e = with_port e (m e.port)

abbrev pub built : Result ProtocolError (List ℕ) → Result ReaderError (List ℕ)
built (err e) = err (protocol e)
built (ok frame) = ok frame

-- What the frames of one `receive` come to, with the tag frames so far.
pub data Scan : Type 0 where
  waiting : List RfidFrame → Scan
  answer : RfidFrame → List RfidFrame → Scan
  failed : ReaderError → List RfidFrame → Scan

abbrev scan_tag : RfidFrame → List RfidFrame → (List RfidFrame → Scan) → Scan
scan_tag frame pending rest =
    if frame.status == 0 then rest (pending ++ frame ∷ []) else failed tag_frame_failed pending

abbrev scan_answer : (ℕ → Bool) → RfidFrame → List RfidFrame → Scan
scan_answer accepted frame pending =
    if accepted frame.status then answer frame pending else failed (rejected frame.status) pending

-- The inner loop of `_wait_for_start_response` and of `_wait_for_stop_response`, which differ in the
-- command and in the accepted status codes.
unfoldable pub scan : ℕ → ℕ → (ℕ → Bool) → List RfidFrame → List RfidFrame → Scan
scan address command accepted [] pending = waiting pending
scan address command accepted (frame ∷ frames) pending =
    let rest = scan address command accepted frames in
    if not (frame.address == address)
    then failed address_mismatch pending
    else if frame.command == command_active_tag
    then scan_tag frame pending rest
    else if frame.command == command
    then scan_answer accepted frame pending
    else rest pending

-- A round of the outer loop, over the frames that it has received; `again` is the rounds behind it.
unfoldable pub wait_scanned :
    Io Executor RfidFrame → Executor → Scan → Result ReaderError RfidFrame × Executor
wait_scanned again e (waiting pending) = again (record e { pending_tag_frames = pending })
wait_scanned again e (answer frame pending) = (ok frame, record e { pending_tag_frames = pending })
wait_scanned again e (failed x pending) = (err x, record e { pending_tag_frames = pending })

abbrev pub scanned :
    ℕ → ℕ → (ℕ → Bool) → Io Executor RfidFrame → List RfidFrame → Io Executor RfidFrame
scanned address command accepted again frames e =
    wait_scanned again e (scan address command accepted frames e.pending_tag_frames)

unfoldable pub wait_for : ℕ → ℕ → (ℕ → Bool) → ℕ → Io Executor RfidFrame
wait_for address command accepted zero = throw no_answer
wait_for address command accepted (suc n) = do
  frames ← on_session (receive (command ∷ command_active_tag ∷ []) 32 true)
  scanned address command accepted (wait_for address command accepted n) frames

-- `ACCEPTED_START_STATUSES`
abbrev pub accepts_start : ℕ → Bool
accepts_start status = status == 0 || status == 0x99

abbrev pub accepts_stop : ℕ → Bool
accepts_stop status = status == 0

unfoldable pub wait_for_start_response : ReaderSettings → Io Executor RfidFrame
wait_for_start_response device =
    wait_for device.device_address command_start_inventory accepts_start 32

unfoldable pub wait_for_stop_response : ReaderSettings → Io Executor RfidFrame
wait_for_stop_response device = wait_for device.device_address command_stop accepts_stop 32

-- `close`
unfoldable pub close : Executor → Executor
close e = record e {
  has_session = false;
  active_session_key = none;
  port = if e.has_session then close_session e.port else e.port;
}

abbrev pub set_session : Io Executor (Unit {0})
set_session e = (ok tt, record e { has_session = true })

abbrev pub set_active : String → Io Executor (Unit {0})
set_active key e = (ok tt, record e { active_session_key = some key })

-- The `try` body of `start`.
unfoldable pub start_inventory : ReaderSettings → String → Io Executor (Unit {0})
start_inventory device key = do
  on_session enter
  set_session
  request ←
      checked
        (built (build_frame device.device_address 10 command_start_inventory (pack_u32 0x50) 0))
  on_session (send request)
  wait_for_start_response device
  set_active key

-- Its handler: `session_context.__exit__(…)`, and nothing is kept.
unfoldable pub abandon : Executor → Executor
abandon e = record e { has_session = false; active_session_key = none; port = close_session e.port }

abbrev open_session : Io Executor (Unit {0})
open_session e = (ok tt, record e { port = fresh e.port })

unfoldable pub begin : ReaderSettings → String → Io Executor (Unit {0})
begin device key = do
  checked (make_transport device.connection 4096)
  open_session
  λ e. undone_on_error abandon (start_inventory device key e)

abbrev pub same_key : String → Option String → Bool
same_key key none = false
same_key key (some active) = active == key

unfoldable pub start : ReaderSettings → String → String → Io Executor (Unit {0})
start device session_key reader_code e =
    let key = strip session_key in
    if not (strip reader_code == device.code)
    then (err identity_mismatch, e)
    else if key == ""
    then (err session_key_missing, e)
    else if is_active e
    then (if same_key key e.active_session_key then (ok tt, e) else (err other_session, e))
    else begin device key e

-- The `try` body of `stop`.
unfoldable pub stop_inventory : ReaderSettings → Io Executor (Unit {0})
stop_inventory device = do
  request ← checked (built (build_frame device.device_address 11 command_stop [] 0))
  on_session (send request)
  wait_for_stop_response device
  pure tt

unfoldable pub stop : ReaderSettings → String → String → Io Executor (Unit {0})
stop device session_key reader_code e =
    if not (strip reader_code == device.code)
    then (err identity_mismatch, e)
    else if not (is_active e)
    then (err not_active, e)
    else if not (same_key (strip session_key) e.active_session_key)
    then (err other_session, e)
    else finally close (stop_inventory device e)
