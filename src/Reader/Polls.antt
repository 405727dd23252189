-- ===== src/Reader/Polls.antt =====
-- `poll_tag_frames`, `take_pending_tag_frames` and `verify_idle` of
-- bridge_core/final_reader_executor.py.
use rfid.Prelude.{
  ℕ, zero, suc, Bool, true, false, not, List, [], ◌∷◌, ◌++◌, ◌==◌, nat_eq, if◌then◌else◌,
}
use rfid.Result.{Result, ok, err}
use rfid.Protocol.{RfidFrame, build_frame}
use rfid.Reader.Io.{
  ReaderError, address_mismatch, tag_frame_failed, rejected, no_answer, still_active, Io, ◌>>=◌,
  ◌>>◌, pure, throw, checked, finally,
}
use rfid.Reader.Transport.{make_transport, Port, fresh, enter, close_session, send, receive}
use rfid.Reader.Inventory.{
  command_stop, command_active_tag, ReaderSettings, Executor, is_active, on_session, built,
}

unfoldable pub take_pending_tag_frames : Io Executor (List RfidFrame)
take_pending_tag_frames e = (ok e.pending_tag_frames, record e { pending_tag_frames = [] })

-- `for frame in frames: self._capture_tag_frame(frame)`
unfoldable pub capture : ℕ → List RfidFrame → Io Executor (Unit {0})
capture address [] e = (ok tt, e)
capture address (frame ∷ frames) e =
    let rest = capture address frames in
    if not (frame.address == address)
    then (err address_mismatch, e)
    else if not (frame.command == command_active_tag)
    then rest e
    else if not (frame.status == 0)
    then (err tag_frame_failed, e)
    else rest (record e { pending_tag_frames = e.pending_tag_frames ++ frame ∷ [] })

unfoldable pub poll_reader : ReaderSettings → Io Executor (List RfidFrame)
poll_reader device = do
  frames ← on_session (receive (command_active_tag ∷ []) 32 true)
  capture device.device_address frames
  take_pending_tag_frames

abbrev pub pending_or_polled : ReaderSettings → List RfidFrame → Io Executor (List RfidFrame)
pending_or_polled device (f ∷ frames) e = take_pending_tag_frames e
pending_or_polled device [] e = if is_active e then poll_reader device e else (ok [], e)

unfoldable pub poll_tag_frames : ReaderSettings → Io Executor (List RfidFrame)
poll_tag_frames device e = pending_or_polled device e.pending_tag_frames e

-- The inner loop of `verify_idle`: whether the answer to the STOP is among the frames.
unfoldable pub scan_idle : ℕ → List RfidFrame → Result ReaderError Bool
scan_idle address [] = ok false
scan_idle address (frame ∷ frames) =
    let rest = scan_idle address frames in
    if not (frame.address == address)
    then err address_mismatch
    else if not (frame.command == command_stop)
    then rest
    else if frame.status == 0
    then ok true
    else err (rejected frame.status)

unfoldable pub wait_idle : ℕ → ℕ → Io Port (Unit {0})
wait_idle address zero = throw no_answer
wait_idle address (suc n) = do
  frames ← receive (command_stop ∷ []) 32 true
  answered ← checked (scan_idle address frames)
  if answered then pure tt else wait_idle address n

-- The `try` body of `verify_idle`, on a session of its own.
unfoldable pub stop_idle : ReaderSettings → Io Port (Unit {0})
stop_idle device = do
  enter
  request ← checked (built (build_frame device.device_address 11 command_stop [] 0))
  send request
  wait_idle device.device_address 32

-- The network behind a session that is not the executor's.
abbrev pub beside :
    Executor → Result ReaderError (Unit {0}) × Port → Result ReaderError (Unit {0}) × Executor
beside e (r, p) =
    (r, record e { port = record p { is_open = e.port.is_open; buffer = e.port.buffer } })

unfoldable pub verify_idle : ReaderSettings → Io Executor (Unit {0})
verify_idle device e =
    if is_active e then (err still_active, e) else elim (make_transport device.connection 4096) [
      | err x ↦ (err x, e)
      | ok _ ↦ beside e (finally close_session (stop_idle device (fresh e.port)))
    ]
