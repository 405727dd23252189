-- ===== src/Worker/Capture.antt =====
-- bridge_core/final_capture_service.py: a thread polls the reader while the worker talks to Odoo. The steps
-- of the thread and of the worker come in any order; `stop` is two of them, since the thread goes on
-- while the worker waits for its end.
use rfid.Prelude.{
  Bool, true, false, not, Option, none, some, String, List, [], ◌∷◌, ◌==◌, string_eq, if◌then◌else◌,
}
use rfid.Prelude.Text.{strip}
use rfid.Result.{Result, ok, err}
use rfid.Protocol.{RfidFrame}
use rfid.Orchestrator.{Failure}

-- `FinalCaptureServiceError`
pub data CaptureError : Type 0 where
  reader_mismatch key_required different_session reader_inactive session_mismatch : CaptureError
  not_stopped : CaptureError
  failed : Failure → CaptureError

-- Where a thread is in `_run`: before the test of its loop, before a poll, with frames to ingest,
-- behind its loop, and behind the setting of the stop event in `finally`.
pub data Phase : Type 0 where
  looping polling : Phase
  holding : List RfidFrame → Phase
  leaving closing : Phase

-- `_thread`: none, or one that is alive or has ended.
pub data Thread : Type 0 where
  no_thread : Thread
  alive : Phase → Thread
  ended : Thread

pub record Capture : Type 0 where
  pub thread : Thread
  pub stop_event : Bool
  pub session_key : Option String
  pub error : Option Failure

-- `__init__`, behind its tests of the two times.
abbrev pub new_capture : Capture
new_capture = record { thread = no_thread; stop_event = false; session_key = none; error = none }

abbrev pub is_running : Thread → Bool
is_running (alive _) = true
is_running _ = false

abbrev pub has_key : String → Option String → Bool
has_key key none = false
has_key key (some k) = k == key

-- `start` of a service for the device with the code, with `is_active` and `active_session_key` of the
-- reader executor.
unfoldable pub capture_start :
    String
    → Bool
    → Option String
    → String
    → String
    → Capture
    → Result CaptureError (Unit {0}) × Capture
capture_start device_code reader_is_active active_key session_key reader_code c =
    let key = strip session_key in
    if not (strip reader_code == device_code)
    then (err reader_mismatch, c)
    else if key == ""
    then (err key_required, c)
    else if is_running c.thread
    then (if has_key key c.session_key then ok tt else err different_session, c)
    else if not reader_is_active
    then (err reader_inactive, c)
    else if not (has_key key active_key)
    then (err session_mismatch, c)
    else (
      ok tt,
      record { thread = alive looping; stop_event = false; session_key = some key; error = none },
    )

-- `except Exception` of `_run`: the error is set; the stop event is not yet.
abbrev pub failed_with : Failure → Capture → Capture
failed_with f c = record c { thread = alive leaving; error = some f }

-- The test of the loop.
unfoldable pub looped : Capture → Capture
looped c = record c { thread = alive (if c.stop_event then leaving else polling) }

-- What the reader answers to a poll. With no frame the thread sleeps.
abbrev pub polled : Result Failure (List RfidFrame) → Capture → Capture
polled (err f) c = failed_with f c
polled (ok []) c = record c { thread = alive looping }
polled (ok (frame ∷ frames)) c = record c { thread = alive (holding (frame ∷ frames)) }

-- What the ingestion of the frames, under the service's key, comes to.
abbrev pub after_ingestion : Result Failure (Unit {0}) → Capture → Capture
after_ingestion (err f) c = failed_with f c
after_ingestion (ok _) c = record c { thread = alive looping }

-- The next step of `_run`, with the reader's answer to a poll and an ingestion: `finally` sets the
-- stop event, closes the connections, and then the thread ends.
abbrev pub run_step :
    (Option String → List RfidFrame → Result Failure (Unit {0}))
    → Result Failure (List RfidFrame)
    → Thread
    → Capture
    → Capture
run_step ingest poll (alive looping) c = looped c
run_step ingest poll (alive polling) c = polled poll c
run_step ingest poll (alive (holding frames)) c = after_ingestion (ingest c.session_key frames) c
run_step ingest poll (alive leaving) c = record c { thread = alive closing; stop_event = true }
run_step ingest poll (alive closing) c = record c { thread = ended }
run_step ingest poll _ c = c

unfoldable pub thread_step :
    (Option String → List RfidFrame → Result Failure (Unit {0}))
    → Result Failure (List RfidFrame)
    → Capture
    → Capture
thread_step ingest poll c = run_step ingest poll c.thread c

-- `stop` up to the join: whether there is a thread to wait for.
abbrev pub is_none : Thread → Bool
is_none no_thread = true
is_none _ = false

unfoldable pub stop_begin : Capture → Bool × Capture
stop_begin c =
    if is_none c.thread
    then (false, record c { session_key = none })
    else (true, record c { stop_event = true })

-- `stop` behind the join, which has waited for the thread or for its time.
unfoldable pub stop_end : Capture → Result CaptureError (Unit {0}) × Capture
stop_end c =
    if is_running c.thread
    then (err not_stopped, c)
    else (ok tt, record c { thread = no_thread; session_key = none })

unfoldable pub require_healthy : Capture → Result CaptureError Bool
require_healthy c = elim c.error [ some f ↦ err (failed f) | none ↦ ok true ]

-- What may happen next.
pub data CaptureStep : Type 0 where
  starting : Bool → Option String → String → String → CaptureStep
  stopping joined : CaptureStep
  running :
      (Option String → List RfidFrame → Result Failure (Unit {0}))
      → Result Failure (List RfidFrame)
      → CaptureStep

unfoldable pub capture_step : String → CaptureStep → Capture → Capture
capture_step code (starting active key session_key reader_code) c =
    (capture_start code active key session_key reader_code c).1
capture_step code stopping c = (stop_begin c).1
capture_step code joined c = (stop_end c).1
capture_step code (running ingest poll) c = thread_step ingest poll c

unfoldable pub capture_steps : String → List CaptureStep → Capture → Capture
capture_steps code [] c = c
capture_steps code (s ∷ steps) c = capture_steps code steps (capture_step code s c)
