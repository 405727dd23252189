-- ===== src/Worker/Cycle.antt =====
-- `FinalWorkerCycle` with its tag frames and its capture service.
use rfid.Prelude.{
  ℕ, ◌+◌, Bool, true, false, not, ◌&&◌, Option, none, some, String, List, [], ◌∷◌, length, ◌==◌,
  string_eq, if◌then◌else◌,
}
use rfid.Result.{Result, ok}
use rfid.Models.{ReaderDevice}
use rfid.Protocol.{RfidFrame}
use rfid.Runtime.{RuntimeState, reading, runtime_state_eq, CommandPayload}
use rfid.Intake.{FinalTagIngestionResult, TagReport, ingest_final_active_tag_frames}
use rfid.Orchestrator.{
  Failure, capture_reader_mismatch, capture_session_mismatch, drain_reader_mismatch,
  reading_without_session, Entry, Environment, Action, pure, throw, ◌>>=◌, ◌>>◌, session_call,
  send_heartbeat, poll_commands, CommandExecutionResult,
}

-- A `capture_service`; what it answers may depend on all that has happened.
pub record CaptureService : Type 0 where
  pub session_key : List Entry → Option String
  pub start : List Entry → String → String → Result Failure (Unit {0})
  pub stop : List Entry → Result Failure (Unit {0})
  pub require_healthy : List Entry → Result Failure (Unit {0})

-- What the cycle is made of: the orchestrator's environment with the commands that Odoo returns, the
-- frames that `reader_executor` returns, the device and the capture service.
pub record FinalWorkerCycle : Type 0 where
  pub env : Environment
  pub commands : List Entry → Result Failure (List (Option CommandPayload))
  pub poll_tag_frames : List Entry → Result Failure (List RfidFrame)
  pub take_pending_tag_frames : List Entry → List RfidFrame
  pub device : ReaderDevice
  pub sha256_hex : String → String
  pub json_dumps : TagReport → String
  pub capture_service : Option CaptureService

pub record FinalWorkerCycleResult : Type 0 where
  pub heartbeat_sent : Bool
  pub commands_processed : ℕ
  pub tag_frames_received : ℕ
  pub tags_created : ℕ
  pub tags_duplicate : ℕ
  pub tags_assigned : ℕ
  pub runtime_state : RuntimeState

-- An answer that depends on what has happened.
unfoldable pub asked : {A : Type 0} → (List Entry → Result Failure A) → Action A
asked answer w = (answer w.trace, w)

unfoldable pub start_capture : FinalWorkerCycle → String → String → Action (Unit {0})
start_capture cycle session_key reader_code = elim cycle.capture_service [
  | none ↦ pure tt
  | some capture ↦ asked (λ trace. capture.start trace session_key reader_code)
]

-- `session_key and active_capture_key and active_capture_key != session_key`
abbrev pub other_session : Option String → Option String → Bool
other_session (some key) (some active) =
    not (key == "") && not (active == "") && not (active == key)
other_session _ _ = false

abbrev pub other_reader : Option String → String → Bool
other_reader none code = false
other_reader (some reader_code) code = not (reader_code == code)

abbrev pub stop_service : Option String → CaptureService → Action (Unit {0})
stop_service session_key capture w =
    (if other_session session_key (capture.session_key w.trace)
        then throw capture_session_mismatch
        else asked capture.stop)
      w

unfoldable pub stop_capture : FinalWorkerCycle → Option String → Option String → Action (Unit {0})
stop_capture cycle session_key reader_code =
    if other_reader reader_code cycle.device.code
    then throw capture_reader_mismatch
    else elim cycle.capture_service [
      | none ↦ pure tt
      | some capture ↦ stop_service session_key capture
    ]

unfoldable pub require_capture_healthy : FinalWorkerCycle → Action (Unit {0})
require_capture_healthy cycle = elim cycle.capture_service [
  | none ↦ pure tt
  | some capture ↦ asked capture.require_healthy
]

-- `if not frames: return None`, or the ingestion.
unfoldable pub ingest_if_any :
    FinalWorkerCycle → String → List RfidFrame → Action (Option FinalTagIngestionResult)
ingest_if_any cycle session_key [] = pure none
ingest_if_any cycle session_key (frame ∷ frames) = do
  r ← session_call (
      ingest_final_active_tag_frames cycle.sha256_hex cycle.json_dumps cycle.device session_key
        (frame ∷ frames))
  pure (some r)

abbrev pub taken : FinalWorkerCycle → Action (List RfidFrame)
taken cycle = asked (λ trace. ok (cycle.take_pending_tag_frames trace))

unfoldable pub drain_pending_tags :
    FinalWorkerCycle → String → String → Action (Option FinalTagIngestionResult)
drain_pending_tags cycle session_key reader_code =
    if not (reader_code == cycle.device.code)
    then throw drain_reader_mismatch
    else (do frames ← taken cycle; ingest_if_any cycle session_key frames)

-- What is done for the session of a runtime that is reading, and what without a session key.
abbrev pub for_key :
    Bool
    → Option String
    → Action (Option FinalTagIngestionResult)
    → (String → Action (Option FinalTagIngestionResult))
    → Action (Option FinalTagIngestionResult)
for_key false session_key without with_key = pure none
for_key true none without with_key = without
for_key true (some key) without with_key = if key == "" then without else with_key key

abbrev pub while_reading :
    Action (Option FinalTagIngestionResult)
    → (String → Action (Option FinalTagIngestionResult))
    → Action (Option FinalTagIngestionResult)
while_reading without with_key w =
    for_key (w.runtime.state == reading) w.runtime.session_key without with_key w

unfoldable pub poll_active_tags : FinalWorkerCycle → Action (Option FinalTagIngestionResult)
poll_active_tags cycle =
    while_reading (throw reading_without_session)
      (λ key. do frames ← asked cycle.poll_tag_frames; ingest_if_any cycle key frames)

-- The frames that came with the answer to a START.
unfoldable pub persist_pending : FinalWorkerCycle → Action (Option FinalTagIngestionResult)
persist_pending cycle =
    while_reading (pure none) (λ key. do frames ← taken cycle; ingest_if_any cycle key frames)

abbrev pub without_capture :
    FinalWorkerCycle
    → Action (Option FinalTagIngestionResult)
    → Action (Option FinalTagIngestionResult)
without_capture cycle m = elim cycle.capture_service [ none ↦ m | some _ ↦ pure none ]

-- The counters, over an ingestion if there was one.
abbrev pub add_ingestion :
    Option FinalTagIngestionResult → FinalWorkerCycleResult → FinalWorkerCycleResult
add_ingestion none r = r
add_ingestion (some i) r = record r {
  tag_frames_received = r.tag_frames_received + i.frame_count;
  tags_created = r.tags_created + i.created_count;
  tags_duplicate = r.tags_duplicate + i.duplicate_count;
  tags_assigned = r.tags_assigned + i.assigned_count;
}

abbrev pub finished :
    List CommandExecutionResult
    → Option FinalTagIngestionResult
    → Option FinalTagIngestionResult
    → Action FinalWorkerCycleResult
finished results polled pending w = (
  ok (
      add_ingestion pending (
        add_ingestion polled (record {
          heartbeat_sent = true;
          commands_processed = length results;
          tag_frames_received = 0;
          tags_created = 0;
          tags_duplicate = 0;
          tags_assigned = 0;
          runtime_state = w.runtime.state;
        }))),
  w,
)

unfoldable pub run_once : FinalWorkerCycle → Action FinalWorkerCycleResult
run_once cycle = do
  require_capture_healthy cycle
  send_heartbeat cycle.env
  polled ← without_capture cycle (poll_active_tags cycle)
  payloads ← asked cycle.commands
  results ← poll_commands cycle.env payloads
  pending ← without_capture cycle (persist_pending cycle)
  require_capture_healthy cycle
  finished results polled pending
