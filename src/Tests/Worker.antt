-- ===== src/Tests/Worker.antt =====
-- The worker's orchestrator in an environment where every call succeeds and the barrier is set.
use rfid.Prelude.{Bool, ◌≡◌, ◌≢◌, ◌⊎◌, refl, true, false, none, some, String, List, [], ◌∷◌}
use rfid.Prelude.Text.{strip}
use rfid.Result.{Result, ok, err}
use rfid.Protocol.{RfidFrame}
use rfid.Models.{Database}
use rfid.Runtime.{
  start, stop, no_error_message, idle, reading, OdooRfidCommand, CommandPayload, runtime,
  plan_command, plan_start, validate_command, mark_reader_started, mark_command_completed, executed,
}
use rfid.Session.{synchronize_start_command, create, reuse, operation_for_reader, operation_by_role}
use rfid.Orchestrator.{
  runtime_state, reader_stop, stop_reader, execute_stop, execute_stop-escapes, Failure, Call,
  before_success_ack, Entry, World, Environment, BlankRaise, At, Settled, CommandExecutionResult,
  process_command, process-Settled, perform, hook, and_then, handled, session_call, set_runtime,
  execute_start, begin_reading, completed, acknowledge, send_completed_success_ack,
}
use rfid.Worker.{
  CaptureStep, starting, stopping, joined, running, no_thread, new_capture, capture_step,
  capture_steps, capture_start, thread_step, looped, stop_begin, stop_end, IsCoherent,
  capture-IsCoherent, FinalWorkerCycle, after_rounds, rounds-delivered,
  require_stop_delivery_complete, IsWired, AllJustified,
}
use rfid.Tests.Sample.{dock, sample}
use text.Mathlib.TextEquality.{eq_iff}

abbrev answer : String → List Entry → Database → Call → Result Failure Bool × Database
answer code trace db (before_success_ack key reader) =
    (require_stop_delivery_complete code key reader db, db)
answer code trace db _ = (ok true, db)

abbrev all_well : Environment
all_well = record {
  respond = answer "receiving-door-01";
  is_active = λ trace. false;
  text = λ f. "failed";
  has_after_reader_start = true;
  has_before_reader_stop = true;
  has_before_session_close = true;
  has_before_success_ack = true;
}

wired : IsWired all_well "receiving-door-01"
wired = record { is_set = refl; is_barrier = λ trace db key code. refl }

-- A reader that does not answer.
abbrev silent : Environment
silent = record all_well { respond = λ trace db call. (err (Failure.foreign "timed out"), db) }

abbrev command : OdooRfidCommand
command = record {
  session_key = "S2";
  reader_code = "receiving-door-01";
  command = start;
  revision = 7;
  picking = "WH/IN/2";
  operation = none;
}

key_given : command.session_key ≢ ""
key_given e = let h = (eq_iff "S2" "").1 e in cc

abbrev at_rest : World
at_rest = record {
  runtime = runtime "receiving-door-01" idle none 0 none;
  db = record sample { sessions = [] };
  trace = [];
}

started : (process_command all_well command at_rest).1.runtime ≡ executed at_rest.runtime command
unfolding process_command plan_command plan_start validate_command execute_start begin_reading
    completed acknowledge send_completed_success_ack perform hook and_then handled session_call
    set_runtime synchronize_start_command create reuse operation_for_reader operation_by_role strip
    mark_reader_started mark_command_completed
started = refl

process-Settled_example :
    ((res : CommandExecutionResult) × ((process_command silent command at_rest).0 ≡ ok res)
      × Settled at_rest.runtime command res (process_command silent command at_rest).1.runtime)
    ⊎ (((process_command silent command at_rest).0 ≡ err (runtime_state no_error_message))
        × BlankRaise silent command
        × At command (process_command silent command at_rest).1.runtime)
process-Settled_example = process-Settled silent command at_rest key_given

-- The reader reads for the open session, whose event is still queued.
abbrev busy : World
busy = record {
  runtime = runtime "receiving-door-01" reading (some "S1") 2 none;
  db = sample;
  trace = [];
}

abbrev payload : CommandPayload
payload = record {
  session_key = some "S1";
  reader_code = some "receiving-door-01";
  command = some "stop";
  picking = none;
  operation = none;
  revision = some 3;
}

-- A worker whose reader has no frames and whose Odoo stops the session of the queued event.
abbrev worker : FinalWorkerCycle
worker = record {
  env = all_well;
  commands = λ trace. ok (some payload ∷ []);
  poll_tag_frames = λ trace. ok [];
  take_pending_tag_frames = λ trace. [];
  device = dock;
  sha256_hex = λ text. text;
  json_dumps = λ report. "{}";
  capture_service = none;
}

rounds-delivered_example : AllJustified (after_rounds worker 2 busy).trace
rounds-delivered_example = rounds-delivered worker wired 2 busy tt

-- The thread's next step, with an ingestion that returns.
abbrev next : Result Failure (List RfidFrame) → CaptureStep
next = running (λ key frames. ok tt)

-- A capture that starts, polls once without a frame, and is stopped when the next poll has failed.
abbrev capture_run : List CaptureStep
capture_run =
    starting true (some "S1") "S1" "receiving-door-01"
    ∷ next (ok [])
    ∷ next (ok [])
    ∷ next (ok [])
    ∷ next (err (Failure.foreign "reset"))
    ∷ stopping
    ∷ next (ok [])
    ∷ next (ok [])
    ∷ joined
    ∷ []

capture-IsCoherent_example : IsCoherent (capture_steps "receiving-door-01" capture_run new_capture)
capture-IsCoherent_example = capture-IsCoherent "receiving-door-01" capture_run

capture_stopped : capture_steps "receiving-door-01" capture_run new_capture ≡ record {
  thread = no_thread;
  stop_event = true;
  session_key = none;
  error = some (Failure.foreign "reset");
}
unfolding capture_steps capture_step capture_start thread_step looped stop_begin stop_end strip
capture_stopped = refl

-- A reader that fails without a text, asked to stop.
abbrev mute : Environment
mute = record all_well {
  respond = λ trace db call. (err (Failure.foreign ""), db);
  text = λ f. "";
  has_before_reader_stop = false;
}

abbrev stop_command : OdooRfidCommand
stop_command = record command { session_key = "S1"; command = stop; revision = 3 }

abbrev at_failure : World
at_failure = record busy {
  trace =
      record {
        call = reader_stop "S1" "receiving-door-01";
        answer = err (Failure.foreign "");
        db = sample;
      }
      ∷ [];
}

mute_raises : stop_reader mute stop_command busy ≡ (err (Failure.foreign ""), at_failure)
unfolding stop_reader perform hook and_then
mute_raises = refl

blank_text : strip "" ≡ ""
unfolding strip
blank_text = refl

execute_stop-escapes_example :
    execute_stop mute stop_command busy.runtime busy
    ≡ (err (runtime_state no_error_message), at_failure)
execute_stop-escapes_example =
    execute_stop-escapes mute stop_command busy.runtime busy at_failure (Failure.foreign "")
      mute_raises blank_text
