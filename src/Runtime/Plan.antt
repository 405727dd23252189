-- ===== src/Runtime/Plan.antt =====
-- The methods of `LocalReaderRuntime` in bridge_core/final_runtime_state.py.
use rfid.Prelude.{
  Bool, true, false, not, ◌&&◌, none, some, String, ltb, ◌==◌, nat_eq, string_eq, if◌then◌else◌,
}
use rfid.Prelude.Text.{strip}
use rfid.Result.{Result, ok, err, raise_if, ◌>>◌}
use rfid.Runtime.State.{
  idle, starting, reading, stopping, degraded, runtime_state_eq, RuntimeCommand, start, stop, abort,
  command_eq, RuntimeStateError, reader_mismatch, revision_older, revision_not_completed,
  start_invalid, stop_invalid, start_with_session, stop_key_mismatch, abort_key_mismatch,
  not_starting, reading_without_key, not_stopping, completed_reader_mismatch,
  completed_revision_mismatch, no_error_message, OdooRfidCommand, LocalReaderRuntime, runtime,
  is_given, or_else, is_key, is_command,
}

pub data Disposition : Type 0 where
  duplicate new : Disposition

-- `revision_session_key is not None and command.session_key == revision_session_key`
abbrev pub same_revision_session : LocalReaderRuntime → OdooRfidCommand → Bool
same_revision_session r c = is_key c.session_key (or_else r.session_key r.completed_session_key)

abbrev pub is_completed : LocalReaderRuntime → OdooRfidCommand → Bool
is_completed r c =
    c.revision == r.completed_command_revision
    && is_command c.command r.completed_command
    && is_key c.session_key r.completed_session_key

unfoldable pub validate_command :
    LocalReaderRuntime → OdooRfidCommand → Result RuntimeStateError Disposition
validate_command r c = do
  raise_if (not (c.reader_code == r.reader_code)) reader_mismatch
  raise_if (same_revision_session r c && ltb c.revision r.last_command_revision) revision_older
  let seen =
      same_revision_session r c
      && c.revision == r.last_command_revision
      && not (r.last_command_revision == 0)
  let old = if is_completed r c then ok duplicate else err revision_not_completed
  if seen then old else ok new

pub record RuntimeTransition : Type 0 where
  pub before : LocalReaderRuntime
  pub after : LocalReaderRuntime
  pub command : OdooRfidCommand
  pub duplicate : Bool

abbrev pub transition :
    LocalReaderRuntime → OdooRfidCommand → LocalReaderRuntime → RuntimeTransition
transition r c r' = record { before = r; after = r'; command = c; duplicate = false }

unfoldable pub plan_start :
    LocalReaderRuntime → OdooRfidCommand → Result RuntimeStateError RuntimeTransition
plan_start r c = do
  raise_if (not (r.state == idle)) (start_invalid r.state)
  raise_if (is_given r.session_key) start_with_session
  ok (transition r c (runtime r.reader_code starting (some c.session_key) c.revision none))

unfoldable pub plan_stop :
    LocalReaderRuntime → OdooRfidCommand → Result RuntimeStateError RuntimeTransition
plan_stop r c = do
  raise_if (not (r.state == reading)) (stop_invalid r.state)
  raise_if (not (is_key c.session_key r.session_key)) stop_key_mismatch
  ok (transition r c (runtime r.reader_code stopping r.session_key c.revision none))

unfoldable pub plan_abort :
    LocalReaderRuntime → OdooRfidCommand → Result RuntimeStateError RuntimeTransition
plan_abort r c = do
  raise_if (is_given r.session_key && not (is_key c.session_key r.session_key)) abort_key_mismatch
  ok (transition r c (runtime r.reader_code stopping (some c.session_key) c.revision none))

abbrev pub plan_new :
    RuntimeCommand
    → LocalReaderRuntime
    → OdooRfidCommand
    → Result RuntimeStateError RuntimeTransition
plan_new start = plan_start
plan_new stop = plan_stop
plan_new abort = plan_abort

-- `plan_command`; the last `raise` is for a command that the enumeration does not have.
unfoldable pub plan_command :
    LocalReaderRuntime → OdooRfidCommand → Result RuntimeStateError RuntimeTransition
plan_command r c = elim (validate_command r c) [
  | err e ↦ err e
  | ok duplicate ↦ ok (record { before = r; after = r; command = c; duplicate = true })
  | ok new ↦ plan_new c.command r c
]

unfoldable pub mark_reader_started :
    LocalReaderRuntime → Result RuntimeStateError LocalReaderRuntime
mark_reader_started r = do
  raise_if (not (r.state == starting)) not_starting
  raise_if (not (is_given r.session_key)) reading_without_key
  ok (runtime r.reader_code reading r.session_key r.last_command_revision none)

unfoldable pub mark_reader_stopped :
    LocalReaderRuntime → Result RuntimeStateError LocalReaderRuntime
mark_reader_stopped r = do
  raise_if (not (r.state == stopping)) not_stopping
  ok (runtime r.reader_code idle none r.last_command_revision none)

unfoldable pub mark_command_completed :
    LocalReaderRuntime → OdooRfidCommand → Result RuntimeStateError LocalReaderRuntime
mark_command_completed r c = do
  raise_if (not (c.reader_code == r.reader_code)) completed_reader_mismatch
  raise_if (not (c.revision == r.last_command_revision)) completed_revision_mismatch
  ok (record (runtime r.reader_code r.state r.session_key r.last_command_revision r.error) {
    completed_command_revision = c.revision;
    completed_command = some c.command;
    completed_session_key = some c.session_key;
  })

unfoldable pub mark_degraded :
    LocalReaderRuntime → String → Result RuntimeStateError LocalReaderRuntime
mark_degraded r error = do
  let message = strip error
  raise_if (message == "") no_error_message
  ok (runtime r.reader_code degraded r.session_key r.last_command_revision (some message))
