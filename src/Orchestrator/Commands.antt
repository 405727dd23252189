-- ===== src/Orchestrator/Commands.antt =====
-- `process_command`, `poll_commands`, `heartbeat` and `mark_reader_verified_idle`.
use rfid.Prelude.{
  Bool, false, Option, none, some, String, List, [], ◌∷◌, ◌==◌, string_eq, if◌then◌else◌,
}
use rfid.Result.{Result, ok, err}
use rfid.Runtime.{
  idle, offline, start, stop, abort, RuntimeCommand, RuntimeStateError, RuntimeTransition,
  OdooRfidCommand, CommandPayload, from_payload, LocalReaderRuntime, runtime, plan_command,
}
use rfid.Orchestrator.Actions.{
  runtime_state, session_exists, heartbeat, Environment, Action, pure, ◌>>=◌, ◌>>◌, ignoring,
  perform,
}
use rfid.Orchestrator.Execute.{
  CommandExecutionResult, result, ack_of, acknowledge, execute_start, execute_stop, execute_abort,
}

unfoldable pub reject_command :
    Environment → OdooRfidCommand → String → Action CommandExecutionResult
reject_command env c message = do
  ignoring (perform env (ack_of c false message))
  result c false message

unfoldable pub resend_completed_ack : Environment → OdooRfidCommand → Action CommandExecutionResult
resend_completed_ack env c =
    acknowledge env c "Completed command ACK is still pending: "
      "Duplicate completed command ACK resent successfully."

abbrev pub execute :
    RuntimeCommand
    → Environment
    → OdooRfidCommand
    → LocalReaderRuntime
    → Action CommandExecutionResult
execute start = execute_start
execute stop = execute_stop
execute abort = execute_abort

abbrev pub follow :
    Environment → OdooRfidCommand → RuntimeTransition → Action CommandExecutionResult
follow env c t = if t.duplicate then resend_completed_ack env c else execute c.command env c t.after

abbrev pub planned_or_rejected :
    Environment
    → OdooRfidCommand
    → Result RuntimeStateError RuntimeTransition
    → Action CommandExecutionResult
planned_or_rejected env c (err e) = reject_command env c (env.text (runtime_state e))
planned_or_rejected env c (ok t) = follow env c t

unfoldable pub process_command : Environment → OdooRfidCommand → Action CommandExecutionResult
process_command env c w = planned_or_rejected env c (plan_command w.runtime c) w

-- `OdooRFIDCommand.from_payload`, which raises out of the loop.
abbrev pub parsed : Option CommandPayload → Action OdooRfidCommand
parsed payload w = elim (from_payload payload) [
  | err e ↦ (err (runtime_state e), w)
  | ok c ↦ (ok c, w)
]

-- A command for another reader is passed over.
abbrev pub process_if_mine :
    Environment
    → OdooRfidCommand
    → Action (List CommandExecutionResult)
    → Action (List CommandExecutionResult)
process_if_mine env c rest w =
    (if c.reader_code == w.runtime.reader_code
        then (do done ← process_command env c; more ← rest; pure (done ∷ more))
        else rest)
      w

-- The loop over the payloads that `api_client.commands()` has returned.
unfoldable pub poll_commands :
    Environment → List (Option CommandPayload) → Action (List CommandExecutionResult)
poll_commands env [] = pure []
poll_commands env (payload ∷ payloads) = do
  c ← parsed payload
  process_if_mine env c (poll_commands env payloads)

unfoldable pub send_heartbeat : Environment → Action Bool
send_heartbeat env w = perform env (heartbeat w.runtime) w

-- `__init__`
abbrev pub initial_runtime : String → LocalReaderRuntime
initial_runtime reader_code =
    runtime reader_code offline none 0 (some "Reader state not yet verified after process startup.")

unfoldable pub mark_reader_verified_idle : Action LocalReaderRuntime
mark_reader_verified_idle w = elim w.runtime.session_key [
  | some key ↦ (err session_exists, w)
  | none ↦ (
    ok (runtime w.runtime.reader_code idle none w.runtime.last_command_revision none),
    record w {
      runtime = runtime w.runtime.reader_code idle none w.runtime.last_command_revision none;
    },
  )
]
