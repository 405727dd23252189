-- ===== src/Orchestrator/Execute.antt =====
-- `_execute_start`, `_execute_stop` and `_execute_abort`.
use rfid.Prelude.{Bool, true, false, ◌&&◌, Option, none, some, String, ◌==◌, if◌then◌else◌}
use rfid.Prelude.Text.{join}
use rfid.Result.{ok}
use rfid.Models.{
  unsupported_role, unsupported_operation, operation_mismatch, not_a_start, reader_not_found,
  session_of_other_reader, session_of_other_operation, session_not_active, reader_busy,
  key_and_code_required, session_missing, identity_mismatch, cannot_close, cannot_cancel,
}
use rfid.Runtime.{
  RuntimeCommand, start, stop, abort, command_eq, OdooRfidCommand, LocalReaderRuntime,
  mark_reader_started, mark_reader_stopped, mark_command_completed, mark_degraded,
}
use rfid.Session.{synchronize_start_command, close_local_session, cancel_local_session}
use rfid.Orchestrator.Actions.{
  Failure, service, ack_not_accepted, Call, ack, reader_start, reader_stop, verify_idle,
  after_reader_start, before_reader_stop, before_session_close, before_success_ack, Environment,
  Action, pure, throw, ◌>>=◌, ◌>>◌, try_except, caught, ignoring, perform, hook, session_call,
  set_runtime,
}

pub record CommandExecutionResult : Type 0 where
  pub runtime : LocalReaderRuntime
  pub command : OdooRfidCommand
  pub success : Bool
  pub message : String

-- `CommandExecutionResult(runtime=self.runtime, …)`
abbrev pub result : OdooRfidCommand → Bool → String → Action CommandExecutionResult
result c success message w =
    (ok (record { runtime = w.runtime; command = c; success = success; message = message }), w)

abbrev pub assign_runtime : LocalReaderRuntime → Action (Unit {0})
assign_runtime r w = (ok tt, record w { runtime = r })

abbrev pub ack_of : OdooRfidCommand → Bool → String → Call
ack_of c success message = ack (record {
  session_key = c.session_key;
  reader_code = c.reader_code;
  command = c.command;
  revision = c.revision;
  success = success;
  message = message;
})

abbrev pub success_ack_message : RuntimeCommand → String
success_ack_message start = "Reader started successfully."
success_ack_message stop = "Reader stopped successfully."
success_ack_message abort = "Reader abort completed."

-- `if not ack_result.get("ok"): raise`
abbrev pub require_accepted : Bool → Action (Unit {0})
require_accepted true = pure tt
require_accepted false = throw ack_not_accepted

unfoldable pub send_completed_success_ack : Environment → OdooRfidCommand → Action (Unit {0})
send_completed_success_ack env c = do
  hook env (c.command == stop && env.has_before_success_ack)
      (before_success_ack c.session_key c.reader_code)
  accepted ← perform env (ack_of c true (success_ack_message c.command))
  require_accepted accepted

-- The end of each command: `try: self._send_completed_success_ack(…)` with its two results.
unfoldable pub acknowledge :
    Environment → OdooRfidCommand → String → String → Action CommandExecutionResult
acknowledge env c pending done =
    try_except (send_completed_success_ack env c) (λ f. result c false (join pending (env.text f)))
      (λ _. result c true done)

unfoldable pub completed :
    Environment → OdooRfidCommand → String → String → Action CommandExecutionResult
completed env c pending done = do
  set_runtime (λ r. mark_command_completed r c)
  acknowledge env c pending done

-- The `try` body of a start behind the session.
unfoldable pub begin_reading : Environment → OdooRfidCommand → Action (Unit {0})
begin_reading env c = do
  perform env (reader_start c.session_key c.reader_code)
  set_runtime mark_reader_started
  hook env env.has_after_reader_start (after_reader_start c.session_key c.reader_code)

unfoldable pub emergency_stop : Environment → OdooRfidCommand → Action (Unit {0})
emergency_stop env c = do
  hook env env.has_before_reader_stop (before_reader_stop c.session_key c.reader_code)
  perform env (reader_stop c.session_key c.reader_code)
  hook env env.has_before_session_close (before_session_close c.session_key c.reader_code)

abbrev pub stop_if_active : Environment → OdooRfidCommand → Action (Option Failure)
stop_if_active env c w =
    (if env.is_active w.trace then caught (emergency_stop env c) else pure none) w

abbrev pub cleanup_if : Bool → OdooRfidCommand → Action (Option Failure)
cleanup_if true c = caught (session_call (cancel_local_session c.session_key c.reader_code))
cleanup_if false c = pure none

abbrev pub with_error : Environment → String → Option Failure → String → String
with_error env note none message = message
with_error env note (some f) message = join message (join note (env.text f))

unfoldable pub start_error_message :
    Environment → Failure → Option Failure → Option Failure → String
start_error_message env f stop_error cleanup_error =
    with_error env "; newly-created local session cleanup also failed: " cleanup_error
      (with_error env "; emergency reader STOP also failed: " stop_error (env.text f))

-- `self.runtime.mark_degraded(message)` and the result. A start and a stop tell Odoo, an abort does not.
unfoldable pub failed :
    Environment → OdooRfidCommand → Bool → String → Action CommandExecutionResult
failed env c tell message = do
  set_runtime (λ r. mark_degraded r message)
  if tell then ignoring (perform env (ack_of c false message)) else pure tt
  result c false message

-- The handler of a start; `created` tells whether it has created its session.
unfoldable pub start_failed :
    Environment → OdooRfidCommand → Bool → Failure → Action CommandExecutionResult
start_failed env c created f = do
  stop_error ← stop_if_active env c
  cleanup_error ← cleanup_if created c
  failed env c true (start_error_message env f stop_error cleanup_error)

unfoldable pub execute_start :
    Environment → OdooRfidCommand → LocalReaderRuntime → Action CommandExecutionResult
execute_start env c planned = do
  assign_runtime planned
  try_except (session_call (synchronize_start_command c)) (start_failed env c false) (λ sync.
      try_except (begin_reading env c) (start_failed env c sync.created) (λ _.
        completed env c "Reader started successfully but Odoo ACK is pending: "
          "Reader started and Odoo ACK accepted."))

unfoldable pub stop_reader : Environment → OdooRfidCommand → Action (Unit {0})
stop_reader env c = do
  hook env env.has_before_reader_stop (before_reader_stop c.session_key c.reader_code)
  perform env (reader_stop c.session_key c.reader_code)
  set_runtime mark_reader_stopped
  hook env env.has_before_session_close (before_session_close c.session_key c.reader_code)
  session_call (close_local_session c.session_key c.reader_code)
  pure tt

unfoldable pub execute_stop :
    Environment → OdooRfidCommand → LocalReaderRuntime → Action CommandExecutionResult
execute_stop env c planned = do
  assign_runtime planned
  try_except (stop_reader env c) (λ f. failed env c true (env.text f))
      (λ _.
        completed env c "Reader stopped successfully but Odoo ACK is pending: "
          "Reader stopped and Odoo ACK accepted.")

-- `FinalSessionError`, among what the session service raises.
unfoldable pub is_final_session_error : Failure → Bool
is_final_session_error (service (unsupported_role _)) = true
is_final_session_error (service (unsupported_operation _)) = true
is_final_session_error (service operation_mismatch) = true
is_final_session_error (service not_a_start) = true
is_final_session_error (service (reader_not_found _)) = true
is_final_session_error (service session_of_other_reader) = true
is_final_session_error (service session_of_other_operation) = true
is_final_session_error (service session_not_active) = true
is_final_session_error (service reader_busy) = true
is_final_session_error (service key_and_code_required) = true
is_final_session_error (service session_missing) = true
is_final_session_error (service identity_mismatch) = true
is_final_session_error (service (cannot_close _)) = true
is_final_session_error (service (cannot_cancel _)) = true
is_final_session_error _ = false

-- `except FinalSessionError: pass`
abbrev pub pass_session_error : Failure → Action (Unit {0})
pass_session_error f = if is_final_session_error f then pure tt else throw f

unfoldable pub stop_or_verify : Environment → OdooRfidCommand → Action Bool
stop_or_verify env c w =
    perform env
      (if env.is_active w.trace then reader_stop c.session_key c.reader_code else verify_idle) w

unfoldable pub abort_reader : Environment → OdooRfidCommand → Action (Unit {0})
abort_reader env c = do
  hook env env.has_before_reader_stop (before_reader_stop c.session_key c.reader_code)
  stop_or_verify env c
  set_runtime mark_reader_stopped
  hook env env.has_before_session_close (before_session_close c.session_key c.reader_code)
  try_except (session_call (cancel_local_session c.session_key c.reader_code)) pass_session_error
      (λ _. pure tt)

unfoldable pub execute_abort :
    Environment → OdooRfidCommand → LocalReaderRuntime → Action CommandExecutionResult
execute_abort env c planned = do
  assign_runtime planned
  try_except (abort_reader env c) (λ f. failed env c false (env.text f))
      (λ _.
        completed env c "Reader abort completed but Odoo ACK is pending: "
          "Abort completed safely.")
