-- ===== src/Orchestrator/Escapes.antt =====
-- An exception whose text is blank.
use rfid.Prelude.{◌≡◌, refl, true, String, string_eq}
use rfid.Prelude.Text.{strip}
use rfid.Result.{err}
use rfid.Runtime.{OdooRfidCommand, LocalReaderRuntime, mark_degraded, no_error_message}
use rfid.Orchestrator.Actions.{
  Failure, runtime_state, World, Environment, and_then, handled, set_runtime,
}
use rfid.Orchestrator.Execute.{stop_reader, failed, execute_stop}

module _ (env : Environment) (c : OdooRfidCommand) where
  blank-failed :
      (w : World) (message : String)
      → strip message ≡ ""
      → failed env c true message w ≡ (err (runtime_state no_error_message), w)
  unfolding failed set_runtime mark_degraded and_then
  blank-failed w message blank = rw (blank) refl

  -- If stopping the reader raises an exception whose text is blank, then the handler of the STOP raises
  -- itself: the command ends in an exception, Odoo is told nothing, and the runtime is left as the
  -- exception found it, not degraded.
  pub execute_stop-escapes :
      (planned : LocalReaderRuntime) (w w' : World) (f : Failure)
      → stop_reader env c (record w { runtime = planned }) ≡ (err f, w')
      → strip (env.text f) ≡ ""
      → execute_stop env c planned w ≡ (err (runtime_state no_error_message), w')
  unfolding execute_stop and_then handled
  execute_stop-escapes planned w w' f raised blank =
      rw (raised) (blank-failed w' (env.text f) blank)
