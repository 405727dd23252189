-- ===== src/Tests/Runtime.antt =====
-- Commands for one reader.
use rfid.Prelude.{◌≡◌, ◌≢◌, ◌⊎◌, refl, arith, true, false, none, some}
use rfid.Result.{ok, ◌>>=◌}
use rfid.Runtime.{
  start, command_eq, idle, starting, OdooRfidCommand, CommandPayload, command_of, operation_of,
  from_payload, LocalReaderRuntime, runtime, duplicate, validate_command, RuntimeTransition,
  transition, plan_start, plan_command, is_completed, mark_command_completed, Planned,
  plan_command-Planned, executed, conclude, conclude-executed, validate-executed,
}
use rfid.Prelude.Text.{strip}
use text.Mathlib.TextEquality.{eq_iff}

abbrev at_rest : LocalReaderRuntime
at_rest = runtime "receiving-door-01" idle none 0 none

abbrev payload : CommandPayload
payload = record {
  session_key = some " S1 ";
  reader_code = some "receiving-door-01";
  command = some "start";
  picking = none;
  operation = none;
  revision = some 4;
}

abbrev start_command : OdooRfidCommand
start_command = record {
  session_key = "S1";
  reader_code = "receiving-door-01";
  command = start;
  revision = 4;
  picking = "";
  operation = none;
}

stripped : from_payload (some payload) ≡ ok start_command
unfolding from_payload operation_of command_of strip
stripped = refl

abbrev planned : RuntimeTransition
planned = transition at_rest start_command (runtime "receiving-door-01" starting (some "S1") 4 none)

plans : plan_command at_rest start_command ≡ ok planned
unfolding plan_command validate_command plan_start
plans = refl

plan_command-Planned_example :
    ((planned.duplicate ≡ true)
      × (planned.after ≡ at_rest)
      × (is_completed at_rest start_command ≡ true))
    ⊎ ((planned.duplicate ≡ false) × Planned at_rest start_command planned.after)
plan_command-Planned_example = plan_command-Planned at_rest start_command plans

start-Planned : Planned at_rest start_command planned.after
start-Planned = record {
  moves = (refl, refl);
  for_reader = refl;
  same_reader = refl;
  key = refl;
  revision = refl;
  no_error = refl;
  newer = λ h. cc;
}

key_given : start_command.session_key ≢ ""
key_given e = let h = (eq_iff "S1" "").1 e in cc

conclude-executed_example :
    (conclude start planned.after >>= λ r. mark_command_completed r start_command)
    ≡ ok (executed at_rest start_command)
conclude-executed_example =
    conclude-executed at_rest planned.after start_command start-Planned key_given

validate-executed_example :
    validate_command (executed at_rest start_command) start_command ≡ ok duplicate
validate-executed_example =
    validate-executed at_rest start_command start_command (omega arith) key_given refl refl
      (omega arith)
