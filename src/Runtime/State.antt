-- ===== src/Runtime/State.antt =====
-- The data of bridge_core/final_runtime_state.py, and `OdooRFIDCommand.from_payload`.
use rfid.Prelude.{
  ℕ, ◌≡◌, ◌↔◌, Bool, true, false, not, Option, none, some, String, arith, nat_beq, Eq, ◌==◌, nat_eq,
  string_eq, if◌then◌else◌,
}
use rfid.Prelude.Text.{strip}
use rfid.Result.{Result, ok, err, raise_if, ◌>>=◌, ◌>>◌}
use rfid.Models.{Operation, receipt, dispatch}

pub data RuntimeState : Type 0 where
  idle starting reading stopping degraded offline : RuntimeState

pub data RuntimeCommand : Type 0 where
  start stop abort : RuntimeCommand

abbrev runtime_state_index : RuntimeState → ℕ
runtime_state_index idle = 0
runtime_state_index starting = 1
runtime_state_index reading = 2
runtime_state_index stopping = 3
runtime_state_index degraded = 4
runtime_state_index offline = 5

abbrev command_index : RuntimeCommand → ℕ
command_index start = 0
command_index stop = 1
command_index abort = 2

pub runtime_state_iff :
    (a b : RuntimeState)
    → (nat_beq (runtime_state_index a) (runtime_state_index b) ≡ true) ↔ (a ≡ b)
runtime_state_iff a b = (λ h. ground arith, λ h. ground arith)

pub command_iff :
    (a b : RuntimeCommand) → (nat_beq (command_index a) (command_index b) ≡ true) ↔ (a ≡ b)
command_iff a b = (λ h. ground arith, λ h. ground arith)

instance abbrev pub runtime_state_eq : Eq RuntimeState
runtime_state_eq = record {
  same = λ a b. nat_beq (runtime_state_index a) (runtime_state_index b);
  same_iff = runtime_state_iff;
}

instance abbrev pub command_eq : Eq RuntimeCommand
command_eq = record {
  same = λ a b. nat_beq (command_index a) (command_index b);
  same_iff = command_iff;
}

-- `RuntimeStateError`, with one constructor for each `raise`.
pub data RuntimeStateError : Type 0 where
  not_a_dictionary bad_operation missing_session_key missing_reader_code : RuntimeStateError
  unsupported_command : String → RuntimeStateError
  revision_not_integer revision_not_positive : RuntimeStateError
  reader_mismatch revision_older revision_not_completed : RuntimeStateError
  start_invalid stop_invalid : RuntimeState → RuntimeStateError
  start_with_session stop_key_mismatch abort_key_mismatch : RuntimeStateError
  not_starting reading_without_key not_stopping : RuntimeStateError
  completed_reader_mismatch completed_revision_mismatch no_error_message : RuntimeStateError

pub record OdooRfidCommand : Type 0 where
  pub session_key : String
  pub reader_code : String
  pub command : RuntimeCommand
  pub revision : ℕ
  pub picking : String
  pub operation : Option Operation

-- The payload of a command, a JSON object: its text fields, `none` where a field is missing or null,
-- and what `int` makes of its revision, `none` where `int` raises. A negative revision is 0 here, as
-- both are refused.
pub record CommandPayload : Type 0 where
  pub session_key : Option String
  pub reader_code : Option String
  pub command : Option String
  pub picking : Option String
  pub operation : Option String
  pub revision : Option ℕ

-- `str(value or "").strip()`
abbrev pub text_of : Option String → String
text_of none = ""
text_of (some s) = strip s

-- `RuntimeCommand(raw_command)`
unfoldable pub command_of : String → Result RuntimeStateError RuntimeCommand
command_of s =
    if s == "start"
    then ok start
    else if s == "stop"
    then ok stop
    else if s == "abort"
    then ok abort
    else err (unsupported_command s)

unfoldable pub operation_of : String → Result RuntimeStateError (Option Operation)
operation_of s =
    if s == ""
    then ok none
    else if s == "receipt"
    then ok (some receipt)
    else if s == "dispatch"
    then ok (some dispatch)
    else err bad_operation

abbrev pub required : {A : Type 0} → RuntimeStateError → Option A → Result RuntimeStateError A
required e none = err e
required e (some a) = ok a

-- `OdooRFIDCommand.from_payload`; `none` is a payload that is no dictionary.
unfoldable pub from_payload : Option CommandPayload → Result RuntimeStateError OdooRfidCommand
from_payload payload = do
  p ← required not_a_dictionary payload
  let session_key = text_of p.session_key
  let reader_code = text_of p.reader_code
  operation ← operation_of (text_of p.operation)
  raise_if (session_key == "") missing_session_key
  raise_if (reader_code == "") missing_reader_code
  command ← command_of (text_of p.command)
  revision ← required revision_not_integer p.revision
  raise_if (revision == 0) revision_not_positive
  ok (record {
    session_key = session_key;
    reader_code = reader_code;
    command = command;
    revision = revision;
    picking = text_of p.picking;
    operation = operation;
  })

pub record LocalReaderRuntime : Type 0 where
  pub reader_code : String
  pub state : RuntimeState
  pub session_key : Option String
  pub last_command_revision : ℕ
  pub error : Option String
  pub completed_command_revision : ℕ
  pub completed_command : Option RuntimeCommand
  pub completed_session_key : Option String

-- The defaults of the fields that a constructor call leaves out.
abbrev pub runtime : String → RuntimeState → Option String → ℕ → Option String → LocalReaderRuntime
runtime code state key revision error = record {
  reader_code = code;
  state = state;
  session_key = key;
  last_command_revision = revision;
  error = error;
  completed_command_revision = 0;
  completed_command = none;
  completed_session_key = none;
}

-- Python's truth of an optional text, `a or b`, and `a == b` with a text.
abbrev pub is_given : Option String → Bool
is_given none = false
is_given (some s) = not (s == "")

abbrev pub or_else : Option String → Option String → Option String
or_else a b = if is_given a then a else b

abbrev pub is_key : String → Option String → Bool
is_key s none = false
is_key s (some t) = s == t

abbrev pub is_command : RuntimeCommand → Option RuntimeCommand → Bool
is_command c none = false
is_command c (some d) = c == d
