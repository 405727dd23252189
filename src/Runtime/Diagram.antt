-- ===== src/Runtime/Diagram.antt =====
-- The state diagram of the runtime, and what its states say of the session.
use rfid.Prelude.{
  ◌≤◌, ◌<◌, ◌≡◌, ◌≢◌, refl, ◌⊎◌, inl, inr, true, false, Option, none, some, String, arith, ltb,
  ◌==◌, nat_eq, string_eq, if◌then◌else◌,
}
use text.Mathlib.TextEquality.{eq_iff}
use rfid.Result.{Result-cases, Result, ok, err, ◌>>=◌}
use rfid.Runtime.State.{
  RuntimeState, idle, starting, reading, stopping, runtime_state_eq, RuntimeCommand, start, stop,
  abort, command_eq, RuntimeStateError, revision_older, revision_not_completed, OdooRfidCommand,
  LocalReaderRuntime, runtime, is_key,
}
use rfid.Runtime.Plan.{
  duplicate, new, same_revision_session, is_completed, validate_command, RuntimeTransition,
  transition, plan_start, plan_stop, plan_abort, plan_command, plan_new, mark_reader_started,
  mark_reader_stopped, mark_command_completed,
}

-- The states that a command leads from and to. An abort is taken in every state.
abbrev pub Moves : RuntimeCommand → RuntimeState → RuntimeState → Type 0
Moves start s s' = (s ≡ idle) × (s' ≡ starting)
Moves stop s s' = (s ≡ reading) × (s' ≡ stopping)
Moves abort s s' = s' ≡ stopping

-- What a command that is planned as new makes of the runtime.
pub record Planned (r : LocalReaderRuntime) (c : OdooRfidCommand) (r' : LocalReaderRuntime)
    : Type 0 where
  pub moves : Moves c.command r.state r'.state
  pub for_reader : c.reader_code ≡ r.reader_code
  pub same_reader : r'.reader_code ≡ r.reader_code
  pub key : r'.session_key ≡ some c.session_key
  pub revision : r'.last_command_revision ≡ c.revision
  pub no_error : r'.error ≡ none
  pub newer :
      same_revision_session r c ≡ true
      → (r.last_command_revision ≡ 0) ⊎ (r.last_command_revision < c.revision)

-- What `validate_command` has found out.
validated :
    (r : LocalReaderRuntime) (c : OdooRfidCommand)
    → validate_command r c ≡ ok new
    → (c.reader_code ≡ r.reader_code)
      × (same_revision_session r c ≡ true
          → (r.last_command_revision ≡ 0) ⊎ (r.last_command_revision < c.revision))
unfolding validate_command
validated r c h = (ground (arith, eq_iff c.reader_code r.reader_code), λ s. ground arith)

is_key-eq : (s : String) (k : Option String) → is_key s k ≡ true → k ≡ some s
is_key-eq s none h = cc
is_key-eq s (some t) h = ground (arith, eq_iff s t)

plan_start-Planned :
    (r : LocalReaderRuntime) (c : OdooRfidCommand) {t : RuntimeTransition}
    → plan_start r c ≡ ok t
    → (r.state ≡ idle)
      × (t ≡ transition r c (runtime r.reader_code starting (some c.session_key) c.revision none))
unfolding plan_start
plan_start-Planned r c h = ground arith

plan_stop-Planned :
    (r : LocalReaderRuntime) (c : OdooRfidCommand) {t : RuntimeTransition}
    → plan_stop r c ≡ ok t
    → (r.state ≡ reading)
      × (r.session_key ≡ some c.session_key)
      × (t ≡ transition r c (runtime r.reader_code stopping r.session_key c.revision none))
unfolding plan_stop
plan_stop-Planned r c h = ground (arith, is_key-eq c.session_key r.session_key)

plan_abort-Planned :
    (r : LocalReaderRuntime) (c : OdooRfidCommand) {t : RuntimeTransition}
    → plan_abort r c ≡ ok t
    → t ≡ transition r c (runtime r.reader_code stopping (some c.session_key) c.revision none)
unfolding plan_abort
plan_abort-Planned r c h = ground arith

plan_new-Planned :
    (cmd : RuntimeCommand) (r : LocalReaderRuntime) (c : OdooRfidCommand) {t : RuntimeTransition}
    → c.command ≡ cmd
    → validate_command r c ≡ ok new
    → plan_new cmd r c ≡ ok t
    → (t.duplicate ≡ false) × Planned r c t.after
plan_new-Planned start r c {t} e v h =
    let (from, result) = plan_start-Planned r c h in
    let (code, newer) = validated r c v in
    rw result (
      refl,
      record {
        moves = rw e (from, refl);
        for_reader = code;
        same_reader = refl;
        key = refl;
        revision = refl;
        no_error = refl;
        newer = newer;
      },
    )
plan_new-Planned stop r c {t} e v h =
    let (from, key, result) = plan_stop-Planned r c h in
    let (code, newer) = validated r c v in
    rw result (
      refl,
      record {
        moves = rw e (from, refl);
        for_reader = code;
        same_reader = refl;
        key = key;
        revision = refl;
        no_error = refl;
        newer = newer;
      },
    )
plan_new-Planned abort r c {t} e v h =
    let result = plan_abort-Planned r c h in
    let (code, newer) = validated r c v in
    rw result (
      refl,
      record {
        moves = rw e refl;
        for_reader = code;
        same_reader = refl;
        key = refl;
        revision = refl;
        no_error = refl;
        newer = newer;
      },
    )

duplicate-completed :
    (r : LocalReaderRuntime) (c : OdooRfidCommand)
    → validate_command r c ≡ ok duplicate
    → is_completed r c ≡ true
unfolding validate_command
duplicate-completed r c h = ground arith

-- A command that is accepted is the completed one again, and changes nothing, or it is new: it moves
-- the state along the diagram, takes the session and the revision over, and is not older than the
-- last command of its session.
pub plan_command-Planned :
    (r : LocalReaderRuntime) (c : OdooRfidCommand) {t : RuntimeTransition}
    → plan_command r c ≡ ok t
    → ((t.duplicate ≡ true) × (t.after ≡ r) × (is_completed r c ≡ true))
      ⊎ ((t.duplicate ≡ false) × Planned r c t.after)
unfolding plan_command
plan_command-Planned r c {t} h = elim (Result-cases (validate_command r c)) [
  | inr (x, e) ↦ absurd (ground arith)
  | inl (duplicate, e) ↦ inl (ground (arith, duplicate-completed r c e))
  | inl (new, e) ↦ inr (plan_new-Planned c.command r c {t = t} refl e (ground arith))
]

-- The runtime after a command that has been executed.
abbrev pub state_after : RuntimeCommand → RuntimeState
state_after start = reading
state_after _ = idle

abbrev pub key_after : OdooRfidCommand → RuntimeCommand → Option String
key_after c start = some c.session_key
key_after c _ = none

abbrev pub executed : LocalReaderRuntime → OdooRfidCommand → LocalReaderRuntime
executed r c = record {
  reader_code = r.reader_code;
  state = state_after c.command;
  session_key = key_after c c.command;
  last_command_revision = c.revision;
  error = none;
  completed_command_revision = c.revision;
  completed_command = some c.command;
  completed_session_key = some c.session_key;
}

-- The transition that follows the work on the reader.
abbrev pub conclude :
    RuntimeCommand → LocalReaderRuntime → Result RuntimeStateError LocalReaderRuntime
conclude start = mark_reader_started
conclude _ = mark_reader_stopped

conclude_cases :
    (cmd : RuntimeCommand) (r r' : LocalReaderRuntime) (c : OdooRfidCommand)
    → c.command ≡ cmd
    → Planned r c r'
    → c.session_key ≢ ""
    → (conclude cmd r' >>= λ r''. mark_command_completed r'' c) ≡ ok (executed r c)
unfolding mark_reader_started mark_reader_stopped mark_command_completed
conclude_cases start r r' c e p key =
    ground (arith, eq_iff c.session_key "", eq_iff c.reader_code r'.reader_code)
conclude_cases _ r r' c e p key = ground (arith, eq_iff c.reader_code r'.reader_code)

-- The transitions that follow a newly planned command, of a session with a key, cannot fail: they
-- lead to the runtime that `executed` names.
pub conclude-executed :
    (r r' : LocalReaderRuntime) (c : OdooRfidCommand)
    → Planned r c r'
    → c.session_key ≢ ""
    → (conclude c.command r' >>= λ r''. mark_command_completed r'' c) ≡ ok (executed r c)
conclude-executed r r' c p key = conclude_cases c.command r r' c refl p key

-- Once a command with a positive revision has been executed for a session with a key, a command for
-- that reader and session with an earlier revision is refused as older, one with the same revision is
-- a duplicate if it is the same command, and is refused as not completed otherwise.
pub validate-executed :
    (r : LocalReaderRuntime) (c c' : OdooRfidCommand)
    → 1 ≤ c.revision
    → c.session_key ≢ ""
    → c'.reader_code ≡ r.reader_code
    → c'.session_key ≡ c.session_key
    → c'.revision ≤ c.revision
    → validate_command (executed r c) c' ≡ (
        if ltb c'.revision c.revision
        then err revision_older
        else if c'.command == c.command
        then ok duplicate
        else err revision_not_completed)
unfolding validate_command
validate-executed r c c' pos key code same old = ground (
  arith,
  eq_iff c'.reader_code r.reader_code,
  eq_iff c'.session_key c.session_key,
  eq_iff c.session_key "",
)
