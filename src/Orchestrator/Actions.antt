-- ===== src/Orchestrator/Actions.antt =====
-- What the orchestrator works on: its runtime, the database, and the calls that it has made to the
-- reader, to Odoo and to its hooks. An action may raise; its effects stay.
use rfid.Prelude.{ℕ, Bool, true, false, Option, none, some, String, List, ◌∷◌}
use rfid.Result.{Result, ok, err}
use rfid.Models.{Database, Exception}
use rfid.Models.Orm.{Transaction}
use rfid.Runtime.{RuntimeCommand, RuntimeStateError, LocalReaderRuntime}

-- What may be raised: by the services of the database, by the runtime, by the worker and by what they
-- call.
pub data Failure : Type 0 where
  service : Exception → Failure
  runtime_state : RuntimeStateError → Failure
  ack_not_accepted session_exists : Failure
  capture_reader_mismatch capture_session_mismatch drain_reader_mismatch : Failure
  barrier_reader_mismatch reading_without_session : Failure
  foreign : String → Failure

-- The arguments of `api_client.ack`.
pub record Ack : Type 0 where
  pub session_key : String
  pub reader_code : String
  pub command : RuntimeCommand
  pub revision : ℕ
  pub success : Bool
  pub message : String

-- The calls of other objects: `api_client`, `reader_executor` and the four hooks. The session key comes
-- first, then the reader code.
pub data Call : Type 0 where
  heartbeat : LocalReaderRuntime → Call
  ack : Ack → Call
  reader_start reader_stop : String → String → Call
  verify_idle : Call
  after_reader_start before_reader_stop before_session_close before_success_ack :
      String → String → Call

-- A call with its answer, and the database when it was made.
pub record Entry : Type 0 where
  pub call : Call
  pub answer : Result Failure Bool
  pub db : Database

pub record World : Type 0 where
  pub runtime : LocalReaderRuntime
  pub db : Database
  -- newest first
  pub trace : List Entry

-- What surrounds the orchestrator. An answer is the `ok` of Odoo's reply to an acknowledgement, and
-- true elsewhere; a call may change the database. Everything may depend on the calls before.
pub record Environment : Type 0 where
  pub respond : List Entry → Database → Call → Result Failure Bool × Database
  pub is_active : List Entry → Bool
  -- `str(exc)`
  pub text : Failure → String
  -- whether the hooks are set
  pub has_after_reader_start : Bool
  pub has_before_reader_stop : Bool
  pub has_before_session_close : Bool
  pub has_before_success_ack : Bool

abbrev pub Action : Type 0 → Type 0
Action A = World → Result Failure A × World

abbrev pub pure : {A : Type 0} → A → Action A
pure a w = (ok a, w)

abbrev pub throw : {A : Type 0} → Failure → Action A
throw f w = (err f, w)

module _ {A B : Type 0} where
  unfoldable pub and_then : (A → Action B) → Result Failure A × World → Result Failure B × World
  and_then k (err f, w) = (err f, w)
  and_then k (ok a, w) = k a w

  infixl 5 ◌>>=◌ ◌>>◌
  abbrev pub ◌>>=◌ : Action A → (A → Action B) → Action B
  ◌>>=◌ m k w = and_then k (m w)

  abbrev pub ◌>>◌ : Action A → Action B → Action B
  ◌>>◌ m k = m >>= λ _. k

  unfoldable pub handled :
      (Failure → Action B) → (A → Action B) → Result Failure A × World → Result Failure B × World
  handled on_error k (err f, w) = on_error f w
  handled on_error k (ok a, w) = k a w

  -- `try: m` with `except Exception as exc: on_error`, and what follows if nothing was raised.
  abbrev pub try_except : Action A → (Failure → Action B) → (A → Action B) → Action B
  try_except m on_error k w = handled on_error k (m w)

-- The exception that an action raises, if it does.
abbrev pub caught : {A : Type 0} → Action A → Action (Option Failure)
caught m = try_except m (λ f. pure (some f)) (λ _. pure none)

-- `try: m` with `except Exception: pass`
abbrev pub ignoring : {A : Type 0} → Action A → Action (Unit {0})
ignoring m = try_except m (λ _. pure tt) (λ _. pure tt)

abbrev pub recorded : World → Call → Result Failure Bool × Database → Result Failure Bool × World
recorded w c (answer, db') = (
  answer,
  record w { db = db'; trace = record { call = c; answer = answer; db = w.db } ∷ w.trace },
)

unfoldable pub perform : Environment → Call → Action Bool
perform env c w = recorded w c (env.respond w.trace w.db c)

abbrev pub discard : Action Bool → Action (Unit {0})
discard m = m >>= λ _. pure tt

-- A hook that is called where it is set.
unfoldable pub hook : Environment → Bool → Call → Action (Unit {0})
hook env false c = pure tt
hook env true c = discard (perform env c)

abbrev pub in_session :
    {A : Type 0} → World → Result Exception (A × Database) → Result Failure A × World
in_session w (err e) = (err (service e), w)
in_session w (ok (a, db')) = (ok a, record w { db = db' })

-- A call of the local session service.
unfoldable pub session_call : {A : Type 0} → Transaction A → Action A
session_call t w = in_session w (t w.db)

abbrev pub stored :
    World → Result RuntimeStateError LocalReaderRuntime → Result Failure (Unit {0}) × World
stored w (err e) = (err (runtime_state e), w)
stored w (ok r) = (ok tt, record w { runtime = r })

-- `self.runtime = self.runtime.mark_…(…)`
unfoldable pub set_runtime :
    (LocalReaderRuntime → Result RuntimeStateError LocalReaderRuntime) → Action (Unit {0})
set_runtime mark w = stored w (mark w.runtime)
