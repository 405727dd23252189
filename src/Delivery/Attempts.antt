-- ===== src/Delivery/Attempts.antt =====
-- bridge_core/delivery_service.py: `start_delivery_attempt` and `complete_delivery_attempt`. New
-- attempts stand at the head of the table.
use rfid.Prelude.{
  ℕ, ◌+◌, String, Bool, true, false, not, ◌&&◌, Option, none, some, List, [], ◌∷◌, ltb, leb, ◌==◌,
  nat_eq, filter, find?, if◌then◌else◌,
}
use rfid.Prelude.Text.{text_length}
use rfid.Result.{Result, ok, err, raise_if, ◌>>=◌, ◌>>◌}
use rfid.Models.{
  QueueState, queued, inflight, state_eq, Outcome, started, outcome_eq, DeliveryAttempt, Database,
  Exception, max_attempts_low, stale_state, cannot_start_from, max_attempts_reached,
  unsupported_outcome, missing_initial_seconds, missing_max_seconds, not_inflight,
  already_completed, does_not_exist, value_too_long, delivery_attempt,
}
use rfid.Models.Orm.{Transaction, found, save_attempt}
use rfid.Queue.{validate_states, calculate_retry_delay_seconds, get_event, with_state}

-- `DeliveryAttempt.objects.filter(event=event)`
abbrev pub attempts_of : ℕ → List DeliveryAttempt → List DeliveryAttempt
attempts_of event_id = filter (λ a. a.event_id == event_id)

-- `.order_by("-attempt_number").first()`
unfoldable pub latest : List DeliveryAttempt → Option DeliveryAttempt
latest [] = none
latest (a ∷ rest) = elim (latest rest) [
  | none ↦ some a
  | some b ↦ if ltb a.attempt_number b.attempt_number then some b else some a
]

unfoldable pub next_attempt_number : Option DeliveryAttempt → ℕ
next_attempt_number none = 1
next_attempt_number (some previous) = previous.attempt_number + 1

abbrev pub can_start : QueueState → Bool
can_start queued = true
can_start QueueState.retry = true
can_start _ = false

pub record DeliveryAttemptStartResult : Type 0 where
  pub event_id : ℕ
  pub attempt_id : ℕ
  pub attempt_number : ℕ
  pub previous_state : QueueState
  pub current_state : QueueState

-- The row that `DeliveryAttempt.objects.create` inserts.
abbrev pub new_attempt : Database → ℕ → ℕ → DeliveryAttempt
new_attempt db event_id number = record {
  id = db.next_id;
  event_id = event_id;
  attempt_number = number;
  outcome = started;
  response_code = "";
  error_kind = "";
  detail = "";
  completed_at = none;
  next_retry_at = none;
}

unfoldable pub start_delivery_attempt : ℕ → QueueState → ℕ → Transaction DeliveryAttemptStartResult
start_delivery_attempt event_id expected_state max_delivery_attempts db = do
  raise_if (ltb max_delivery_attempts 1) max_attempts_low
  event ← get_event event_id db
  raise_if (not (event.queue_state == expected_state))
      (stale_state expected_state event.queue_state)
  raise_if (not (can_start event.queue_state)) (cannot_start_from event.queue_state)
  let number = next_attempt_number (latest (attempts_of event.event_id db.attempts))
  raise_if (ltb max_delivery_attempts number) (max_attempts_reached max_delivery_attempts)
  validate_states event.queue_state inflight
  let attempt = new_attempt db event.event_id number
  ok (
    record {
      event_id = event.event_id;
      attempt_id = attempt.id;
      attempt_number = attempt.attempt_number;
      previous_state = event.queue_state;
      current_state = inflight;
    },
    record (with_state event inflight db) {
      attempts = attempt ∷ db.attempts;
      next_id = db.next_id + 1;
    },
  )

-- `outcome in allowed_outcomes`, with `outcome_to_queue_state[outcome]`.
unfoldable pub target_state : Outcome → Result Exception QueueState
target_state started = err (unsupported_outcome started)
target_state Outcome.sent = ok QueueState.sent
target_state Outcome.retry = ok QueueState.retry
target_state Outcome.rejected = ok QueueState.rejected
target_state Outcome.dead = ok QueueState.dead

-- `if value is None: raise e`, for a value that only a retry needs.
abbrev pub required : Exception → Option ℕ → Result Exception ℕ
required e none = err e
required e (some n) = ok n

-- The two tests on `None` before the transaction.
unfoldable pub check_retry_seconds : Outcome → Option ℕ → Option ℕ → Result Exception (Unit {0})
check_retry_seconds Outcome.retry none _ = err missing_initial_seconds
check_retry_seconds Outcome.retry (some _) none = err missing_max_seconds
check_retry_seconds _ _ _ = ok tt

abbrev pub plus : ℕ → Result Exception ℕ → Result Exception (Option ℕ)
plus now (ok d) = ok (some (now + d))
plus now (err e) = err e

-- `next_retry_at`: set for a retry only. Without both numbers of seconds a retry has been refused.
unfoldable pub next_retry_time : Outcome → ℕ → ℕ → Option ℕ → Option ℕ → Result Exception (Option ℕ)
next_retry_time Outcome.retry number now (some initial) (some maximum) =
    plus now (calculate_retry_delay_seconds number initial maximum)
next_retry_time _ number now _ _ = ok none

pub record DeliveryAttemptCompletionResult : Type 0 where
  pub event_id : ℕ
  pub attempt_id : ℕ
  pub attempt_number : ℕ
  pub outcome : Outcome
  pub previous_state : QueueState
  pub current_state : QueueState
  pub completed_at : Option ℕ
  pub next_retry_at : Option ℕ

-- `DeliveryAttempt.objects.select_for_update().get(id=attempt_id, event=event)`
abbrev pub get_attempt : ℕ → ℕ → Database → Result Exception DeliveryAttempt
get_attempt attempt_id event_id db =
    found (does_not_exist delivery_attempt)
      (find? (λ a. a.id == attempt_id && a.event_id == event_id) db.attempts)

-- What a sender reports about an event: bridge_core/sender_backends.py, `DeliverySenderResult`.
pub record DeliverySenderResult : Type 0 where
  pub outcome : Outcome
  pub response_code : String
  pub error_kind : String
  pub detail : String

-- Whether the columns of bridge_core/models.py have room for what a completion writes to them.
unfoldable pub report_fits : DeliverySenderResult → Bool
report_fits report =
    leb (text_length report.response_code) 64 && leb (text_length report.error_kind) 128

-- The attempt row with all that a completion writes to it.
abbrev pub completed : DeliveryAttempt → DeliverySenderResult → ℕ → Option ℕ → DeliveryAttempt
completed attempt report now next_retry_at = record attempt {
  outcome = report.outcome;
  response_code = report.response_code;
  error_kind = report.error_kind;
  detail = report.detail;
  completed_at = some now;
  next_retry_at = next_retry_at;
}

unfoldable pub complete_delivery_attempt :
    ℕ → ℕ → DeliverySenderResult → Option ℕ → Option ℕ → Transaction DeliveryAttemptCompletionResult
complete_delivery_attempt event_id attempt_id report retry_initial_seconds retry_max_seconds db = do
  target ← target_state report.outcome
  check_retry_seconds report.outcome retry_initial_seconds retry_max_seconds
  event ← get_event event_id db
  raise_if (not (event.queue_state == inflight)) (not_inflight event.queue_state)
  attempt ← get_attempt attempt_id event.event_id db
  raise_if (not (attempt.outcome == started)) (already_completed attempt.outcome)
  validate_states event.queue_state target
  next_retry_at ←
      next_retry_time report.outcome attempt.attempt_number db.now retry_initial_seconds
        retry_max_seconds
  -- `attempt.save` raises, and the transaction is rolled back
  raise_if (not (report_fits report)) (value_too_long delivery_attempt)
  let row = completed attempt report db.now next_retry_at
  ok (
    record {
      event_id = event.event_id;
      attempt_id = row.id;
      attempt_number = row.attempt_number;
      outcome = row.outcome;
      previous_state = event.queue_state;
      current_state = target;
      completed_at = row.completed_at;
      next_retry_at = row.next_retry_at;
    },
    record (with_state event target db) { attempts = save_attempt row db.attempts },
  )
