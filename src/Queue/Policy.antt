-- ===== src/Queue/Policy.antt =====
-- `_ALLOWED_TRANSITIONS`, `validate_queue_transition` and `calculate_retry_delay_seconds` of
-- bridge_core/queue_policy.py.
use rfid.Prelude.{
  ℕ, ◌-◌, ◌*◌, ◌^◌, ◌≡◌, Bool, true, false, not, none, some, String, arith, min, ltb, ◌==◌,
}
use rfid.Result.{Result, ok, err, raise_if, ◌>>◌}
use rfid.Models.{
  QueueState, unassigned, queued, inflight, from_value, value, from_value-value, state_eq,
  Exception, unknown_current_state, unknown_target_state, same_state, illegal_transition,
  attempt_number_low, initial_seconds_low, maximum_below_initial,
}

-- `target in _ALLOWED_TRANSITIONS[current]`
unfoldable pub allowed : QueueState → QueueState → Bool
allowed unassigned queued = true
allowed unassigned QueueState.rejected = true
allowed queued inflight = true
allowed queued QueueState.rejected = true
allowed queued QueueState.dead = true
allowed inflight QueueState.sent = true
allowed inflight QueueState.retry = true
allowed inflight QueueState.rejected = true
allowed inflight QueueState.dead = true
allowed QueueState.retry inflight = true
allowed QueueState.retry QueueState.dead = true
allowed _ _ = false

-- The last two tests of `validate_queue_transition`, on states that are known.
unfoldable pub validate_states : QueueState → QueueState → Result Exception (Unit {0})
unfolding allowed
validate_states current target = do
  raise_if (current == target) (same_state current)
  raise_if (not (allowed current target)) (illegal_transition current target)

-- `validate_queue_transition`, on the strings that it is given.
unfoldable pub validate_queue_transition : String → String → Result Exception (Unit {0})
unfolding validate_states
validate_queue_transition current target = elim (from_value current) [
  | none ↦ err (unknown_current_state current)
  | some known ↦ elim (from_value target) [
    | none ↦ err (unknown_target_state target)
    | some next ↦ validate_states known next
  ]
]

-- The services pass stored states, for which the first two tests cannot fail.
pub validate_queue_transition-value :
    (current target : QueueState)
    → validate_queue_transition (value current) (value target) ≡ validate_states current target
unfolding validate_queue_transition
validate_queue_transition-value current target =
    ground (arith, from_value-value current, from_value-value target)

-- `calculate_retry_delay_seconds`
unfoldable pub calculate_retry_delay_seconds : ℕ → ℕ → ℕ → Result Exception ℕ
calculate_retry_delay_seconds attempt_number initial_seconds maximum_seconds = do
  raise_if (ltb attempt_number 1) attempt_number_low
  raise_if (ltb initial_seconds 1) initial_seconds_low
  raise_if (ltb maximum_seconds initial_seconds) maximum_below_initial
  ok (min (initial_seconds * 2 ^ (attempt_number - 1)) maximum_seconds)
