-- ===== src/Tests/Queue.antt =====
-- bridge_core/queue_policy.py on concrete inputs.
use rfid.Prelude.{ℕ, ◌≢◌, some, ◌≡◌, ◌≤◌, refl, arith, min, ◌*◌}
use rfid.Result.{ok, err}
use rfid.Tests.Sample.{sample}
use rfid.Models.Orm.{find_event, after}
use rfid.Models.{
  RawRfidEvent, Database, from_value, QueueState, queued, inflight, illegal_transition,
  unknown_target_state,
}
use rfid.Queue.{
  transition_event_queue_state, transition-moves, moved, validate_states, validate_queue_transition,
  calculate_retry_delay_seconds, ◌⟶◌, delay_doubles,
}

retry_delays :
    (calculate_retry_delay_seconds 4 30 3600 ≡ ok 240)
    × (calculate_retry_delay_seconds 10 30 3600 ≡ ok 3600)
unfolding calculate_retry_delay_seconds
retry_delays = (refl, refl)

unknown_target : validate_queue_transition "queued" "lost" ≡ err (unknown_target_state "lost")
unfolding validate_queue_transition from_value
unknown_target = refl

skipped_inflight :
    validate_queue_transition "queued" "sent" ≡ err (illegal_transition queued QueueState.sent)
unfolding validate_queue_transition validate_states from_value
skipped_inflight = refl

delay_doubles_example :
    (calculate_retry_delay_seconds 1 30 3600 ≡ ok 30)
    × (calculate_retry_delay_seconds 4 30 3600 ≡ ok (min (2 * 120) 3600))
    × (30 ≤ 120)
    × (120 ≤ 3600)
unfolding calculate_retry_delay_seconds
delay_doubles_example = delay_doubles 30 3600 2 120 (omega arith) refl

abbrev begun : Database
begun = after (transition_event_queue_state 3 queued inflight sample) sample

begins :
    transition_event_queue_state 3 queued inflight sample
    ≡ ok (record { event_id = 3; previous_state = queued; current_state = inflight }, begun)
unfolding transition_event_queue_state validate_states
begins = refl

transition-moves_example :
    (event : RawRfidEvent) × (find_event 3 sample.events ≡ some event)
    × (event.queue_state ≡ queued)
    × (queued ⟶ inflight)
    × (find_event 3 begun.events ≡ some (moved event inflight))
    × ((j : ℕ) → 3 ≢ j → find_event j begun.events ≡ find_event j sample.events)
transition-moves_example = transition-moves 3 queued inflight sample begins
