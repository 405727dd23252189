-- ===== src/Queue/Service.antt =====
-- bridge_core/queue_service.py
use rfid.Prelude.{ℕ, not, ◌==◌}
use rfid.Result.{Result, ok, raise_if, ◌>>=◌, ◌>>◌}
use rfid.Models.{
  QueueState, state_eq, Exception, does_not_exist, raw_rfid_event, stale_state, RawRfidEvent,
  Database,
}
use rfid.Models.Orm.{Transaction, found, find_event, save_event}
use rfid.Queue.Policy.{validate_states}

-- `RawRFIDEvent.objects.select_for_update().get(event_id=event_id)`
abbrev pub get_event : ℕ → Database → Result Exception RawRfidEvent
get_event event_id db = found (does_not_exist raw_rfid_event) (find_event event_id db.events)

-- `event.queue_state = state; event.save(update_fields=…)`
abbrev pub with_state : RawRfidEvent → QueueState → Database → Database
with_state event state db = record db {
  events = save_event (record event { queue_state = state }) db.events;
}

pub record QueueTransitionResult : Type 0 where
  pub event_id : ℕ
  pub previous_state : QueueState
  pub current_state : QueueState

unfoldable pub transition_event_queue_state :
    ℕ → QueueState → QueueState → Transaction QueueTransitionResult
transition_event_queue_state event_id expected_state target_state db = do
  event ← get_event event_id db
  raise_if (not (event.queue_state == expected_state))
      (stale_state expected_state event.queue_state)
  validate_states event.queue_state target_state
  ok (
    record {
      event_id = event.event_id;
      previous_state = event.queue_state;
      current_state = target_state;
    },
    with_state event target_state db,
  )
