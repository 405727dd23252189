-- ===== src/Queue/Moved.antt =====
-- What `transition_event_queue_state` of bridge_core/queue_service.py has done when it returns.
use rfid.Prelude.{ℕ, ◌≡◌, ◌≢◌, subst, inl, inr, some, nat_eq, arith, Option-cases}
use rfid.Result.{ok, Result-cases}
use rfid.Models.{QueueState, state_eq, state_iff, RawRfidEvent, Database}
use rfid.Models.Orm.{find_event, find_event-save_event, find_event-key}
use rfid.Queue.Policy.{validate_states}
use rfid.Queue.Service.{with_state, QueueTransitionResult, transition_event_queue_state}
use rfid.Queue.Transitions.{◌⟶◌, validate_states_iff}

abbrev pub moved : RawRfidEvent → QueueState → RawRfidEvent
moved event target = record event { queue_state = target }

-- The parts of a transition that returned.
pub transition-parts :
    (event_id : ℕ) (expected target : QueueState) (db : Database) {r : QueueTransitionResult}
    {db' : Database}
    → transition_event_queue_state event_id expected target db ≡ ok (r, db')
    → (event : RawRfidEvent) × (find_event event_id db.events ≡ some event)
      × (event.queue_state ≡ expected)
      × (validate_states event.queue_state target ≡ ok tt)
      × (db' ≡ with_state event target db)
unfolding transition_event_queue_state
transition-parts event_id expected target db {r} {db'} h =
    elim (Option-cases (find_event event_id db.events)) [
      | inl e ↦ absurd (ground arith)
      | inr (event, e) ↦ elim (Result-cases (validate_states event.queue_state target)) [
        | inr (x, f) ↦ absurd (ground arith)
        | inl (done, f) ↦
            (event, e, ground (arith, state_iff event.queue_state expected), f, ground arith)
      ]
    ]

-- A transition that returned has found the event in the expected state, and the move to the target is
-- one of the life cycle. Afterwards the event is in the target state and otherwise as before, and no
-- other event has changed.
pub transition-moves :
    (event_id : ℕ) (expected target : QueueState) (db : Database) {r : QueueTransitionResult}
    {db' : Database}
    → transition_event_queue_state event_id expected target db ≡ ok (r, db')
    → (event : RawRfidEvent) × (find_event event_id db.events ≡ some event)
      × (event.queue_state ≡ expected)
      × (expected ⟶ target)
      × (find_event event_id db'.events ≡ some (moved event target))
      × ((j : ℕ) → event_id ≢ j → find_event j db'.events ≡ find_event j db.events)
transition-moves event_id expected target db {r} {db'} h =
    let (event, e, s, f, d) = transition-parts event_id expected target db h in
    let key = find_event-key event_id db.events e in
    let saved = λ (j : ℕ). find_event-save_event j (moved event target) db.events in
    (
      event,
      e,
      s,
      subst (λ q. q ⟶ target) s ((validate_states_iff event.queue_state target).0 f),
      rw d (ground (arith, saved event_id)),
      λ j n. rw d (ground (arith, saved j)),
    )
