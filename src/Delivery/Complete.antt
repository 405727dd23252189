-- ===== src/Delivery/Complete.antt =====
-- What `complete_delivery_attempt` does to the queue and the delivery log.
use rfid.Prelude.{
  ℕ, ◌≤◌, ◌<◌, ◌∙◌, ◌≡◌, refl, sym, subst, inl, inr, Option, some, List, arith, length, find?,
  Option-cases, Bool-cases, ◌==◌, nat_eq, nat_beq_iff,
}
use rfid.Result.{ok, Result-cases}
use rfid.Models.{
  QueueState, inflight, state_eq, Outcome, started, outcome_eq, RawRfidEvent, DeliveryAttempt,
  Database,
}
use rfid.Models.Orm.{after, find_event, save_attempt, find_event-save_event, find_event-key}
use rfid.Queue.{with_state}
use rfid.Delivery.Attempts.{
  attempts_of, target_state, next_retry_time, completed, DeliverySenderResult,
  complete_delivery_attempt, DeliveryAttemptCompletionResult,
}
use rfid.Delivery.Log.{
  outcomes, numbers, EndsWith, History, IsLogged, IsBounded, is_at, below, numbers-save,
  Descends-save, outcomes-save_ne, EndsWith-save,
}

abbrev pub completed_db : Database → RawRfidEvent → QueueState → DeliveryAttempt → Database
completed_db db event target row = record (with_state event target db) {
  attempts = save_attempt row db.attempts;
}

-- What a completion that returns has found, and what it has written.
pub record Completes (event_id attempt_id : ℕ) (report : DeliverySenderResult) (db db' : Database)
    : Type 0 where
  pub event : RawRfidEvent
  pub attempt : DeliveryAttempt
  pub target : QueueState
  pub next_retry_at : Option ℕ
  pub found_event : find_event event_id db.events ≡ some event
  pub found_attempt : find? (is_at attempt_id event.event_id) db.attempts ≡ some attempt
  pub was_inflight : event.queue_state ≡ inflight
  pub was_started : attempt.outcome ≡ started
  pub has_target : target_state report.outcome ≡ ok target
  pub result : db' ≡ completed_db db event target (completed attempt report db.now next_retry_at)

module _ (event_id attempt_id : ℕ) (report : DeliverySenderResult) (initial maximum : Option ℕ)
    (db : Database) where
  pub complete-Completes :
      {r : DeliveryAttemptCompletionResult} {db' : Database}
      → complete_delivery_attempt event_id attempt_id report initial maximum db ≡ ok (r, db')
      → Completes event_id attempt_id report db db'
  unfolding complete_delivery_attempt
  complete-Completes h = elim (Result-cases (target_state report.outcome)) [
    | inr (x, e) ↦ ground arith
    | inl (target, t) ↦ elim (Option-cases (find_event event_id db.events)) [
      | inl missing ↦ ground arith
      | inr (event, present) ↦
          elim (Option-cases (find? (is_at attempt_id event.event_id) db.attempts)) [
            | inl missing ↦ ground arith
            | inr (attempt, given) ↦
                elim (Result-cases
                  (next_retry_time report.outcome attempt.attempt_number db.now initial maximum)) [
                    | inr (x, e) ↦ ground arith
                    | inl (next, n) ↦ record {
                      event = event;
                      attempt = attempt;
                      target = target;
                      next_retry_at = next;
                      found_event = present;
                      found_attempt = given;
                      was_inflight = ground arith;
                      was_started = ground arith;
                      has_target = t;
                      result = ground arith;
                    }
                  ]
          ]
    ]
  ]

target-History :
    (o : Outcome) (target : QueueState) (os : List Outcome)
    → target_state o ≡ ok target
    → EndsWith o os
    → History target os
unfolding target_state
target-History started target os h l = cc
target-History Outcome.sent target os h l =
    let e : QueueState.sent ≡ target = cc in subst (λ t. History t os) e l
target-History Outcome.retry target os h l =
    let e : QueueState.retry ≡ target = cc in subst (λ t. History t os) e l
target-History Outcome.rejected target os h l =
    let e : QueueState.rejected ≡ target = cc in subst (λ t. History t os) e (inr l)
target-History Outcome.dead target os h l =
    let e : QueueState.dead ≡ target = cc in subst (λ t. History t os) e (inr l)

module _ {event_id attempt_id : ℕ} {report : DeliverySenderResult} {db db' : Database}
    (v : IsLogged db) (c : Completes event_id attempt_id report db db') where
  open c use {
    event, attempt, target, next_retry_at, found_event, found_attempt, was_inflight, was_started,
    has_target, result,
  }

  row : DeliveryAttempt
  row = completed attempt report db.now next_retry_at

  moved : RawRfidEvent
  moved = record event { queue_state = target }

  keys : (attempt.id ≡ attempt_id) × (attempt.id < db.next_id) × (attempt.event_id ≡ event.event_id)
  keys = below attempt_id event.event_id row db.next_id db.attempts v.fresh found_attempt

  event_key : event.event_id ≡ event_id
  event_key = find_event-key event_id db.events found_event

  under_way : EndsWith started (outcomes (attempts_of event.event_id db.attempts))
  under_way = rw event_key (
      subst (λ s. History s (outcomes (attempts_of event_id db.attempts))) was_inflight
        (v.agrees event_id event found_event))

  ended : History target (outcomes (attempts_of event.event_id (save_attempt row db.attempts)))
  unfolding row
  ended = target-History report.outcome target _ has_target (
      EndsWith-save attempt_id event.event_id row keys.0 keys.2 db.next_id db.attempts v.fresh
        found_attempt was_started under_way)

  completed_agrees :
      (j : ℕ) (e : RawRfidEvent)
      → find_event j (completed_db db event target row).events ≡ some e
      → History e.queue_state (outcomes (attempts_of j (save_attempt row db.attempts)))
  unfolding moved row
  completed_agrees j e h =
      let saved = find_event-save_event j moved db.events in
      elim (Bool-cases (event.event_id == j)) [
        | inl here ↦
            let same : event.event_id ≡ j = (nat_beq_iff event.event_id j).0 here in
            let there : find_event j db.events ≡ some event =
              subst (λ i. find_event i db.events ≡ some event) (sym event_key ∙ same) found_event in
            let row_is : moved ≡ e = ground (arith, saved) in
            subst
              (λ (x : RawRfidEvent).
                History x.queue_state (outcomes (attempts_of j (save_attempt row db.attempts))))
              row_is
              (subst (λ i. History target (outcomes (attempts_of i (save_attempt row db.attempts))))
                same ended)
        | inr other ↦
            rw
              (outcomes-save_ne attempt_id event.event_id row keys.0 keys.2 j db.next_id db.attempts
                v.fresh found_attempt other)
              (v.agrees j e (ground (arith, saved)))
      ]

  same_numbers :
      (j : ℕ)
      → numbers (attempts_of j (save_attempt row db.attempts)) ≡ numbers (attempts_of j db.attempts)
  unfolding row
  same_numbers j =
      numbers-save attempt_id event.event_id row keys.0 keys.2 j db.next_id db.attempts v.fresh
        found_attempt refl

  Completes-IsLogged : IsLogged db'
  unfolding row
  Completes-IsLogged = rw result (record {
    agrees = completed_agrees;
    numbered = λ j. rw same_numbers (v.numbered j);
    fresh =
        Descends-save attempt_id event.event_id row keys.0 keys.2 db.next_id db.attempts v.fresh;
  })

  Completes-IsBounded : {bound : ℕ} → IsBounded bound db → IsBounded bound db'
  unfolding row
  Completes-IsBounded {bound} b j =
      rw result (subst (λ ns. length ns ≤ bound) (sym (same_numbers j)) (b j))

module _ (event_id attempt_id : ℕ) (report : DeliverySenderResult) (initial maximum : Option ℕ)
    (db : Database) where
  -- If the queue and the delivery log agree before a completion, they agree after it, whether it
  -- returns or raises.
  pub complete-IsLogged :
      IsLogged db
      → IsLogged
          (after (complete_delivery_attempt event_id attempt_id report initial maximum db) db)
  complete-IsLogged v =
      elim (Result-cases
        (complete_delivery_attempt event_id attempt_id report initial maximum db)) [
          | inl ((r, db'), e) ↦ rw e (
              Completes-IsLogged v
                (complete-Completes event_id attempt_id report initial maximum db e))
          | inr (x, e) ↦ rw e v
        ]

  -- A completion adds no attempt.
  pub complete-IsBounded :
      {bound : ℕ}
      → IsLogged db
      → IsBounded bound db
      → IsBounded bound
          (after (complete_delivery_attempt event_id attempt_id report initial maximum db) db)
  complete-IsBounded v b =
      elim (Result-cases
        (complete_delivery_attempt event_id attempt_id report initial maximum db)) [
          | inl ((r, db'), e) ↦ rw e (
              Completes-IsBounded v
                (complete-Completes event_id attempt_id report initial maximum db e) b)
          | inr (x, e) ↦ rw e b
        ]
