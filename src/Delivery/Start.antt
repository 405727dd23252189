-- ===== src/Delivery/Start.antt =====
-- What `start_delivery_attempt` does to the queue and the delivery log.
use rfid.Prelude.{
  ℕ, suc, ◌+◌, ◌≤◌, ◌≡◌, refl, sym, subst, inl, inr, true, some, List, [], ◌∷◌, arith, length,
  Option-cases, Bool-cases, ◌==◌, nat_eq, nat_beq_iff,
}
use rfid.Result.{ok, Result-cases}
use rfid.Models.{Outcome, QueueState, queued, inflight, state_eq, RawRfidEvent, Database}
use rfid.Models.Orm.{after, find_event, find_event-save_event, find_event-key}
use rfid.Queue.{with_state, validate_states}
use rfid.Delivery.Attempts.{
  attempts_of, latest, next_attempt_number, can_start, new_attempt, start_delivery_attempt,
  DeliveryAttemptStartResult,
}
use rfid.Delivery.Log.{
  outcomes, numbers, IsRetried, Countdown, History, IsLogged, IsBounded, next-Countdown,
}

-- The database after a started attempt.
abbrev pub started_db : Database → RawRfidEvent → ℕ → Database
started_db db event number = record (with_state event inflight db) {
  attempts = new_attempt db event.event_id number ∷ db.attempts;
  next_id = db.next_id + 1;
}

abbrev pub next_of : Database → RawRfidEvent → ℕ
next_of db event = next_attempt_number (latest (attempts_of event.event_id db.attempts))

-- What a start that returns has found, and what it has written.
pub record Starts (event_id maximum : ℕ) (db db' : Database) : Type 0 where
  pub event : RawRfidEvent
  pub was_found : find_event event_id db.events ≡ some event
  pub could_start : can_start event.queue_state ≡ true
  pub in_bound : next_of db event ≤ maximum
  pub result : db' ≡ started_db db event (next_of db event)

-- A state in which an attempt can start may move to `INFLIGHT`.
pub can_start-ok : (s : QueueState) → can_start s ≡ true → validate_states s inflight ≡ ok tt
unfolding validate_states
can_start-ok s h = ground arith

module _ (event_id : ℕ) (expected : QueueState) (maximum : ℕ) (db : Database) where
  pub start-Starts :
      {r : DeliveryAttemptStartResult} {db' : Database}
      → start_delivery_attempt event_id expected maximum db ≡ ok (r, db')
      → Starts event_id maximum db db'
  unfolding start_delivery_attempt
  start-Starts h = elim (Option-cases (find_event event_id db.events)) [
    | inl missing ↦ ground arith
    | inr (event, present) ↦ record {
      event = event;
      was_found = present;
      could_start = ground arith;
      in_bound = ground arith;
      result = ground arith;
    }
  ]

pub can_start-IsRetried :
    (s : QueueState) (os : List Outcome) → can_start s ≡ true → History s os → IsRetried os
can_start-IsRetried queued [] c h = tt
can_start-IsRetried queued (o ∷ os) c h = elim h [ ]
can_start-IsRetried QueueState.retry [] c h = elim h [ ]
can_start-IsRetried QueueState.retry (o ∷ os) c h = h
can_start-IsRetried s os c h = cc

module _ (db : Database) (event : RawRfidEvent)
    (present : find_event event.event_id db.events ≡ some event) where
  started_agrees :
      (n : ℕ)
      → IsLogged db
      → can_start event.queue_state ≡ true
      → (j : ℕ) (e : RawRfidEvent) → find_event j (started_db db event n).events ≡ some e
      → History e.queue_state (outcomes (attempts_of j (started_db db event n).attempts))
  started_agrees n v c j e h =
      let moved : RawRfidEvent = record event { queue_state = inflight } in
      let saved = find_event-save_event j moved db.events in
      elim (Bool-cases (event.event_id == j)) [
        | inl here ↦
            let same : event.event_id ≡ j = (nat_beq_iff event.event_id j).0 here in
            let there : find_event j db.events ≡ some event =
              subst (λ i. find_event i db.events ≡ some event) same present in
            let row : moved ≡ e = ground (arith, saved) in
            subst
              (λ (x : RawRfidEvent).
                History x.queue_state (outcomes (attempts_of j (started_db db event n).attempts)))
              row (rw here (refl, can_start-IsRetried _ _ c (v.agrees j event there)))
        | inr other ↦ rw other (v.agrees j e (ground (arith, saved)))
      ]

  next_number :
      IsLogged db
      → (j : ℕ) → (event.event_id == j) ≡ true
      → next_of db event ≡ suc (length (numbers (attempts_of j db.attempts)))
  next_number v j here =
      subst (λ i. next_of db event ≡ suc (length (numbers (attempts_of i db.attempts))))
        ((nat_beq_iff event.event_id j).0 here)
        (next-Countdown (attempts_of event.event_id db.attempts) (v.numbered event.event_id))

  started_numbered :
      IsLogged db
      → (j : ℕ)
      → Countdown (numbers (attempts_of j (started_db db event (next_of db event)).attempts))
  started_numbered v j = elim (Bool-cases (event.event_id == j)) [
    | inl here ↦ rw here (next_number v j here, v.numbered j)
    | inr other ↦ rw other (v.numbered j)
  ]

  started-IsLogged :
      IsLogged db
      → can_start event.queue_state ≡ true
      → IsLogged (started_db db event (next_of db event))
  started-IsLogged v c = record {
    agrees = started_agrees (next_of db event) v c;
    numbered = started_numbered v;
    fresh = (omega arith, v.fresh);
  }

  started-IsBounded :
      {bound : ℕ}
      → IsLogged db
      → IsBounded bound db
      → next_of db event ≤ bound
      → IsBounded bound (started_db db event (next_of db event))
  started-IsBounded v b n j = elim (Bool-cases (event.event_id == j)) [
    | inl here ↦ rw here (omega (arith, next_number v j here))
    | inr other ↦ rw other (b j)
  ]

module _ (event_id : ℕ) (expected : QueueState) (maximum : ℕ) (db : Database) where
  Starts-IsLogged : {db' : Database} → IsLogged db → Starts event_id maximum db db' → IsLogged db'
  Starts-IsLogged v s =
      let key = find_event-key event_id db.events s.was_found in
      let there : find_event s.event.event_id db.events ≡ some s.event =
        subst (λ i. find_event i db.events ≡ some s.event) (sym key) s.was_found in
      rw s.result (started-IsLogged db s.event there v s.could_start)

  Starts-IsBounded :
      {db' : Database}
      → IsLogged db
      → IsBounded maximum db
      → Starts event_id maximum db db'
      → IsBounded maximum db'
  Starts-IsBounded v b s =
      let key = find_event-key event_id db.events s.was_found in
      let there : find_event s.event.event_id db.events ≡ some s.event =
        subst (λ i. find_event i db.events ≡ some s.event) (sym key) s.was_found in
      rw s.result (started-IsBounded db s.event there v b s.in_bound)

  -- If the queue and the delivery log agree before an attempt is started, they agree after the call,
  -- whether it returns or raises.
  pub start-IsLogged :
      IsLogged db → IsLogged (after (start_delivery_attempt event_id expected maximum db) db)
  start-IsLogged v = elim (Result-cases (start_delivery_attempt event_id expected maximum db)) [
    | inl ((r, db'), e) ↦ rw e (Starts-IsLogged v (start-Starts event_id expected maximum db e))
    | inr (x, e) ↦ rw e v
  ]

  -- If the queue and the delivery log agree and no event has more attempts than the bound that the
  -- call is given, none has more after the call.
  pub start-IsBounded :
      IsLogged db
      → IsBounded maximum db
      → IsBounded maximum (after (start_delivery_attempt event_id expected maximum db) db)
  start-IsBounded v b = elim (Result-cases (start_delivery_attempt event_id expected maximum db)) [
    | inl ((r, db'), e) ↦ rw e (Starts-IsBounded v b (start-Starts event_id expected maximum db e))
    | inr (x, e) ↦ rw e b
  ]
