-- ===== src/Delivery/Overflow.antt =====
-- What happens to a delivery whose report does not fit the columns of the delivery log.
use rfid.Prelude.{
  ℕ, ◌≤◌, ◌<◌, ◌≡◌, refl, ◌∙◌, true, false, some, arith, length, find?, ◌==◌, nat_eq,
}
use rfid.Result.{ok, err}
use rfid.Models.{
  QueueState, inflight, state_eq, state_iff, outcome_iff, started, outcome_eq, RawRfidEvent,
  DeliveryAttempt, Database, value_too_long, delivery_attempt,
}
use rfid.Models.Orm.{find_event}
use rfid.Queue.{validate_states}
use rfid.Delivery.Attempts.{
  can_start, attempts_of, target_state, DeliverySenderResult, report_fits,
  complete_delivery_attempt,
}
use rfid.Delivery.Log.{IsLogged, is_at, numbers, next-Countdown}
use rfid.Delivery.Cycle.{Sender, RetryPolicy, report_of, settle, process_delivery_candidate}
use rfid.Delivery.Settle.{
  IsSane, inflight-ok, next_retry_returns, check_returns, waiting_db, moved, attempt,
  process-eq-settle, is_waiting, is_newest, state_of,
}

module _ (policy : RetryPolicy) (report : DeliverySenderResult) (db : Database) where
  complete_overflows :
      (event : RawRfidEvent) (a : DeliveryAttempt) (target : QueueState)
      → find_event event.event_id db.events ≡ some event
      → event.queue_state ≡ inflight
      → find? (is_at a.id event.event_id) db.attempts ≡ some a
      → a.outcome ≡ started
      → 1 ≤ a.attempt_number
      → IsSane policy
      → target_state report.outcome ≡ ok target
      → report_fits report ≡ false
      → complete_delivery_attempt event.event_id a.id report
          (some policy.retry_initial_seconds)
          (some policy.retry_max_seconds)
          db
        ≡ err (value_too_long delivery_attempt)
  unfolding complete_delivery_attempt
  complete_overflows event a target present i given o n s t f =
      let (next, e) = next_retry_returns policy report.outcome a.attempt_number db.now s n in
      let pi : (event.queue_state == inflight) ≡ true =
        (state_iff event.queue_state inflight).1 i in
      let po : (a.outcome == started) ≡ true = (outcome_iff a.outcome started).1 o in
      let pv : validate_states event.queue_state target ≡ ok tt =
        rw i (inflight-ok report.outcome target t) in
      rw (t, check_returns, present, pi, given, po, pv, e, f)

  settle_overflows :
      (event : RawRfidEvent) (i : ℕ)
      → complete_delivery_attempt event.event_id i report
          (some policy.retry_initial_seconds)
          (some policy.retry_max_seconds)
          db
        ≡ err (value_too_long delivery_attempt)
      → settle policy event i report db ≡ (err (value_too_long delivery_attempt), db)
  unfolding settle
  settle_overflows event i h = rw (h, settle) refl

module _ (policy : RetryPolicy) (send : Sender) (event : RawRfidEvent) (db : Database)
    (target : QueueState) where
  -- The queue and the log agree, the retry settings are sane, the event is the database's, queued or
  -- waiting for a retry with attempts left, the sender leaves the database alone and reports an
  -- outcome that has a queue state, but a response code of more than 64 or a kind of error of more
  -- than 128 characters: then the database refuses the completion, the call raises, and the event is
  -- left in flight.
  pub process_overflows :
      IsLogged db
      → IsSane policy
      → find_event event.event_id db.events ≡ some event
      → can_start event.queue_state ≡ true
      → length (numbers (attempts_of event.event_id db.attempts)) < policy.max_delivery_attempts
      → (send event (waiting_db policy send event db target)).1
        ≡ waiting_db policy send event db target
      → target_state (report_of (send event (waiting_db policy send event db target)).0).outcome
        ≡ ok target
      → report_fits (report_of (send event (waiting_db policy send event db target)).0) ≡ false
      → ((process_delivery_candidate policy send event db).0
          ≡ err (value_too_long delivery_attempt))
        × (state_of event.event_id (process_delivery_candidate policy send event db).1
            ≡ some inflight)
  unfolding attempt
  process_overflows v s present c n quiet t f =
      let waiting = waiting_db policy send event db target in
      let report = report_of (send event waiting).0 in
      let count =
        next-Countdown (attempts_of event.event_id db.attempts) (v.numbered event.event_id) in
      let there = is_waiting policy send event db target present in
      let refused =
        complete_overflows policy report waiting (moved policy send event db target)
          (attempt policy send event db target) target there refl
          (is_newest policy send event db target) refl (omega (arith, count)) s t f in
      let done =
        process-eq-settle policy send event db target present c (omega (arith, count))
          (omega (arith, count)) quiet
        ∙ settle_overflows policy report waiting event db.next_id refused in
      (rw done refl, rw (done, there) refl)
