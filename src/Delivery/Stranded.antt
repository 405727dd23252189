-- ===== src/Delivery/Stranded.antt =====
-- What happens to a delivery whose retry settings the policy of the queue refuses.
use rfid.Prelude.{
  ℕ, ◌<◌, ◌≡◌, ◌≢◌, refl, ◌∙◌, inl, inr, subst, true, Option, some, arith, length, find?, nat_eq,
  Option-cases,
}
use rfid.Result.{ok, err, Result-cases}
use rfid.Models.{inflight, state_eq, Outcome, RawRfidEvent, Database, Exception}
use rfid.Models.Orm.{find_event}
use rfid.Queue.{calculate_retry_delay_seconds}
use rfid.Delivery.Attempts.{
  can_start, attempts_of, next_retry_time, DeliverySenderResult, complete_delivery_attempt,
  DeliveryAttemptCompletionResult,
}
use rfid.Delivery.Log.{IsLogged, is_at, numbers, next-Countdown}
use rfid.Delivery.Cycle.{Sender, RetryPolicy, report_of, settle, process_delivery_candidate}
use rfid.Delivery.Settle.{state_of, process-eq-settle, is_waiting, waiting_db}

no_time :
    (policy : RetryPolicy) (number now : ℕ) {next : Option ℕ}
    → policy.retry_max_seconds < policy.retry_initial_seconds
    → next_retry_time Outcome.retry number now
        (some policy.retry_initial_seconds)
        (some policy.retry_max_seconds)
      ≢ ok next
unfolding next_retry_time calculate_retry_delay_seconds
no_time policy number now {next} low h = ground arith

complete-raises :
    (policy : RetryPolicy) (event_id i : ℕ) (report : DeliverySenderResult) (db : Database)
    {r : DeliveryAttemptCompletionResult × Database}
    → policy.retry_max_seconds < policy.retry_initial_seconds
    → report.outcome ≡ Outcome.retry
    → complete_delivery_attempt event_id i report
        (some policy.retry_initial_seconds)
        (some policy.retry_max_seconds)
        db
      ≢ ok r
unfolding complete_delivery_attempt
complete-raises policy event_id i report db {r} low o h =
    elim (Option-cases (find_event event_id db.events)) [
      | inl missing ↦ ground arith
      | inr (event, present) ↦ elim (Option-cases (find? (is_at i event.event_id) db.attempts)) [
        | inl missing ↦ ground arith
        | inr (attempt, given) ↦
            elim (Result-cases (
              next_retry_time report.outcome attempt.attempt_number db.now
                (some policy.retry_initial_seconds) (some policy.retry_max_seconds))) [
                  | inr (x, e) ↦ ground arith
                  | inl (next, e) ↦ no_time policy attempt.attempt_number db.now low (
                      subst
                        (λ (q : Outcome).
                          next_retry_time q attempt.attempt_number db.now
                            (some policy.retry_initial_seconds) (some policy.retry_max_seconds)
                          ≡ ok next)
                        o e)
                ]
      ]
    ]

settle-raises :
    (policy : RetryPolicy) (event : RawRfidEvent) (i : ℕ) (report : DeliverySenderResult)
    (db : Database)
    → policy.retry_max_seconds < policy.retry_initial_seconds
    → report.outcome ≡ Outcome.retry
    → (x : Exception) × (settle policy event i report db ≡ (err x, db))
unfolding settle
settle-raises policy event i report db low o =
    elim (Result-cases (
      complete_delivery_attempt event.event_id i report (some policy.retry_initial_seconds)
        (some policy.retry_max_seconds) db)) [
          | inr (x, e) ↦ (x, rw (e, settle) refl)
          | inl (r, e) ↦ absurd (complete-raises policy event.event_id i report db low o e)
        ]

module _ (policy : RetryPolicy) (send : Sender) (event : RawRfidEvent) (db : Database) where
  -- With a maximal retry delay below the initial one, an event that could be sent and whose sender
  -- asks for a retry, or raises, makes the call raise and is left in flight, if the queue and the log
  -- agree, the event is the database's, attempts are left, and the sender leaves the database alone.
  pub process_strands :
      IsLogged db
      → policy.retry_max_seconds < policy.retry_initial_seconds
      → find_event event.event_id db.events ≡ some event
      → can_start event.queue_state ≡ true
      → length (numbers (attempts_of event.event_id db.attempts)) < policy.max_delivery_attempts
      → (send event (waiting_db policy send event db inflight)).1
        ≡ waiting_db policy send event db inflight
      → (report_of (send event (waiting_db policy send event db inflight)).0).outcome
        ≡ Outcome.retry
      → (x : Exception) × ((process_delivery_candidate policy send event db).0 ≡ err x)
        × (state_of event.event_id (process_delivery_candidate policy send event db).1
            ≡ some inflight)
  process_strands v low present c n quiet o =
      let waiting = waiting_db policy send event db inflight in
      let count =
        next-Countdown (attempts_of event.event_id db.attempts) (v.numbered event.event_id) in
      let (x, e) =
        settle-raises policy event db.next_id (report_of (send event waiting).0) waiting low o in
      let done =
        process-eq-settle policy send event db inflight present c (omega (arith, count))
          (omega (arith, count)) quiet
        ∙ e in
      let there = is_waiting policy send event db inflight present in
      (x, rw done refl, rw (done, there) refl)
