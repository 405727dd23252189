-- ===== src/Delivery/Settle.antt =====
-- What a candidate that is sent comes to, where its completion can write what the sender reports.
use rfid.Prelude.{
  ℕ, ◌+◌, ◌≤◌, ◌<◌, ◌≡◌, refl, ◌∙◌, true, false, Option, none, some, arith, min, ◌*◌, ◌-◌, ◌^◌,
  length, find?, ltb, ◌==◌, nat_eq,
}
use mathlib.Core.Option
use rfid.Result.{ok}
use rfid.Models.{
  QueueState, inflight, state_eq, state_iff, outcome_iff, Outcome, started, outcome_eq,
  RawRfidEvent, DeliveryAttempt, Database,
}
use rfid.Models.Orm.{find_event, find_event-save_event}
use rfid.Queue.{validate_states, calculate_retry_delay_seconds}
use rfid.Delivery.Attempts.{
  can_start, attempts_of, target_state, check_retry_seconds, next_retry_time, DeliverySenderResult,
  report_fits, start_delivery_attempt, complete_delivery_attempt, new_attempt, completed,
  DeliveryAttemptStartResult, DeliveryAttemptCompletionResult,
}
use rfid.Delivery.Log.{IsLogged, is_at, numbers, next-Countdown}
use rfid.Delivery.Start.{started_db, next_of, can_start-ok}
use rfid.Delivery.Complete.{completed_db}
use rfid.Delivery.Cycle.{
  Sender, RetryPolicy, SingleEventDeliveryResult, report_of, single_result, settle,
  process_delivery_candidate,
}

-- The settings that `run_batch_delivery_cycle` insists on.
pub record IsSane (policy : RetryPolicy) : Type 0 where
  pub initial : 1 ≤ policy.retry_initial_seconds
  pub maximum : policy.retry_initial_seconds ≤ policy.retry_max_seconds

pub inflight-ok :
    (o : Outcome) (target : QueueState)
    → target_state o ≡ ok target
    → validate_states inflight target ≡ ok tt
unfolding target_state validate_states
inflight-ok o target h = ground arith

pub next_retry_returns :
    (policy : RetryPolicy) (o : Outcome) (number now : ℕ)
    → IsSane policy
    → 1 ≤ number
    → (next : Option ℕ) × (next_retry_time o number now
          (some policy.retry_initial_seconds)
          (some policy.retry_max_seconds)
        ≡ ok next)
unfolding next_retry_time calculate_retry_delay_seconds
next_retry_returns policy Outcome.retry number now s n = (
  some (now + min (policy.retry_initial_seconds * 2 ^ (number - 1)) policy.retry_max_seconds),
  ground arith,
)
next_retry_returns policy _ number now s n = (none, refl)

pub check_returns : (o : Outcome) (i m : ℕ) → check_retry_seconds o (some i) (some m) ≡ ok tt
unfolding check_retry_seconds
check_returns Outcome.retry i m = refl
check_returns _ i m = refl

module _ (policy : RetryPolicy) (event : RawRfidEvent) (db : Database) where
  abbrev started_result : DeliveryAttemptStartResult
  started_result = record {
    event_id = event.event_id;
    attempt_id = db.next_id;
    attempt_number = next_of db event;
    previous_state = event.queue_state;
    current_state = inflight;
  }

  start_returns :
      find_event event.event_id db.events ≡ some event
      → can_start event.queue_state ≡ true
      → next_of db event ≤ policy.max_delivery_attempts
      → 1 ≤ policy.max_delivery_attempts
      → start_delivery_attempt event.event_id event.queue_state policy.max_delivery_attempts db
        ≡ ok (started_result, started_db db event (next_of db event))
  unfolding start_delivery_attempt
  start_returns present c n m =
      let s : (event.queue_state == event.queue_state) ≡ true =
        (state_iff event.queue_state event.queue_state).1 refl in
      let p0 : ltb policy.max_delivery_attempts 1 ≡ false = ground arith in
      let p3 : ltb policy.max_delivery_attempts (next_of db event) ≡ false = ground arith in
      rw (p0, present, s, c, p3, can_start-ok event.queue_state c)

module _ (policy : RetryPolicy) (report : DeliverySenderResult) (db : Database) where
  complete_returns :
      (event : RawRfidEvent) (attempt : DeliveryAttempt) (target : QueueState)
      → find_event event.event_id db.events ≡ some event
      → event.queue_state ≡ inflight
      → find? (is_at attempt.id event.event_id) db.attempts ≡ some attempt
      → attempt.outcome ≡ started
      → 1 ≤ attempt.attempt_number
      → IsSane policy
      → target_state report.outcome ≡ ok target
      → report_fits report ≡ true
      → (r : DeliveryAttemptCompletionResult) × (next : Option ℕ) × (complete_delivery_attempt
            event.event_id attempt.id report
            (some policy.retry_initial_seconds)
            (some policy.retry_max_seconds)
            db
          ≡ ok (r, completed_db db event target (completed attempt report db.now next)))
        × (r.outcome ≡ report.outcome)
        × (r.current_state ≡ target)
  unfolding complete_delivery_attempt
  complete_returns event attempt target present i given o n s t f =
      let (next, e) = next_retry_returns policy report.outcome attempt.attempt_number db.now s n in
      let pi : (event.queue_state == inflight) ≡ true =
        (state_iff event.queue_state inflight).1 i in
      let po : (attempt.outcome == started) ≡ true = (outcome_iff attempt.outcome started).1 o in
      let pv : validate_states event.queue_state target ≡ ok tt =
        rw i (inflight-ok report.outcome target t) in
      (
        record {
          event_id = event.event_id;
          attempt_id = attempt.id;
          attempt_number = attempt.attempt_number;
          outcome = report.outcome;
          previous_state = event.queue_state;
          current_state = target;
          completed_at = some db.now;
          next_retry_at = next;
        },
        next,
        rw (t, check_returns, present, pi, given, po, pv, e, f),
        refl,
        refl,
      )

settle_of :
    (policy : RetryPolicy) (event : RawRfidEvent) (report : DeliverySenderResult) (i : ℕ)
    (db : Database) {db' : Database} {r : DeliveryAttemptCompletionResult}
    → complete_delivery_attempt event.event_id i report
        (some policy.retry_initial_seconds)
        (some policy.retry_max_seconds)
        db
      ≡ ok (r, db')
    → settle policy event i report db ≡ (ok (single_result r), db')
unfolding settle
settle_of policy event report i db h = rw (h, settle)

-- The stored row of an event.
abbrev pub state_of : ℕ → Database → Option QueueState
state_of i db = Option.map (λ (e : RawRfidEvent). e.queue_state) (find_event i db.events)

module _ (policy : RetryPolicy) (send : Sender) (event : RawRfidEvent) (db : Database)
    (target : QueueState) where
  abbrev pub waiting_db : Database
  waiting_db = started_db db event (next_of db event)

  abbrev pub moved : RawRfidEvent
  moved = record event { queue_state = inflight }

  unfoldable pub attempt : DeliveryAttempt
  attempt = new_attempt db event.event_id (next_of db event)

  pub process-eq-settle :
      find_event event.event_id db.events ≡ some event
      → can_start event.queue_state ≡ true
      → 1 ≤ next_of db event
      → next_of db event ≤ policy.max_delivery_attempts
      → (send event waiting_db).1 ≡ waiting_db
      → process_delivery_candidate policy send event db
        ≡ settle policy event db.next_id (report_of (send event waiting_db).0) waiting_db
  unfolding process_delivery_candidate
  process-eq-settle present c pos n quiet =
      rw (start_returns policy event db present c n (omega arith), process_delivery_candidate)
        (rw quiet refl)

  pub is_waiting :
      find_event event.event_id db.events ≡ some event
      → find_event event.event_id waiting_db.events ≡ some moved
  is_waiting present = ground (arith, find_event-save_event event.event_id moved db.events)

  pub is_newest : find? (is_at db.next_id event.event_id) waiting_db.attempts ≡ some attempt
  unfolding attempt
  is_newest = ground arith

  is_moved :
      (later : Option ℕ)
      → find_event event.event_id db.events ≡ some event
      → state_of event.event_id (
          completed_db waiting_db moved target
            (completed attempt (report_of (send event waiting_db).0) waiting_db.now later))
        ≡ some target
  is_moved later present = ground (
    arith,
    is_waiting present,
    find_event-save_event event.event_id (record moved { queue_state = target }) waiting_db.events,
  )

  -- An event of the database that is queued or waits for a retry, with fewer attempts than the policy
  -- allows, is sent and settled, if the queue and the delivery log agree, the retry settings are sane,
  -- the database does not change while the sender works, the outcome that the sender reports, retry
  -- if it raises, has a queue state, and the response code and the kind of error that it reports fit
  -- their columns: the call returns with that outcome, and the event is in that state.
  pub process_settles :
      IsLogged db
      → IsSane policy
      → find_event event.event_id db.events ≡ some event
      → can_start event.queue_state ≡ true
      → length (numbers (attempts_of event.event_id db.attempts)) < policy.max_delivery_attempts
      → (send event waiting_db).1 ≡ waiting_db
      → target_state (report_of (send event waiting_db).0).outcome ≡ ok target
      → report_fits (report_of (send event waiting_db).0) ≡ true
      → (r : SingleEventDeliveryResult) × ((process_delivery_candidate policy send event db).0
          ≡ ok r)
        × (r.outcome ≡ (report_of (send event waiting_db).0).outcome)
        × (r.current_state ≡ target)
        × (state_of event.event_id (process_delivery_candidate policy send event db).1
            ≡ some target)
  unfolding attempt
  process_settles v s present c n quiet t f =
      let report = report_of (send event waiting_db).0 in
      let count =
        next-Countdown (attempts_of event.event_id db.attempts) (v.numbered event.event_id) in
      let (r, later, e, o, q) =
        complete_returns policy report waiting_db moved attempt target (is_waiting present) refl
          is_newest refl (omega (arith, count)) s t f in
      let done =
        process-eq-settle present c (omega (arith, count)) (omega (arith, count)) quiet
        ∙ settle_of policy event report db.next_id waiting_db e in
      (single_result r, rw done, o, q, rw done (is_moved later present))
