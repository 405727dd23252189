-- ===== src/Delivery/Cycle.antt =====
-- bridge_core/delivery_cycle.py: one event from the queue to its outcome, and a batch of them.
use rfid.Prelude.{
  ℕ, ◌+◌, String, Bool, false, ◌&&◌, ◌||◌, Option, none, some, List, [], ◌∷◌, length, take, filter,
  ltb, leb, ◌==◌, nat_eq, if◌then◌else◌,
}
use rfid.Result.{Result, ok, err, raise_if, ◌>>=◌, ◌>>◌}
use rfid.Models.{
  QueueState, queued, state_eq, Outcome, started, outcome_eq, unsupported_outcome, RawRfidEvent,
  DeliveryAttempt, Database, Exception, batch_size_low, max_attempts_low, retry_initial_low,
  retry_max_low,
}
use rfid.Delivery.Attempts.{
  attempts_of, latest, DeliverySenderResult, DeliveryAttemptCompletionResult,
  start_delivery_attempt, complete_delivery_attempt,
}

-- `latest_next_retry_at__lte=now`; a missing time is not before anything.
abbrev pub is_due : ℕ → Option ℕ → Bool
is_due now none = false
is_due now (some t) = leb t now

-- `latest_attempt_outcome=RETRY, latest_next_retry_at__lte=now`, over the latest attempt.
abbrev pub retry_is_due : ℕ → Option DeliveryAttempt → Bool
retry_is_due now none = false
retry_is_due now (some a) = a.outcome == Outcome.retry && is_due now a.next_retry_at

-- The filter of `select_delivery_candidates`.
unfoldable pub is_candidate : Database → ℕ → RawRfidEvent → Bool
is_candidate db now e =
    e.queue_state == queued
    || e.queue_state == QueueState.retry
      && retry_is_due now (latest (attempts_of e.event_id db.attempts))

-- `order_by("received_at", "id")`
unfoldable pub is_before : RawRfidEvent → RawRfidEvent → Bool
is_before a b =
    ltb a.received_at b.received_at || a.received_at == b.received_at && leb a.event_id b.event_id

unfoldable pub insert_by_arrival : RawRfidEvent → List RawRfidEvent → List RawRfidEvent
insert_by_arrival e [] = e ∷ []
insert_by_arrival e (x ∷ xs) = if is_before e x then e ∷ x ∷ xs else x ∷ insert_by_arrival e xs

unfoldable pub by_arrival : List RawRfidEvent → List RawRfidEvent
unfolding insert_by_arrival is_before
by_arrival [] = []
by_arrival (e ∷ es) = insert_by_arrival e (by_arrival es)

unfoldable pub select_delivery_candidates : ℕ → ℕ → Database → Result Exception (List RawRfidEvent)
select_delivery_candidates batch_size now db = do
  raise_if (ltb batch_size 1) batch_size_low
  ok (take batch_size (by_arrival (filter (is_candidate db now) db.events)))

-- An exception that a sender raises: `type(exc).__name__` and `str(exc)`.
pub record Raised : Type 0 where
  pub type_name : String
  pub text : String

-- `sender_backend.send_event`. The database beside its answer is the one that other processes leave
-- while the sender waits.
abbrev pub Sender : Type 0
Sender = RawRfidEvent → Database → Result Raised DeliverySenderResult × Database

-- An exception of the sender is a retry.
abbrev pub report_of : Result Raised DeliverySenderResult → DeliverySenderResult
report_of (ok report) = report
report_of (err exc) = record {
  outcome = Outcome.retry;
  response_code = "";
  error_kind = exc.type_name;
  detail = exc.text;
}

pub record SingleEventDeliveryResult : Type 0 where
  pub event_id : ℕ
  pub attempt_id : ℕ
  pub attempt_number : ℕ
  pub outcome : Outcome
  pub current_state : QueueState
  pub next_retry_at : Option ℕ

abbrev pub single_result : DeliveryAttemptCompletionResult → SingleEventDeliveryResult
single_result r = record {
  event_id = r.event_id;
  attempt_id = r.attempt_id;
  attempt_number = r.attempt_number;
  outcome = r.outcome;
  current_state = r.current_state;
  next_retry_at = r.next_retry_at;
}

-- The settings that the cycles are given.
pub record RetryPolicy : Type 0 where
  pub max_delivery_attempts : ℕ
  pub retry_initial_seconds : ℕ
  pub retry_max_seconds : ℕ

-- What follows the answer of the sender: the second transaction.
unfoldable pub settle :
    RetryPolicy
    → RawRfidEvent
    → ℕ
    → DeliverySenderResult
    → Database
    → Result Exception SingleEventDeliveryResult × Database
settle policy event attempt_id report db =
    elim (complete_delivery_attempt event.event_id attempt_id report
      (some policy.retry_initial_seconds) (some policy.retry_max_seconds) db) [
        | err e ↦ (err e, db)
        | ok (r, db') ↦ (ok (single_result r), db')
      ]

-- Two transactions with the network between them: if the second raises, the first stays.
unfoldable pub process_delivery_candidate :
    RetryPolicy
    → Sender
    → RawRfidEvent
    → Database
    → Result Exception SingleEventDeliveryResult × Database
unfolding settle
process_delivery_candidate policy send event db =
    elim (start_delivery_attempt event.event_id event.queue_state policy.max_delivery_attempts db) [
      | err e ↦ (err e, db)
      | ok (r, db1) ↦
          let (answer, db2) = send event db1 in
          settle policy event r.attempt_id (report_of answer) db2
    ]

-- The counters of a batch.
pub record Counters : Type 0 where
  pub processed : ℕ
  pub sent : ℕ
  pub retry : ℕ
  pub rejected : ℕ
  pub dead : ℕ
  pub failed : ℕ

abbrev pub no_counts : Counters
no_counts = record { processed = 0; sent = 0; retry = 0; rejected = 0; dead = 0; failed = 0 }

abbrev pub raised : Counters → Counters
raised c = record c { failed = c.failed + 1 }

-- The outcome of a processed event in the counters, by either cycle. `other` is what the cycle does
-- with an outcome that it has no counter for.
unfoldable pub count_outcome :
    Result Exception Counters → Outcome → Counters → Result Exception Counters
count_outcome other started c = other
count_outcome other Outcome.sent c =
    ok (record c { processed = c.processed + 1; sent = c.sent + 1 })
count_outcome other Outcome.retry c =
    ok (record c { processed = c.processed + 1; retry = c.retry + 1 })
count_outcome other Outcome.rejected c =
    ok (record c { processed = c.processed + 1; rejected = c.rejected + 1 })
count_outcome other Outcome.dead c =
    ok (record c { processed = c.processed + 1; dead = c.dead + 1 })

-- `raise ValueError` in the one cycle, `counters["failed"] += 1` in the other.
abbrev pub refuse_other : Outcome → Counters → Result Exception Counters
refuse_other o c = err (unsupported_outcome o)

abbrev pub count_other : Outcome → Counters → Result Exception Counters
count_other o c = ok (record c { processed = c.processed + 1; failed = c.failed + 1 })

-- `for event in candidates`, with the handler for `except Exception`.
unfoldable pub deliver :
    (Outcome → Counters → Result Exception Counters)
    → RetryPolicy
    → Sender
    → List RawRfidEvent
    → Counters
    → Database
    → Result Exception Counters × Database
deliver other policy send [] c db = (ok c, db)
deliver other policy send (e ∷ es) c db =
    let (answer, db') = process_delivery_candidate policy send e db in
    elim answer [
      | err exc ↦ deliver other policy send es (raised c) db'
      | ok r ↦ elim (count_outcome (other r.outcome c) r.outcome c) [
        | err exc ↦ (err exc, db')
        | ok c' ↦ deliver other policy send es c' db'
      ]
    ]

-- `run_batch_delivery_cycle`: the number of selected events, and the counters.
unfoldable pub run_batch_delivery_cycle :
    ℕ → RetryPolicy → Sender → Database → Result Exception (ℕ × Counters) × Database
run_batch_delivery_cycle batch_size policy send db =
    elim (do
      raise_if (ltb batch_size 1) batch_size_low
      raise_if (ltb policy.max_delivery_attempts 1) max_attempts_low
      raise_if (ltb policy.retry_initial_seconds 1) retry_initial_low
      raise_if (ltb policy.retry_max_seconds policy.retry_initial_seconds) retry_max_low
      select_delivery_candidates batch_size db.now db) [
        | err e ↦ (err e, db)
        | ok candidates ↦
            let (answer, db') = deliver refuse_other policy send candidates no_counts db in
            (answer >>= (λ c. ok (length candidates, c)), db')
      ]
