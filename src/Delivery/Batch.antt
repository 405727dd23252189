-- ===== src/Delivery/Batch.antt =====
-- A whole batch: it never raises once its settings are accepted, and its counters lose no event.
use rfid.Prelude.{
  ℕ, ◌+◌, ◌≤◌, ◌≡◌, ◌≢◌, refl, sym, ◌∙◌, inl, inr, false, Option, some, List, [], ◌∷◌, length, take,
  ltb, nat_eq, arith, Option-cases, find?, length-take, filter,
}
use rfid.Result.{Result, ok, Result-cases}
use rfid.Models.{Outcome, started, outcome_eq, RawRfidEvent, Database, Exception}
use rfid.Models.Orm.{find_event}
use rfid.Delivery.Attempts.{
  target_state, next_retry_time, start_delivery_attempt, complete_delivery_attempt,
  DeliverySenderResult, DeliveryAttemptCompletionResult,
}
use rfid.Delivery.Cycle.{
  Sender, report_of, RetryPolicy, SingleEventDeliveryResult, settle, process_delivery_candidate,
  Counters, no_counts, raised, count_outcome, refuse_other, deliver, run_batch_delivery_cycle,
  select_delivery_candidates, is_candidate, by_arrival,
}
use rfid.Delivery.Log.{is_at}
use rfid.Delivery.Settle.{IsSane}

-- A completion returns the outcome that was reported, and never `STARTED`.
complete-outcome :
    (event_id attempt_id : ℕ) (report : DeliverySenderResult) (initial maximum : Option ℕ)
    (db : Database) {r : DeliveryAttemptCompletionResult} {db' : Database}
    → complete_delivery_attempt event_id attempt_id report initial maximum db ≡ ok (r, db')
    → r.outcome ≢ started
unfolding complete_delivery_attempt target_state
complete-outcome event_id attempt_id report initial maximum db h =
    elim (Option-cases (find_event event_id db.events)) [
      | inl missing ↦ ground arith
      | inr (event, present) ↦
          elim (Option-cases (find? (is_at attempt_id event.event_id) db.attempts)) [
            | inl missing ↦ ground arith
            | inr (attempt, given) ↦
                elim (Result-cases
                  (next_retry_time report.outcome attempt.attempt_number db.now initial maximum)) [
                    | inr (x, e) ↦ ground arith
                    | inl (next, n) ↦ ground arith
                  ]
          ]
    ]

settle-outcome :
    (policy : RetryPolicy) (event : RawRfidEvent) (i : ℕ) (report : DeliverySenderResult)
    (db : Database) {r : SingleEventDeliveryResult}
    → (settle policy event i report db).0 ≡ ok r
    → r.outcome ≢ started
unfolding settle
settle-outcome policy event i report db {r} h =
    elim (Result-cases (
      complete_delivery_attempt event.event_id i report (some policy.retry_initial_seconds)
        (some policy.retry_max_seconds) db)) [
          | inr (x, e) ↦ absurd (ground arith)
          | inl ((c, db'), e) ↦
              let out =
                complete-outcome event.event_id i report (some policy.retry_initial_seconds)
                  (some policy.retry_max_seconds) db e in
              λ s. out (ground arith)
        ]

process-outcome :
    (policy : RetryPolicy) (send : Sender) (event : RawRfidEvent) (db : Database)
    {r : SingleEventDeliveryResult}
    → (process_delivery_candidate policy send event db).0 ≡ ok r
    → r.outcome ≢ started
unfolding process_delivery_candidate
process-outcome policy send event db {r} h =
    elim (Result-cases
      (start_delivery_attempt event.event_id event.queue_state policy.max_delivery_attempts db)) [
        | inr (x, e) ↦ absurd (ground arith)
        | inl ((s, db1), e) ↦
            let settled : (process_delivery_candidate policy send event db).0
                ≡ (settle policy event s.attempt_id (report_of (send event db1).0)
                    (send event db1).1).0 =
              rw (e, process_delivery_candidate) refl in
            settle-outcome policy event s.attempt_id (report_of (send event db1).0)
              (send event db1).1 {r = r} (sym settled ∙ h)
      ]

-- The counters of a batch agree with each other.
abbrev pub Agree : Counters → Type 0
Agree c = c.processed ≡ c.sent + c.retry + c.rejected + c.dead

count-returns :
    (other : Result Exception Counters) (o : Outcome) (c : Counters)
    → o ≢ started
    → (c' : Counters) × (count_outcome other o c ≡ ok c')
      × (c'.processed + c'.failed ≡ c.processed + c.failed + 1)
      × (Agree c → Agree c')
unfolding count_outcome
count-returns other started c n = absurd (n refl)
count-returns other Outcome.sent c n = (_, refl, omega arith, λ a. omega (arith, a))
count-returns other Outcome.retry c n = (_, refl, omega arith, λ a. omega (arith, a))
count-returns other Outcome.rejected c n = (_, refl, omega arith, λ a. omega (arith, a))
count-returns other Outcome.dead c n = (_, refl, omega arith, λ a. omega (arith, a))

-- Every event of a batch is counted once, and no exception leaves the loop.
pub deliver-returns :
    (other : Outcome → Counters → Result Exception Counters) (policy : RetryPolicy) (send : Sender)
    (es : List RawRfidEvent) (c : Counters) (db : Database)
    → (c' : Counters) × ((deliver other policy send es c db).0 ≡ ok c')
      × (c'.processed + c'.failed ≡ c.processed + c.failed + length es)
      × (Agree c → Agree c')
unfolding deliver
deliver-returns other policy send [] c db = (c, refl, omega arith, λ a. a)
deliver-returns other policy send (e ∷ es) c db =
    elim (Result-cases (process_delivery_candidate policy send e db).0) [
      | inr (x, p) ↦
          let (c', h, n, a) =
            deliver-returns other policy send es (raised c)
              (process_delivery_candidate policy send e db).1 in
          (c', rw (p, deliver) h, omega (arith, n), a)
      | inl (r, p) ↦
          let (c1, q, n1, a1) =
            count-returns (other r.outcome c) r.outcome c (process-outcome policy send e db p) in
          let (c', h, n, a) =
            deliver-returns other policy send es c1
              (process_delivery_candidate policy send e db).1 in
          (c', rw (p, deliver) (rw (q, deliver) h), omega (arith, n, n1), λ k. a (a1 k))
    ]

-- A batch cycle with a batch size, an attempt bound and retry settings that are accepted returns,
-- whatever the sender does: it selects no more events than the batch size, counts each of them as
-- processed or failed, and each processed one as sent, retried, rejected or dead.
pub run_batch-returns :
    (batch_size : ℕ) (policy : RetryPolicy) (send : Sender) (db : Database)
    → 1 ≤ batch_size
    → 1 ≤ policy.max_delivery_attempts
    → IsSane policy
    → (n : ℕ) × (c : Counters) × ((run_batch_delivery_cycle batch_size policy send db).0
        ≡ ok (n, c))
      × (n ≤ batch_size)
      × (c.processed + c.failed ≡ n)
      × (c.processed ≡ c.sent + c.retry + c.rejected + c.dead)
unfolding run_batch_delivery_cycle select_delivery_candidates
run_batch-returns batch_size policy send db b m s =
    let es = take batch_size (by_arrival (filter (is_candidate db db.now) db.events)) in
    let (c, h, n, a) = deliver-returns refuse_other policy send es no_counts db in
    let b1 : ltb batch_size 1 ≡ false = ground arith in
    let b2 : ltb policy.max_delivery_attempts 1 ≡ false = ground arith in
    let b3 : ltb policy.retry_initial_seconds 1 ≡ false = ground (arith, s.initial) in
    let b4 : ltb policy.retry_max_seconds policy.retry_initial_seconds ≡ false =
      ground (arith, s.maximum) in
    let size = length-take batch_size (by_arrival (filter (is_candidate db db.now) db.events)) in
    (length es, c, ground (arith, b1, b2, b3, b4, h), omega (arith, size), omega (arith, n), a refl)
