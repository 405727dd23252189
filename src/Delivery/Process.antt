-- ===== src/Delivery/Process.antt =====
-- One candidate, from its start to its outcome.
use rfid.Prelude.{ℕ, inl, inr, some, List, [], ◌∷◌, nat_eq}
use rfid.Result.{Result, Result-cases}
use rfid.Models.{state_eq, Outcome, outcome_eq, RawRfidEvent, Database, Exception}
use rfid.Models.Orm.{after}
use rfid.Delivery.Attempts.{DeliverySenderResult, start_delivery_attempt, complete_delivery_attempt}
use rfid.Delivery.Log.{IsLogged, IsBounded}
use rfid.Delivery.Start.{start-IsLogged, start-IsBounded}
use rfid.Delivery.Complete.{complete-IsLogged, complete-IsBounded}
use rfid.Delivery.Cycle.{
  Sender, RetryPolicy, report_of, settle, process_delivery_candidate, deliver, Counters, raised,
  count_outcome,
}

-- What other processes do to the database while a sender waits keeps `P`.
abbrev pub Keeps : (Database → Type 0) → Sender → Type 0
Keeps P send = (e : RawRfidEvent) (db : Database) → P db → P (send e db).1

module _ (policy : RetryPolicy) (P : Database → Type 0) where
  abbrev Starting : Type 0
  Starting =
      (e : RawRfidEvent) (db : Database)
      → P db
      → P (
          after (start_delivery_attempt e.event_id e.queue_state policy.max_delivery_attempts db)
            db)

  abbrev Completing : Type 0
  Completing =
      (e : RawRfidEvent) (i : ℕ) (report : DeliverySenderResult) (db : Database)
      → P db
      → P (
          after
            (complete_delivery_attempt e.event_id i report (some policy.retry_initial_seconds)
              (some policy.retry_max_seconds) db)
            db)

  settle_keeps :
      Completing
      → (e : RawRfidEvent) (i : ℕ) (report : DeliverySenderResult) (db : Database) → P db
      → P (settle policy e i report db).1
  unfolding settle
  settle_keeps c e i report db h =
      elim (Result-cases (
        complete_delivery_attempt e.event_id i report (some policy.retry_initial_seconds)
          (some policy.retry_max_seconds) db)) [
            | inl (r, p) ↦ let h' = c e i report db h in rw (p, settle) (rw p at h')
            | inr (x, p) ↦ rw (p, settle) h
          ]

  -- What both transactions and the other processes keep, a processed candidate keeps.
  pub process_keeps :
      Starting
      → Completing
      → (send : Sender) → Keeps P send
      → (e : RawRfidEvent) (db : Database) → P db
      → P (process_delivery_candidate policy send e db).1
  unfolding process_delivery_candidate
  process_keeps s c send k e db h =
      elim (Result-cases
        (start_delivery_attempt e.event_id e.queue_state policy.max_delivery_attempts db)) [
          | inl ((r, db1), p) ↦
              let h' = s e db h in
              rw (p, process_delivery_candidate)
                (settle_keeps c e r.attempt_id (report_of (send e db1).0) (send e db1).1
                  (k e db1 (rw p at h')))
          | inr (x, p) ↦ rw (p, process_delivery_candidate) h
        ]

-- The queue and the delivery log agree, and no event has had more attempts than the policy allows.
pub record IsSound (policy : RetryPolicy) (db : Database) : Type 0 where
  pub logged : IsLogged db
  pub bounded : IsBounded policy.max_delivery_attempts db

-- If the queue and the delivery log agree and no event has had more attempts than the policy allows,
-- this is so after a candidate is processed, with any sender that keeps it so, whatever it answers,
-- and whether the call returns or raises.
pub process-IsSound :
    (policy : RetryPolicy) (send : Sender)
    → Keeps (IsSound policy) send
    → (e : RawRfidEvent) (db : Database) → IsSound policy db
    → IsSound policy (process_delivery_candidate policy send e db).1
process-IsSound policy =
    process_keeps policy (IsSound policy)
      (λ e db v. record {
        logged = start-IsLogged e.event_id e.queue_state policy.max_delivery_attempts db v.logged;
        bounded =
            start-IsBounded e.event_id e.queue_state policy.max_delivery_attempts db v.logged
              v.bounded;
      })
      (λ e i report db v. record {
        logged =
            complete-IsLogged e.event_id i report (some policy.retry_initial_seconds)
              (some policy.retry_max_seconds) db v.logged;
        bounded =
            complete-IsBounded e.event_id i report (some policy.retry_initial_seconds)
              (some policy.retry_max_seconds) db v.logged v.bounded;
      })

pub deliver-IsSound :
    (other : Outcome → Counters → Result Exception Counters) (policy : RetryPolicy) (send : Sender)
    → Keeps (IsSound policy) send
    → (es : List RawRfidEvent) (c : Counters) (db : Database) → IsSound policy db
    → IsSound policy (deliver other policy send es c db).1
unfolding deliver
deliver-IsSound other policy send k [] c db v = v
deliver-IsSound other policy send k (e ∷ es) c db v =
    let v' = process-IsSound policy send k e db v in
    elim (Result-cases (process_delivery_candidate policy send e db).0) [
      | inr (x, p) ↦ rw (p, deliver) (deliver-IsSound other policy send k es (raised c) _ v')
      | inl (r, p) ↦ elim (Result-cases (count_outcome (other r.outcome c) r.outcome c)) [
        | inr (x, q) ↦ rw (p, deliver) (rw (q, deliver) v')
        | inl (c', q) ↦
            rw (p, deliver) (rw (q, deliver) (deliver-IsSound other policy send k es c' _ v'))
      ]
    ]
