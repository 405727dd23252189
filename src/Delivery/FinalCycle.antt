-- ===== src/Delivery/FinalCycle.antt =====
-- The whole `run_final_delivery_cycle` of bridge_core/final_delivery_cycle.py.
use rfid.Prelude.{
  ℕ, ◌+◌, ◌≤◌, ◌≡◌, ◌≢◌, refl, inl, inr, String, Bool, false, ◌&&◌, List, take, filter, length,
  length-take, ltb, ◌==◌, nat_eq, string_eq, arith, Bool-cases,
}
use rfid.Prelude.Text.{strip}
use rfid.Result.{Result, ok, err}
use rfid.Models.{RawRfidEvent, Database, Exception}
use rfid.Delivery.Log.{IsLogged}
use rfid.Delivery.Cycle.{
  Sender, RetryPolicy, Counters, no_counts, count_other, deliver, is_candidate, by_arrival,
}
use rfid.Delivery.Process.{Keeps, IsSound, deliver-IsSound}
use rfid.Delivery.Batch.{deliver-returns}
use rfid.Delivery.Final.{
  is_final_for, is_cancelled_event, is_exhausted_event, select_final_delivery_candidates,
  dead_letter_cancelled_session_final_events, dead_letter_exhausted_final_events,
  FinalDeliveryCycleResult, counted, deliver_selected, behind_exhausted, behind_cancelled,
  run_final_delivery_cycle,
}
use rfid.Delivery.Burial.{
  Emptied, queried-Emptied, queried-IsLogged, cancelled-test, exhausted-test, cancelled-Emptied,
  exhausted-Emptied,
}
use text.Mathlib.TextEquality.{eq_iff}

Emptied-IsSound :
    {policy : RetryPolicy} {test : RawRfidEvent → Bool} {db db' : Database}
    → IsSound policy db
    → Emptied test db db'
    → IsLogged db'
    → IsSound policy db'
Emptied-IsSound v e l = record { logged = l; bounded = λ i. rw e.same_attempts (v.bounded i) }

module _ (policy : RetryPolicy) (reader_code : String) where
  cancelled-IsSound :
      (db : Database)
      → IsSound policy db
      → IsSound policy (dead_letter_cancelled_session_final_events reader_code db).1
  unfolding dead_letter_cancelled_session_final_events
  cancelled-IsSound db v = elim (Bool-cases (strip reader_code == "")) [
    | inl e ↦ rw e v
    | inr e ↦
        let test = is_cancelled_event db (strip reader_code) in
        let both = cancelled-test db (strip reader_code) in
        rw e (
          Emptied-IsSound v (queried-Emptied test db both).2
            (queried-IsLogged test db both v.logged))
  ]

  exhausted-IsSound :
      (db : Database)
      → IsSound policy db
      → IsSound policy
          (dead_letter_exhausted_final_events reader_code policy.max_delivery_attempts db).1
  unfolding dead_letter_exhausted_final_events
  exhausted-IsSound db v = elim (Bool-cases (ltb policy.max_delivery_attempts 1)) [
    | inl m ↦ rw m v
    | inr m ↦ elim (Bool-cases (strip reader_code == "")) [
      | inl e ↦ rw (m, e) v
      | inr e ↦
          let test = is_exhausted_event db (strip reader_code) policy.max_delivery_attempts in
          let both = exhausted-test db (strip reader_code) policy.max_delivery_attempts in
          rw (m, e)
            (Emptied-IsSound v (queried-Emptied test db both).2
              (queried-IsLogged test db both v.logged))
    ]
  ]

  module _ (batch_size : ℕ) (send : Sender) (keeps : Keeps (IsSound policy) send) where
    counted-IsSound :
        (n exhausted : ℕ) (r : Result Exception Counters × Database)
        → IsSound policy r.1
        → IsSound policy (counted n exhausted r).1
    counted-IsSound n exhausted (ok c, db) v = v
    counted-IsSound n exhausted (err e, db) v = v

    selected-IsSound :
        (exhausted : ℕ) (r : Result Exception (List RawRfidEvent)) (db : Database)
        → IsSound policy db
        → IsSound policy (deliver_selected policy send exhausted r db).1
    selected-IsSound exhausted (ok es) db v =
        counted-IsSound (length es) exhausted _
          (deliver-IsSound count_other policy send keeps es no_counts db v)
    selected-IsSound exhausted (err e) db v = v

    exhausted_then-IsSound :
        (r : Result Exception ℕ × Database)
        → IsSound policy r.1
        → IsSound policy (behind_exhausted reader_code batch_size policy send r).1
    exhausted_then-IsSound (ok n, db) v =
        selected-IsSound n (select_final_delivery_candidates reader_code batch_size db.now db) db v
    exhausted_then-IsSound (err e, db) v = v

    cancelled_then-IsSound :
        (r : Result Exception ℕ × Database)
        → IsSound policy r.1
        → IsSound policy (behind_cancelled reader_code batch_size policy send r).1
    cancelled_then-IsSound (ok n, db) v = exhausted_then-IsSound _ (exhausted-IsSound db v)
    cancelled_then-IsSound (err e, db) v = v

    -- If the queue and the delivery log agree and no event has had more attempts than the policy
    -- allows, this is so after a final delivery cycle, whatever its arguments are, with any sender
    -- that keeps it so, whatever it answers, and whether the cycle returns or raises.
    pub run_final-IsSound :
        (db : Database)
        → IsSound policy db
        → IsSound policy (run_final_delivery_cycle send reader_code batch_size policy db).1
    unfolding run_final_delivery_cycle
    run_final-IsSound db v = elim (Bool-cases (ltb policy.max_delivery_attempts 1)) [
      | inl m ↦ rw m v
      | inr m ↦ rw m (cancelled_then-IsSound _ (cancelled-IsSound db v))
    ]

-- The parts of a cycle whose steps return.
behind_cancelled-ok :
    (reader_code : String) (batch_size : ℕ) (policy : RetryPolicy) (send : Sender)
    (r : Result Exception ℕ × Database) {n : ℕ}
    → r.0 ≡ ok n
    → behind_cancelled reader_code batch_size policy send r
      ≡ behind_exhausted reader_code batch_size policy send
          (dead_letter_exhausted_final_events reader_code policy.max_delivery_attempts r.1)
behind_cancelled-ok reader_code batch_size policy send (ok m, db) h = refl
behind_cancelled-ok reader_code batch_size policy send (err e, db) h = cc

behind_exhausted-ok :
    (reader_code : String) (batch_size : ℕ) (policy : RetryPolicy) (send : Sender)
    (r : Result Exception ℕ × Database) {n : ℕ}
    → r.0 ≡ ok n
    → behind_exhausted reader_code batch_size policy send r
      ≡ deliver_selected policy send n
          (select_final_delivery_candidates reader_code batch_size r.1.now r.1)
          r.1
behind_exhausted-ok reader_code batch_size policy send (ok m, db) {n} h =
    let same : m ≡ n = ground arith in rw same refl
behind_exhausted-ok reader_code batch_size policy send (err e, db) h = cc

counted-ok :
    (n exhausted : ℕ) (r : Result Exception Counters × Database) {c : Counters}
    → r.0 ≡ ok c
    → (counted n exhausted r).0
      ≡ ok (record { selected_count = n; counters = c; exhausted_dead_count = exhausted })
counted-ok n exhausted (ok c, db) h = ground arith
counted-ok n exhausted (err e, db) h = cc

-- The selection of a named reader's events returns no more than the batch size.
select-returns :
    (reader_code : String) (batch_size now : ℕ) (db : Database)
    → strip reader_code ≢ ""
    → 1 ≤ batch_size
    → (es : List RawRfidEvent) × (select_final_delivery_candidates reader_code batch_size now db
        ≡ ok es)
      × (length es ≤ batch_size)
unfolding select_final_delivery_candidates
select-returns reader_code batch_size now db n b =
    let given : (strip reader_code == "") ≡ false = ground (arith, eq_iff (strip reader_code) "") in
    let large : ltb batch_size 1 ≡ false = ground arith in
    let found =
      by_arrival
        (filter (λ e. is_final_for db (strip reader_code) e && is_candidate db now e) db.events) in
    (take batch_size found, rw (given, large) refl, omega (arith, length-take batch_size found))

-- A final delivery cycle for a named reader, with a positive batch size and attempt bound, returns,
-- whatever the sender does and whatever the retry settings are: it selects no more events than the
-- batch size, counts each of them as processed or failed, and each processed one as sent, retried,
-- rejected or dead.
pub run_final-returns :
    (send : Sender) (reader_code : String) (batch_size : ℕ) (policy : RetryPolicy) (db : Database)
    → strip reader_code ≢ ""
    → 1 ≤ batch_size
    → 1 ≤ policy.max_delivery_attempts
    → (r : FinalDeliveryCycleResult) × ((run_final_delivery_cycle send reader_code batch_size policy
          db).0
        ≡ ok r)
      × (r.selected_count ≤ batch_size)
      × (r.counters.processed + r.counters.failed ≡ r.selected_count)
      × (r.counters.processed
          ≡ r.counters.sent + r.counters.retry + r.counters.rejected + r.counters.dead)
unfolding run_final_delivery_cycle
run_final-returns send reader_code batch_size policy db n b m =
    let cancelled = dead_letter_cancelled_session_final_events reader_code db in
    let exhausted =
      dead_letter_exhausted_final_events reader_code policy.max_delivery_attempts cancelled.1 in
    let (n1, e1, _) = cancelled-Emptied reader_code db n in
    let (n2, e2, _) = exhausted-Emptied reader_code policy.max_delivery_attempts cancelled.1 n m in
    let (es, e3, short) = select-returns reader_code batch_size exhausted.1.now exhausted.1 n b in
    let (c, e4, total, agree) = deliver-returns count_other policy send es no_counts exhausted.1 in
    let positive : ltb policy.max_delivery_attempts 1 ≡ false = ground arith in
    (
      record { selected_count = length es; counters = c; exhausted_dead_count = n2 },
      rw
          (
            positive,
            behind_cancelled-ok reader_code batch_size policy send cancelled e1,
            behind_exhausted-ok reader_code batch_size policy send exhausted e2,
            e3,
          )
          (counted-ok (length es) n2 (deliver count_other policy send es no_counts exhausted.1) e4),
      short,
      omega (arith, total),
      agree refl,
    )
