-- ===== src/Delivery/Burial.antt =====
-- What `bury` of bridge_core/final_delivery_cycle.py and the two functions that call it leave behind.
use rfid.Prelude.{
  ℕ, ◌+◌, ◌≤◌, ◌≡◌, ◌≢◌, refl, ◌∙◌, inl, inr, subst, String, Bool, true, false, ltb, none, some,
  List, [], ◌∷◌, ◌==◌, nat_eq, string_eq, arith, filter, Bool-cases,
}
use rfid.Prelude.Text.{strip}
use rfid.Result.{Result, ok, err, Result-cases}
use rfid.Models.{QueueState, state_eq, state_iff, RawRfidEvent, Database, Exception}
use rfid.Models.Orm.{find_event}
use rfid.Queue.{transition_event_queue_state}
use rfid.Delivery.Log.{IsLogged}
use rfid.Delivery.Attempts.{can_start}
use rfid.Delivery.Final.{
  is_value_error, one_more, bury, identified, is_cancelled_event, is_exhausted_event,
  dead_letter_cancelled_session_final_events, dead_letter_exhausted_final_events,
}
use rfid.Delivery.Bury.{
  Covers, Present, identified-Covers, waiting-moves, present-is_value_error, Buried,
  transition-Buried, Buried-Present, Buried-Covers, Buried-IsLogged,
}
use text.Mathlib.TextEquality.{eq_iff}

-- No event passes the test, and only the events have changed.
pub record Emptied (test : RawRfidEvent → Bool) (db db' : Database) : Type 0 where
  pub none_left : (i : ℕ) (e : RawRfidEvent) → find_event i db'.events ≡ some e → test e ≡ false
  pub same_attempts : db'.attempts ≡ db.attempts
  pub same_sessions : db'.sessions ≡ db.sessions
  pub same_devices : db'.devices ≡ db.devices

one_more-returns :
    (r : Result Exception ℕ × Database) {n : ℕ} → r.0 ≡ ok n → (one_more r).0 ≡ ok (n + 1)
one_more-returns (ok m, db) h = ground arith
one_more-returns (err e, db) h = cc

one_more-db : (r : Result Exception ℕ × Database) → (one_more r).1 ≡ r.1
one_more-db (ok m, db) = refl
one_more-db (err e, db) = refl

Buried-rows :
    {i : ℕ} {s : QueueState} {db db' : Database}
    → Buried i s db db'
    → (db'.attempts ≡ db.attempts) × (db'.sessions ≡ db.sessions) × (db'.devices ≡ db.devices)
Buried-rows b = rw b.rows (refl, refl, refl)

module _ (test : RawRfidEvent → Bool)
    (dead_fails : (e : RawRfidEvent) → e.queue_state ≡ QueueState.dead → test e ≡ false) where
  -- A transition that raised shows that its event does not pass the test any more.
  skipped :
      (i : ℕ) (s : QueueState) (rest : List (ℕ × QueueState)) (db : Database) {x : Exception}
      → can_start s ≡ true
      → transition_event_queue_state i s QueueState.dead db ≡ err x
      → Covers test ((i, s) ∷ rest) db
      → Covers test rest db
  skipped i s rest db {x} w h c j e f t = elim (c j e f t) [
    | inl (k, u) ↦
        let here = subst (λ m. find_event m db.events ≡ some e) k f in
        absurd (waiting-moves i s db here u w h)
    | inr later ↦ later
  ]

  nothing_left :
      (db : Database) (i : ℕ) (e : RawRfidEvent)
      → Covers test [] db
      → find_event i db.events ≡ some e
      → test e ≡ false
  nothing_left db i e c h = elim (Bool-cases (test e)) [ inl t ↦ absurd (c i e h t) | inr f ↦ f ]

  bury-step-ok :
      (i : ℕ) (s : QueueState) (rest : List (ℕ × QueueState)) (db db1 : Database) {r : _}
      → transition_event_queue_state i s QueueState.dead db ≡ ok (r, db1)
      → bury ((i, s) ∷ rest) db ≡ one_more (bury rest db1)
  unfolding bury
  bury-step-ok i s rest db db1 h = rw (h, bury) refl

  bury-step-err :
      (i : ℕ) (s : QueueState) (rest : List (ℕ × QueueState)) (db : Database) {x : Exception}
      → transition_event_queue_state i s QueueState.dead db ≡ err x
      → is_value_error x ≡ true
      → bury ((i, s) ∷ rest) db ≡ bury rest db
  unfolding bury
  bury-step-err i s rest db h v = rw (h, bury) (rw v refl)

  pub bury-Emptied :
      (selected : List (ℕ × QueueState)) (db : Database)
      → Present selected db
      → Covers test selected db
      → (n : ℕ) × ((bury selected db).0 ≡ ok n) × Emptied test db (bury selected db).1
  unfolding bury
  bury-Emptied [] db p c = (
    0,
    refl,
    record {
      none_left = λ i e h. nothing_left db i e c h;
      same_attempts = refl;
      same_sessions = refl;
      same_devices = refl;
    },
  )
  bury-Emptied ((i, s) ∷ rest) db (n, w, p) c =
      elim (Result-cases (transition_event_queue_state i s QueueState.dead db)) [
        | inr (x, h) ↦
            let v = present-is_value_error i s db n h in
            rw (bury-step-err i s rest db h v) (bury-Emptied rest db p (skipped i s rest db w h c))
        | inl ((r, db1), h) ↦
            let b = transition-Buried i s db h in
            let (m, e, left) =
              bury-Emptied rest db1 (Buried-Present b rest p)
                (Buried-Covers b test rest dead_fails c) in
            let rows = Buried-rows b in
            rw (bury-step-ok i s rest db db1 h, one_more-db (bury rest db1))
              (
                m + 1,
                one_more-returns (bury rest db1) e,
                record {
                  none_left = left.none_left;
                  same_attempts = left.same_attempts ∙ rows.0;
                  same_sessions = left.same_sessions ∙ rows.1;
                  same_devices = left.same_devices ∙ rows.2;
                },
              )
      ]

-- The selected events are in the database.
identified-Present :
    (test : RawRfidEvent → Bool) (db : Database) (events : List RawRfidEvent)
    → ((e : RawRfidEvent) → test e ≡ true → can_start e.queue_state ≡ true)
    → ((j : ℕ) → find_event j events ≢ none → find_event j db.events ≢ none)
    → Present (identified (filter test events)) db
identified-Present test db [] w sub = tt
identified-Present test db (x ∷ events) w sub =
    let rest = identified-Present test db events w (λ j n. sub j (λ e. n (ground arith))) in
    elim (Bool-cases (test x)) [
      | inl t ↦ rw t (sub x.event_id (λ e. ground arith), w x t, rest)
      | inr t ↦ rw t rest
    ]

-- Burying keeps the queue and the log in agreement, and adds no attempt.
bury-Logged :
    (selected : List (ℕ × QueueState)) (db : Database)
    → Present selected db
    → IsLogged db
    → IsLogged (bury selected db).1
unfolding bury
bury-Logged [] db p v = v
bury-Logged ((i, s) ∷ rest) db (n, w, p) v =
    elim (Result-cases (transition_event_queue_state i s QueueState.dead db)) [
      | inr (x, h) ↦
          rw
            (bury-step-err (λ _. false) (λ e d. refl) i s rest db h
              (present-is_value_error i s db n h))
            (bury-Logged rest db p v)
      | inl ((r, db1), h) ↦
          let b = transition-Buried i s db h in
          rw
            (bury-step-ok (λ _. false) (λ e d. refl) i s rest db db1 h, one_more-db (bury rest db1))
            (bury-Logged rest db1 (Buried-Present b rest p) (Buried-IsLogged b v w))
    ]

pub cancelled-test :
    (db : Database) (code : String) (e : RawRfidEvent)
    → (e.queue_state ≡ QueueState.dead → is_cancelled_event db code e ≡ false)
      × (is_cancelled_event db code e ≡ true → can_start e.queue_state ≡ true)
unfolding is_cancelled_event
cancelled-test db code e = (λ h. ground arith, λ h. ground arith)

pub exhausted-test :
    (db : Database) (code : String) (maximum : ℕ) (e : RawRfidEvent)
    → (e.queue_state ≡ QueueState.dead → is_exhausted_event db code maximum e ≡ false)
      × (is_exhausted_event db code maximum e ≡ true → can_start e.queue_state ≡ true)
unfolding is_exhausted_event
exhausted-test db code maximum e =
    (λ h. ground arith, λ h. ground (arith, state_iff e.queue_state QueueState.retry))

-- What either function does, given its query.
module _ (test : RawRfidEvent → Bool) (db : Database)
    (both : (e : RawRfidEvent)
      → (e.queue_state ≡ QueueState.dead → test e ≡ false)
        × (test e ≡ true → can_start e.queue_state ≡ true)) where
  present : Present (identified (filter test db.events)) db
  present = identified-Present test db db.events (λ e. (both e).1) (λ j n. n)

  pub queried-Emptied :
      (n : ℕ) × ((bury (identified (filter test db.events)) db).0 ≡ ok n)
      × Emptied test db (bury (identified (filter test db.events)) db).1
  queried-Emptied =
      bury-Emptied test (λ e. (both e).0) (identified (filter test db.events)) db present
        (identified-Covers test db.events)

  pub queried-IsLogged : IsLogged db → IsLogged (bury (identified (filter test db.events)) db).1
  queried-IsLogged = bury-Logged (identified (filter test db.events)) db present

-- For a reader that is named, burying the events of its cancelled sessions returns, and then no event
-- of the database is a queued or retried final event of a cancelled session of the reader. Attempts,
-- sessions and readers are as before.
pub cancelled-Emptied :
    (reader_code : String) (db : Database)
    → strip reader_code ≢ ""
    → (n : ℕ) × ((dead_letter_cancelled_session_final_events reader_code db).0 ≡ ok n)
      × Emptied
          (is_cancelled_event db (strip reader_code))
          db
          (dead_letter_cancelled_session_final_events reader_code db).1
unfolding dead_letter_cancelled_session_final_events
cancelled-Emptied reader_code db n =
    let given : (strip reader_code == "") ≡ false = ground (arith, eq_iff (strip reader_code) "") in
    rw (given) (
      queried-Emptied (is_cancelled_event db (strip reader_code)) db
        (cancelled-test db (strip reader_code)))

-- For a reader that is named and a positive bound, burying the exhausted events returns, and then no
-- final event of the reader waits for a retry that has as many attempts as the bound. Attempts,
-- sessions and readers are as before.
pub exhausted-Emptied :
    (reader_code : String) (maximum : ℕ) (db : Database)
    → strip reader_code ≢ ""
    → 1 ≤ maximum
    → (n : ℕ) × ((dead_letter_exhausted_final_events reader_code maximum db).0 ≡ ok n)
      × Emptied
          (is_exhausted_event db (strip reader_code) maximum)
          db
          (dead_letter_exhausted_final_events reader_code maximum db).1
unfolding dead_letter_exhausted_final_events
exhausted-Emptied reader_code maximum db n m =
    let given : (strip reader_code == "") ≡ false = ground (arith, eq_iff (strip reader_code) "") in
    let positive : ltb maximum 1 ≡ false = ground arith in
    rw (given, positive)
      (queried-Emptied (is_exhausted_event db (strip reader_code) maximum) db
        (exhausted-test db (strip reader_code) maximum))
