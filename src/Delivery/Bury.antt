-- ===== src/Delivery/Bury.antt =====
-- Burying the selected events ends, and leaves none of them.
use rfid.Prelude.{
  ℕ, ◌≡◌, ◌≢◌, sym, ◌∙◌, ◌⊎◌, inl, inr, subst, Bool, true, false, none, some, List, [], ◌∷◌, ◌==◌,
  nat_eq, nat_beq_iff, arith, filter, Bool-cases, Option-cases,
}
use rfid.Result.{ok, err}
use rfid.Models.{QueueState, state_eq, state_iff, RawRfidEvent, Database, Exception}
use rfid.Models.Orm.{find_event, save_event, find_event-save_event, find_event-key}
use rfid.Queue.{transition_event_queue_state, transition-parts, validate_states, moved}
use rfid.Delivery.Log.{IsLogged, History, outcomes}
use rfid.Delivery.Attempts.{attempts_of, can_start}
use rfid.Delivery.Start.{can_start-IsRetried}
use rfid.Delivery.Final.{is_value_error, identified}

-- The selection has an event with its state.
abbrev pub Selected : ℕ → QueueState → List (ℕ × QueueState) → Type 0
Selected i s [] = ⊥
Selected i s ((j, t) ∷ rest) = ((i ≡ j) × (s ≡ t)) ⊎ Selected i s rest

-- Every event that passes the test is in the selection.
abbrev pub Covers : (RawRfidEvent → Bool) → List (ℕ × QueueState) → Database → Type 0
Covers test selected db =
    (i : ℕ) (e : RawRfidEvent)
    → find_event i db.events ≡ some e
    → test e ≡ true
    → Selected i e.queue_state selected

-- The selected events are there, and wait.
abbrev pub Present : List (ℕ × QueueState) → Database → Type 0
Present [] db = Unit
Present ((i, s) ∷ rest) db =
    (find_event i db.events ≢ none) × (can_start s ≡ true) × Present rest db

-- The query selects the events that pass its test.
pub identified-Covers :
    (test : RawRfidEvent → Bool) (events : List RawRfidEvent) (i : ℕ) (e : RawRfidEvent)
    → find_event i events ≡ some e
    → test e ≡ true
    → Selected i e.queue_state (identified (filter test events))
identified-Covers test [] i e h t = cc
identified-Covers test (x ∷ events) i e h t = elim (Bool-cases (x.event_id == i)) [
  | inl here ↦
      let same : x ≡ e = ground arith in
      let passes : test x ≡ true = rw same t in
      rw passes (inl (sym ((nat_beq_iff x.event_id i).0 here), ground arith))
  | inr other ↦
      let later = identified-Covers test events i e (ground arith) t in
      elim (Bool-cases (test x)) [ inl passes ↦ rw passes (inr later) | inr fails ↦ rw fails later ]
]

-- A transition that failed for want of the right state.
pub waiting-moves :
    (i : ℕ) (s : QueueState) (db : Database) {e : RawRfidEvent} {x : Exception}
    → find_event i db.events ≡ some e
    → e.queue_state ≡ s
    → can_start s ≡ true
    → transition_event_queue_state i s QueueState.dead db ≢ err x
unfolding transition_event_queue_state validate_states
waiting-moves i s db {e} {x} f q w h = ground (arith, state_iff e.queue_state s)

pub present-is_value_error :
    (i : ℕ) (s : QueueState) (db : Database) {x : Exception}
    → find_event i db.events ≢ none
    → transition_event_queue_state i s QueueState.dead db ≡ err x
    → is_value_error x ≡ true
unfolding transition_event_queue_state validate_states is_value_error
present-is_value_error i s db {x} n h = elim (Option-cases (find_event i db.events)) [
  | inl e ↦ absurd (n e)
  | inr (e, f) ↦ ground arith
]

-- What a transition to DEAD that returned leaves.
pub record Buried (i : ℕ) (s : QueueState) (db db' : Database) : Type 0 where
  pub event : RawRfidEvent
  pub was_found : find_event i db.events ≡ some event
  pub was_state : event.queue_state ≡ s
  pub is_dead : find_event i db'.events ≡ some (moved event QueueState.dead)
  pub others : (j : ℕ) → i ≢ j → find_event j db'.events ≡ find_event j db.events
  pub rows : db' ≡ record db { events = save_event (moved event QueueState.dead) db.events }

pub transition-Buried :
    (i : ℕ) (s : QueueState) (db : Database) {r : _} {db' : Database}
    → transition_event_queue_state i s QueueState.dead db ≡ ok (r, db')
    → Buried i s db db'
transition-Buried i s db {r} {db'} h =
    let (event, found, state, valid, rows) = transition-parts i s QueueState.dead db h in
    let key = find_event-key i db.events found in
    let saved = λ (j : ℕ). find_event-save_event j (moved event QueueState.dead) db.events in
    record {
      event = event;
      was_found = found;
      was_state = state;
      is_dead = rw rows (ground (arith, saved i));
      others = λ j n. rw rows (ground (arith, saved j));
      rows = rows;
    }

module _ {i : ℕ} {s : QueueState} {db db' : Database} (b : Buried i s db db') where
  same-or_other : (j : ℕ) → (i ≡ j) ⊎ (i ≢ j)
  same-or_other j = elim (Bool-cases (i == j)) [
    | inl e ↦ inl ((nat_beq_iff i j).0 e)
    | inr e ↦ inr (λ q. ground arith)
  ]

  Buried-present : (j : ℕ) → find_event j db.events ≢ none → find_event j db'.events ≢ none
  Buried-present j n e = elim (same-or_other j) [
    | inl q ↦
        let dead =
          subst (λ k. find_event k db'.events ≡ some (moved b.event QueueState.dead)) q b.is_dead in
        cc
    | inr q ↦ n (sym (b.others j q) ∙ e)
  ]

  pub Buried-Present : (rest : List (ℕ × QueueState)) → Present rest db → Present rest db'
  Buried-Present [] p = tt
  Buried-Present ((j, t) ∷ rest) (n, w, p) = (Buried-present j n, w, Buried-Present rest p)

  pub Buried-Covers :
      (test : RawRfidEvent → Bool) (rest : List (ℕ × QueueState))
      → ((e : RawRfidEvent) → e.queue_state ≡ QueueState.dead → test e ≡ false)
      → Covers test ((i, s) ∷ rest) db
      → Covers test rest db'
  Buried-Covers test rest dead_fails c j e h t = elim (same-or_other j) [
    | inl q ↦
        let dead =
          subst (λ k. find_event k db'.events ≡ some (moved b.event QueueState.dead)) q b.is_dead in
        let row : e.queue_state ≡ QueueState.dead = ground arith in
        let fails = dead_fails e row in cc
    | inr q ↦ elim (c j e (sym (b.others j q) ∙ h) t) [
      | inl (k, u) ↦ absurd (q (sym k))
      | inr later ↦ later
    ]
  ]

  Buried-agrees :
      IsLogged db
      → can_start s ≡ true
      → (j : ℕ) (e : RawRfidEvent) → find_event j db'.events ≡ some e
      → History e.queue_state (outcomes (attempts_of j db.attempts))
  Buried-agrees v w j e h = elim (same-or_other j) [
    | inl q ↦
        let log = outcomes (attempts_of j db.attempts) in
        let dead =
          subst (λ k. find_event k db'.events ≡ some (moved b.event QueueState.dead)) q b.is_dead in
        let there = subst (λ k. find_event k db.events ≡ some b.event) q b.was_found in
        let row : QueueState.dead ≡ e.queue_state = ground arith in
        let waited : can_start b.event.queue_state ≡ true = rw b.was_state w in
        subst (λ (t : QueueState). History t log) row
          (inl (can_start-IsRetried b.event.queue_state log waited (v.agrees j b.event there)))
    | inr q ↦ v.agrees j e (sym (b.others j q) ∙ h)
  ]

  pub Buried-IsLogged : IsLogged db → can_start s ≡ true → IsLogged db'
  Buried-IsLogged v w =
      let agrees = Buried-agrees v w in
      rw b.rows (record { agrees = rw b.rows at agrees; numbered = v.numbered; fresh = v.fresh })
