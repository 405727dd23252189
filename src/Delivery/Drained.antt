-- ===== src/Delivery/Drained.antt =====
-- The delivery barrier lets a STOP pass exactly when nothing of its session is left undelivered.
use rfid.Prelude.{
  ◌+◌, ◌-◌, ◌≤◌, ◌≡◌, ◌≢◌, ◌↔◌, inl, inr, Bool, true, String, List, [], ◌∷◌, map, length, filter,
  All, nat_eq, string_eq, arith, Bool-cases, refl, sym, subst,
}
use rfid.Prelude.Text.{strip}
use rfid.Result.{is_ok}
use rfid.Models.{QueueState, state_eq, RawRfidEvent, Database}
use rfid.Delivery.Barrier.{
  is_final_event, count, is_sent, is_failed, counts, inspect_final_session_delivery,
  require_final_session_delivery_complete,
}
use text.Mathlib.TextEquality.{eq_iff}

-- The events that a test selects are all sent.
abbrev pub AllSent : (RawRfidEvent → Bool) → List RawRfidEvent → Type 0
AllSent test = All (λ e. test e ≡ true → e.queue_state ≡ QueueState.sent)

counts_le :
    (states : List QueueState) → count is_sent states + count is_failed states ≤ length states
counts_le [] = omega arith
counts_le (s ∷ states) = ground (arith, counts_le states)

sent_le : (states : List QueueState) → count is_sent states ≤ length states
sent_le states = omega (arith, counts_le states)

abbrev states_of : (RawRfidEvent → Bool) → List RawRfidEvent → List QueueState
states_of test events = map (λ e. e.queue_state) (filter test events)

-- The equation of the counts for one more event that the test selects.
sent_step :
    (s : QueueState) (states : List QueueState)
    → (count is_sent (s ∷ states) ≡ length (s ∷ states))
      ↔ ((s ≡ QueueState.sent) × (count is_sent states ≡ length states))
sent_step s states = (λ h. ground (arith, sent_le states), λ h. ground arith)

AllSent-iff :
    (test : RawRfidEvent → Bool) (events : List RawRfidEvent)
    → (count is_sent (states_of test events) ≡ length (states_of test events)) ↔ AllSent test events
AllSent-iff test [] = (λ _. tt, λ _. refl)
AllSent-iff test (e ∷ events) = elim (Bool-cases (test e)) [
  | inl h ↦
      let whole : states_of test (e ∷ events) ≡ e.queue_state ∷ states_of test events = rw h refl in
      let step = sent_step e.queue_state (states_of test events) in
      let rest = AllSent-iff test events in
      (
        λ g.
            let (a, b) = step.0 (subst (λ l. count is_sent l ≡ length l) whole g) in
            (λ _. a, rest.0 b),
        λ g. subst (λ l. count is_sent l ≡ length l) (sym whole) (step.1 (g.0 h, rest.1 g.1)),
      )
  | inr h ↦
      let whole : states_of test (e ∷ events) ≡ states_of test events = rw h refl in
      let rest = AllSent-iff test events in
      (
        λ g. (λ k. absurd (cc), rest.0 (subst (λ l. count is_sent l ≡ length l) whole g)),
        λ g. subst (λ l. count is_sent l ≡ length l) (sym whole) (rest.1 g.1),
      )
]

-- Nothing failed and nothing pending is nothing undelivered.
delivered_iff :
    (states : List QueueState)
    → ((count is_failed states ≡ 0)
        × (length states - count is_sent states - count is_failed states ≡ 0))
      ↔ (count is_sent states ≡ length states)
delivered_iff states = (
  λ h. omega (arith, h.0, h.1, counts_le states),
  λ h. (omega (arith, h, counts_le states), omega (arith, h, counts_le states)),
)

passes_iff :
    (key code : String) (db : Database)
    → (is_ok (require_final_session_delivery_complete key code db) ≡ true) ↔ (
        (strip key ≢ "")
        × (strip code ≢ "")
        × (count is_sent (states_of (is_final_event db (strip key) (strip code)) db.events)
            ≡ length (states_of (is_final_event db (strip key) (strip code)) db.events)))
unfolding require_final_session_delivery_complete inspect_final_session_delivery counts
passes_iff key code db =
    let states = states_of (is_final_event db (strip key) (strip code)) db.events in
    (
      λ h. ground (arith, delivered_iff states, eq_iff (strip key) "", eq_iff (strip code) ""),
      λ h. ground (arith, delivered_iff states, eq_iff (strip key) "", eq_iff (strip code) ""),
    )

-- A STOP passes the barrier if and only if it names a session and a reader, and every final event of
-- that session and reader has been sent.
pub require-passes_iff :
    (key code : String) (db : Database)
    → (is_ok (require_final_session_delivery_complete key code db) ≡ true) ↔ (
        (strip key ≢ "")
        × (strip code ≢ "")
        × AllSent (is_final_event db (strip key) (strip code)) db.events)
require-passes_iff key code db =
    let test = is_final_event db (strip key) (strip code) in
    (
      λ h. let (a, b, c) = (passes_iff key code db).0 h in (a, b, (AllSent-iff test db.events).0 c),
      λ h. (passes_iff key code db).1 (h.0, h.1, (AllSent-iff test db.events).1 h.2),
    )
