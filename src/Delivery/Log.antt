-- ===== src/Delivery/Log.antt =====
-- The delivery log of an event: its attempts, the newest first, against its queue state.
use rfid.Prelude.{
  ℕ, suc, ◌≤◌, ◌<◌, ◌≡◌, refl, ◌⊎◌, inl, inr, Bool, false, ◌&&◌, some, List, [], ◌∷◌, arith, length,
  All, Option-cases, ◌==◌, nat_eq, nat_beq_iff, Bool-cases, find?,
}
use rfid.Models.{
  QueueState, unassigned, queued, inflight, Outcome, started, DeliveryAttempt, RawRfidEvent,
  Database,
}
use rfid.Models.Orm.{find_event, save_attempt}
use rfid.Delivery.Attempts.{attempts_of, latest, next_attempt_number}

abbrev pub outcomes : List DeliveryAttempt → List Outcome
outcomes [] = []
outcomes (a ∷ rest) = a.outcome ∷ outcomes rest

abbrev pub numbers : List DeliveryAttempt → List ℕ
numbers [] = []
numbers (a ∷ rest) = a.attempt_number ∷ numbers rest

-- The attempts are numbered n, …, 2, 1.
abbrev pub Countdown : List ℕ → Type 0
Countdown [] = Unit
Countdown (n ∷ rest) = (n ≡ suc (length rest)) × Countdown rest

-- Primary keys fall along the table, and all are below the next one.
abbrev pub Descends : ℕ → List DeliveryAttempt → Type 0
Descends bound [] = Unit
Descends bound (a ∷ rest) = (a.id < bound) × Descends a.id rest

abbrev pub IsRetried : List Outcome → Type 0
IsRetried = All (λ o. o ≡ Outcome.retry)

abbrev pub IsUntried : List Outcome → Type 0
IsUntried [] = Unit
IsUntried (_ ∷ _) = ⊥

-- The newest attempt has the outcome `o`, and each one before it asked for a retry.
abbrev pub EndsWith : Outcome → List Outcome → Type 0
EndsWith o [] = ⊥
EndsWith o (newest ∷ older) = (newest ≡ o) × IsRetried older

-- The log that an event in a queue state has.
abbrev pub History : QueueState → List Outcome → Type 0
History unassigned os = IsUntried os
History queued os = IsUntried os
History inflight os = EndsWith started os
History QueueState.retry os = EndsWith Outcome.retry os
History QueueState.sent os = EndsWith Outcome.sent os
History QueueState.rejected os = IsUntried os ⊎ EndsWith Outcome.rejected os
History QueueState.dead os = IsRetried os ⊎ EndsWith Outcome.dead os

-- The queue and the delivery log agree.
pub record IsLogged (db : Database) : Type 0 where
  pub agrees :
      (i : ℕ) (e : RawRfidEvent)
      → find_event i db.events ≡ some e
      → History e.queue_state (outcomes (attempts_of i db.attempts))
  pub numbered : (i : ℕ) → Countdown (numbers (attempts_of i db.attempts))
  pub fresh : Descends db.next_id db.attempts

-- No event has had more than `bound` attempts.
abbrev pub IsBounded : ℕ → Database → Type 0
IsBounded bound db = (i : ℕ) → length (numbers (attempts_of i db.attempts)) ≤ bound

latest-number :
    (xs : List DeliveryAttempt) {a : DeliveryAttempt}
    → Countdown (numbers xs)
    → latest xs ≡ some a
    → a.attempt_number ≤ length (numbers xs)
unfolding latest
latest-number [] c h = cc
latest-number (x ∷ xs) {a} c h = ground (arith, latest-number xs {a = a} c.1)

-- In a log that is numbered, the next number is one more than the attempts so far.
pub next-Countdown :
    (xs : List DeliveryAttempt)
    → Countdown (numbers xs)
    → next_attempt_number (latest xs) ≡ suc (length (numbers xs))
unfolding latest next_attempt_number
next-Countdown [] c = refl
next-Countdown (x ∷ xs) c = elim (Option-cases (latest xs)) [
  | inl e ↦ ground arith
  | inr (b, e) ↦ ground (arith, latest-number xs c.1 e)
]

-- The attempt that both keys find, and the table once another row is saved in its place.
abbrev pub is_at : ℕ → ℕ → DeliveryAttempt → Bool
is_at i j a = a.id == i && a.event_id == j

module _ (i j : ℕ) (row : DeliveryAttempt) where
  pub below :
      (bound : ℕ) (xs : List DeliveryAttempt) {a : DeliveryAttempt}
      → Descends bound xs
      → find? (is_at i j) xs ≡ some a
      → (a.id ≡ i) × (a.id < bound) × (a.event_id ≡ j)
  below bound [] d h = cc
  below bound (x ∷ xs) {a} d h = ground (arith, below x.id xs {a = a})

  found_retried :
      (xs : List DeliveryAttempt) {a : DeliveryAttempt}
      → find? (is_at i j) xs ≡ some a
      → IsRetried (outcomes (attempts_of j xs))
      → a.outcome ≡ Outcome.retry
  found_retried [] h r = cc
  found_retried (x ∷ xs) {a} h r = ground (arith, found_retried xs {a = a})

  module _ (same_id : row.id ≡ i) (same_event : row.event_id ≡ j) where
    pub numbers-save :
        (k bound : ℕ) (xs : List DeliveryAttempt) {a : DeliveryAttempt}
        → Descends bound xs
        → find? (is_at i j) xs ≡ some a
        → row.attempt_number ≡ a.attempt_number
        → numbers (attempts_of k (save_attempt row xs)) ≡ numbers (attempts_of k xs)
    numbers-save k bound [] d h r = cc
    numbers-save k bound (x ∷ xs) {a} d h r =
        ground (arith, numbers-save k x.id xs {a = a}, below x.id xs {a = a})

    pub Descends-save :
        (bound : ℕ) (xs : List DeliveryAttempt)
        → Descends bound xs
        → Descends bound (save_attempt row xs)
    Descends-save bound [] d = tt
    Descends-save bound (x ∷ xs) d = elim (Bool-cases (x.id == row.id)) [
      | inl e ↦ rw e (ground arith, rw (← (nat_beq_iff x.id row.id).0 e) d.1)
      | inr e ↦ rw e (d.0, Descends-save x.id xs d.1)
    ]

    pub outcomes-save_ne :
        (k bound : ℕ) (xs : List DeliveryAttempt) {a : DeliveryAttempt}
        → Descends bound xs
        → find? (is_at i j) xs ≡ some a
        → (j == k) ≡ false
        → outcomes (attempts_of k (save_attempt row xs)) ≡ outcomes (attempts_of k xs)
    outcomes-save_ne k bound [] d h r = cc
    outcomes-save_ne k bound (x ∷ xs) {a} d h r =
        ground (arith, outcomes-save_ne k x.id xs {a = a}, below x.id xs {a = a})

    -- The attempt under way is the newest one, so its outcome becomes the end of the log.
    pub EndsWith-save :
        (bound : ℕ) (xs : List DeliveryAttempt) {a : DeliveryAttempt}
        → Descends bound xs
        → find? (is_at i j) xs ≡ some a
        → a.outcome ≡ started
        → EndsWith started (outcomes (attempts_of j xs))
        → EndsWith row.outcome (outcomes (attempts_of j (save_attempt row xs)))
    EndsWith-save bound [] d h o l = cc
    EndsWith-save bound (x ∷ xs) {a} d h o l =
        ground
          (arith, EndsWith-save x.id xs {a = a}, below x.id xs {a = a}, found_retried xs {a = a})
