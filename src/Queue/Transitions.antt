-- ===== src/Queue/Transitions.antt =====
-- The life of an event in the queue, as a relation.
use rfid.Prelude.{◌≡◌, refl, ◌↔◌, arith}
use rfid.Result.{ok}
use rfid.Models.{QueueState, unassigned, queued, inflight, state_eq}
use rfid.Queue.Policy.{validate_states}

infix 40 ◌⟶◌ ◌⟶*◌
-- One legal move of an event.
pub data ◌⟶◌ : QueueState → QueueState → Type 0 where
  assign : unassigned ⟶ queued
  refuse : unassigned ⟶ QueueState.rejected
  begin : queued ⟶ inflight
  refuse_queued : queued ⟶ QueueState.rejected
  bury_queued : queued ⟶ QueueState.dead
  accept : inflight ⟶ QueueState.sent
  postpone : inflight ⟶ QueueState.retry
  refuse_inflight : inflight ⟶ QueueState.rejected
  bury_inflight : inflight ⟶ QueueState.dead
  begin_again : QueueState.retry ⟶ inflight
  bury_retry : QueueState.retry ⟶ QueueState.dead

pub data ◌⟶*◌ (s : QueueState) : QueueState → Type 0 where
  here : s ⟶* s
  next : {t u : QueueState} → s ⟶* t → t ⟶ u → s ⟶* u

ruleset moves = (
  assign, refuse, begin, refuse_queued, bury_queued, accept, postpone, refuse_inflight,
  bury_inflight, begin_again, bury_retry,
)

⟶-ok : {a b : QueueState} → a ⟶ b → validate_states a b ≡ ok tt
unfolding validate_states
⟶-ok assign = refl
⟶-ok refuse = refl
⟶-ok begin = refl
⟶-ok refuse_queued = refl
⟶-ok bury_queued = refl
⟶-ok accept = refl
⟶-ok postpone = refl
⟶-ok refuse_inflight = refl
⟶-ok bury_inflight = refl
⟶-ok begin_again = refl
⟶-ok bury_retry = refl

ok-⟶ : (a b : QueueState) → validate_states a b ≡ ok tt → a ⟶ b
unfolding validate_states
ok-⟶ a b h = grind (arith, moves)

-- A transition is accepted exactly when it is one of the moves of the life cycle.
pub validate_states_iff : (a b : QueueState) → (validate_states a b ≡ ok tt) ↔ (a ⟶ b)
validate_states_iff a b = (ok-⟶ a b, ⟶-ok)

-- Nothing more happens to an event in such a state.
pub data IsFinal : QueueState → Type 0 where
  sent_final : IsFinal QueueState.sent
  rejected_final : IsFinal QueueState.rejected
  dead_final : IsFinal QueueState.dead

stays : {s t u : QueueState} → IsFinal s → s ≡ t → t ⟶ u → s ≡ u
stays sent_final e m = grind arith
stays rejected_final e m = grind arith
stays dead_final e m = grind arith

-- From a final state no sequence of accepted transitions leads anywhere else.
pub IsFinal-absorbs : {s t : QueueState} → IsFinal s → s ⟶* t → s ≡ t
IsFinal-absorbs f here = refl
IsFinal-absorbs f (next r m) = stays f (IsFinal-absorbs f r) m
