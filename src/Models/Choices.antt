-- ===== src/Models/Choices.antt =====
-- The `TextChoices` of bridge_core/models.py. A stored value is one of them.
use rfid.Prelude.{
  ℕ, ◌≡◌, refl, ◌↔◌, true, Option, none, some, arith, nat_beq, String, Eq, ◌==◌, string_eq,
  if◌then◌else◌,
}

-- `ReaderDevice.Role`; the column takes any string.
pub data Role : Type 0 where
  receiving dispatching : Role
  other_role : String → Role

-- `RFIDSession.OperationType`
pub data Operation : Type 0 where
  receipt dispatch : Operation

-- `RFIDSession.Status`
pub data Status : Type 0 where
  active closed cancelled : Status

-- `RawRFIDEvent.QueueState`
pub data QueueState : Type 0 where
  unassigned queued inflight retry sent rejected dead : QueueState

-- `DeliveryAttempt.Outcome`
pub data Outcome : Type 0 where
  started sent retry rejected dead : Outcome

-- The string that stands for a queue state in the database.
unfoldable pub value : QueueState → String
value unassigned = "unassigned"
value queued = "queued"
value inflight = "inflight"
value QueueState.retry = "retry"
value QueueState.sent = "sent"
value QueueState.rejected = "rejected"
value QueueState.dead = "dead"

-- Membership in `RawRFIDEvent.QueueState.values`, with the member.
unfoldable pub from_value : String → Option QueueState
from_value s =
    if s == "unassigned"
    then some unassigned
    else if s == "queued"
    then some queued
    else if s == "inflight"
    then some inflight
    else if s == "retry"
    then some QueueState.retry
    else if s == "sent"
    then some QueueState.sent
    else if s == "rejected"
    then some QueueState.rejected
    else if s == "dead"
    then some QueueState.dead
    else none

pub from_value-value : (s : QueueState) → from_value (value s) ≡ some s
unfolding from_value value
from_value-value unassigned = refl
from_value-value _ = refl

abbrev operation_index : Operation → ℕ
operation_index receipt = 0
operation_index dispatch = 1

abbrev status_index : Status → ℕ
status_index active = 0
status_index closed = 1
status_index cancelled = 2

abbrev state_index : QueueState → ℕ
state_index unassigned = 0
state_index queued = 1
state_index inflight = 2
state_index QueueState.retry = 3
state_index QueueState.sent = 4
state_index QueueState.rejected = 5
state_index QueueState.dead = 6

abbrev outcome_index : Outcome → ℕ
outcome_index started = 0
outcome_index Outcome.sent = 1
outcome_index Outcome.retry = 2
outcome_index Outcome.rejected = 3
outcome_index Outcome.dead = 4

pub operation_iff :
    (a b : Operation) → (nat_beq (operation_index a) (operation_index b) ≡ true) ↔ (a ≡ b)
operation_iff a b = (λ h. ground arith, λ h. ground arith)

pub status_iff : (a b : Status) → (nat_beq (status_index a) (status_index b) ≡ true) ↔ (a ≡ b)
status_iff a b = (λ h. ground arith, λ h. ground arith)

pub state_iff : (a b : QueueState) → (nat_beq (state_index a) (state_index b) ≡ true) ↔ (a ≡ b)
state_iff a b = (λ h. ground arith, λ h. ground arith)

pub outcome_iff : (a b : Outcome) → (nat_beq (outcome_index a) (outcome_index b) ≡ true) ↔ (a ≡ b)
outcome_iff a b = (λ h. ground arith, λ h. ground arith)

instance abbrev pub operation_eq : Eq Operation
operation_eq = record {
  same = λ a b. nat_beq (operation_index a) (operation_index b);
  same_iff = operation_iff;
}

instance abbrev pub status_eq : Eq Status
status_eq = record {
  same = λ a b. nat_beq (status_index a) (status_index b);
  same_iff = status_iff;
}

instance abbrev pub state_eq : Eq QueueState
state_eq = record { same = λ a b. nat_beq (state_index a) (state_index b); same_iff = state_iff }

instance abbrev pub outcome_eq : Eq Outcome
outcome_eq = record {
  same = λ a b. nat_beq (outcome_index a) (outcome_index b);
  same_iff = outcome_iff;
}
