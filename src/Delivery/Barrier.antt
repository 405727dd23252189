-- ===== src/Delivery/Barrier.antt =====
-- bridge_core/final_delivery_barrier.py: a STOP is acknowledged when the events of its session are
-- delivered.
use rfid.Prelude.{
  ℕ, suc, ◌-◌, Bool, true, false, ◌&&◌, ◌||◌, Option, none, some, String, List, [], ◌∷◌, map,
  length, filter, find?, ltb, ◌==◌, nat_eq, string_eq, if◌then◌else◌,
}
use rfid.Prelude.Text.{strip}
use rfid.Result.{Result, ok, raise_if, ◌>>=◌, ◌>>◌}
use rfid.Models.{
  QueueState, state_eq, ReaderDevice, RfidSession, RawRfidEvent, Database, Exception,
  barrier_needs_key, barrier_needs_code, barrier_failed, barrier_pending,
}

-- `device__code=code`: the row that the foreign key names has the code.
unfoldable pub device_has_code : List ReaderDevice → String → ℕ → Bool
device_has_code devices code id = elim (find? (λ d. d.id == id) devices) [
  | none ↦ false
  | some d ↦ d.code == code
]

-- `rfid_session__external_session_key=key`
unfoldable pub session_has_key : List RfidSession → String → Option ℕ → Bool
session_has_key sessions key none = false
session_has_key sessions key (some id) = elim (find? (λ s. s.id == id) sessions) [
  | none ↦ false
  | some s ↦ s.external_session_key == key
]

-- `text.startswith(prefix)`
abbrev pub starts_with : String → String → Bool
starts_with String.[] text = true
starts_with (String.◌∷◌ c prefix) String.[] = false
starts_with (String.◌∷◌ c prefix) (String.◌∷◌ d text) =
    let rest = starts_with prefix text in String.◌∷◌ c "" == String.◌∷◌ d "" && rest

-- The test of the query: a final event of the session and the reader.
unfoldable pub is_final_event : Database → String → String → RawRfidEvent → Bool
unfolding device_has_code session_has_key
is_final_event db key code event =
    device_has_code db.devices code event.device_id
    && session_has_key db.sessions key event.rfid_session_id
    && starts_with "final:" event.reader_event_key

abbrev pub final_events : Database → String → String → List RawRfidEvent
final_events db key code = filter (is_final_event db key code) db.events

pub record FinalDeliveryBarrierResult : Type 0 where
  pub total_count : ℕ
  pub sent_count : ℕ
  pub pending_count : ℕ
  pub failed_count : ℕ

-- `sum(test(state) for state in states)`
abbrev pub count : (QueueState → Bool) → List QueueState → ℕ
count test [] = 0
count test (s ∷ states) = let rest = count test states in if test s then suc rest else rest

abbrev pub is_sent : QueueState → Bool
is_sent s = s == QueueState.sent

abbrev pub is_failed : QueueState → Bool
is_failed s = s == QueueState.rejected || s == QueueState.dead

-- The counts; Python's subtraction does not stop at 0 (`counts-total` shows that it need not).
unfoldable pub counts : List QueueState → FinalDeliveryBarrierResult
counts states = record {
  total_count = length states;
  sent_count = count is_sent states;
  pending_count = length states - count is_sent states - count is_failed states;
  failed_count = count is_failed states;
}

unfoldable pub inspect_final_session_delivery :
    String → String → Database → Result Exception FinalDeliveryBarrierResult
inspect_final_session_delivery session_key reader_code db = do
  let key = strip session_key
  let code = strip reader_code
  raise_if (key == "") barrier_needs_key
  raise_if (code == "") barrier_needs_code
  ok (counts (map (λ e. e.queue_state) (final_events db key code)))

unfoldable pub require_final_session_delivery_complete :
    String → String → Database → Result Exception FinalDeliveryBarrierResult
require_final_session_delivery_complete session_key reader_code db = do
  result ← inspect_final_session_delivery session_key reader_code db
  raise_if (ltb 0 result.failed_count) (barrier_failed result.failed_count)
  raise_if (ltb 0 result.pending_count) (barrier_pending result.pending_count)
  ok result
