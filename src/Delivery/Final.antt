-- ===== src/Delivery/Final.antt =====
-- bridge_core/final_delivery_cycle.py: the events of a reader's final sessions, buried or delivered.
use rfid.Prelude.{
  ℕ, ◌+◌, String, Bool, true, false, ◌&&◌, Option, none, some, List, [], ◌∷◌, length, take, ltb,
  leb, ◌==◌, nat_eq, string_eq, filter, find?, if◌then◌else◌,
}
use rfid.Prelude.Text.{strip}
use rfid.Result.{Result, ok, err, raise_if, ◌>>=◌, ◌>>◌}
use rfid.Models.{
  QueueState, state_eq, cancelled, status_eq, RfidSession, RawRfidEvent, Database, Exception,
  does_not_exist, integrity_error, batch_size_low, max_attempts_low, reader_code_empty,
}
use rfid.Queue.{transition_event_queue_state}
use rfid.Delivery.Attempts.{attempts_of, can_start}
use rfid.Delivery.Barrier.{device_has_code, starts_with}
use rfid.Delivery.Cycle.{
  is_candidate, by_arrival, Sender, RetryPolicy, Counters, no_counts, count_other, deliver,
}

abbrev pub is_given : Option ℕ → Bool
is_given none = false
is_given (some _) = true

-- `device__code=…, rfid_session__isnull=False, reader_event_key__startswith="final:"`
unfoldable pub is_final_for : Database → String → RawRfidEvent → Bool
is_final_for db code e =
    device_has_code db.devices code e.device_id
    && is_given e.rfid_session_id
    && starts_with "final:" e.reader_event_key

-- `reader_code = str(reader_code or "").strip()` and its test.
abbrev pub named_reader : String → Result Exception String
named_reader code =
    let stripped = strip code in if stripped == "" then err reader_code_empty else ok stripped

unfoldable pub select_final_delivery_candidates :
    String → ℕ → ℕ → Database → Result Exception (List RawRfidEvent)
select_final_delivery_candidates reader_code batch_size now db = do
  raise_if (ltb batch_size 1) batch_size_low
  code ← named_reader reader_code
  ok (
      take batch_size
        (by_arrival (filter (λ e. is_final_for db code e && is_candidate db now e) db.events)))

-- `except ValueError`; the model's other exceptions of a transition are the database's.
unfoldable pub is_value_error : Exception → Bool
is_value_error (does_not_exist _) = false
is_value_error (integrity_error _) = false
is_value_error _ = true

abbrev pub one_more : Result Exception ℕ × Database → Result Exception ℕ × Database
one_more (ok n, db) = (ok (n + 1), db)
one_more (err e, db) = (err e, db)

-- The loop over the selected events with their states; each transition is a transaction.
unfoldable pub bury : List (ℕ × QueueState) → Database → Result Exception ℕ × Database
bury [] db = (ok 0, db)
bury ((event_id, queue_state) ∷ selected) db =
    elim (transition_event_queue_state event_id queue_state QueueState.dead db) [
      | ok (r, db') ↦ one_more (bury selected db')
      | err e ↦ let rest = bury selected db in if is_value_error e then rest else (err e, db)
    ]

-- `values_list("event_id", "queue_state")`
abbrev pub identified : List RawRfidEvent → List (ℕ × QueueState)
identified [] = []
identified (e ∷ events) = (e.event_id, e.queue_state) ∷ identified events

-- `rfid_session__status=CANCELLED`
unfoldable pub session_is_cancelled : List RfidSession → Option ℕ → Bool
session_is_cancelled sessions none = false
session_is_cancelled sessions (some id) = elim (find? (λ s. s.id == id) sessions) [
  | none ↦ false
  | some s ↦ s.status == cancelled
]

unfoldable pub is_cancelled_event : Database → String → RawRfidEvent → Bool
is_cancelled_event db code e =
    device_has_code db.devices code e.device_id
    && session_is_cancelled db.sessions e.rfid_session_id
    && starts_with "final:" e.reader_event_key
    && can_start e.queue_state

abbrev pub bury_all :
    Result Exception (List (ℕ × QueueState)) → Database → Result Exception ℕ × Database
bury_all (err e) db = (err e, db)
bury_all (ok selected) db = bury selected db

unfoldable pub dead_letter_cancelled_session_final_events :
    String → Database → Result Exception ℕ × Database
dead_letter_cancelled_session_final_events reader_code db =
    bury_all
      (do
        code ← named_reader reader_code
        ok (identified (filter (is_cancelled_event db code) db.events)))
      db

unfoldable pub is_exhausted_event : Database → String → ℕ → RawRfidEvent → Bool
is_exhausted_event db code max_delivery_attempts e =
    is_final_for db code e
    && e.queue_state == QueueState.retry
    && leb max_delivery_attempts (length (attempts_of e.event_id db.attempts))

unfoldable pub dead_letter_exhausted_final_events :
    String → ℕ → Database → Result Exception ℕ × Database
dead_letter_exhausted_final_events reader_code max_delivery_attempts db =
    bury_all
      (do
        raise_if (ltb max_delivery_attempts 1) max_attempts_low
        code ← named_reader reader_code
        ok (identified (filter (is_exhausted_event db code max_delivery_attempts) db.events)))
      db

pub record FinalDeliveryCycleResult : Type 0 where
  pub selected_count : ℕ
  pub counters : Counters
  pub exhausted_dead_count : ℕ

abbrev pub counted :
    ℕ
    → ℕ
    → Result Exception Counters × Database
    → Result Exception FinalDeliveryCycleResult × Database
counted n exhausted (err e, db) = (err e, db)
counted n exhausted (ok c, db) =
    (ok (record { selected_count = n; counters = c; exhausted_dead_count = exhausted }), db)

-- The end of the cycle: the selection and the loop.
abbrev pub deliver_selected :
    RetryPolicy
    → Sender
    → ℕ
    → Result Exception (List RawRfidEvent)
    → Database
    → Result Exception FinalDeliveryCycleResult × Database
deliver_selected policy send exhausted (err e) db = (err e, db)
deliver_selected policy send exhausted (ok candidates) db =
    counted (length candidates) exhausted (deliver count_other policy send candidates no_counts db)

abbrev pub behind_exhausted :
    String
    → ℕ
    → RetryPolicy
    → Sender
    → Result Exception ℕ × Database
    → Result Exception FinalDeliveryCycleResult × Database
behind_exhausted reader_code batch_size policy send (err e, db) = (err e, db)
behind_exhausted reader_code batch_size policy send (ok n, db) =
    deliver_selected policy send n
      (select_final_delivery_candidates reader_code batch_size db.now db) db

abbrev pub behind_cancelled :
    String
    → ℕ
    → RetryPolicy
    → Sender
    → Result Exception ℕ × Database
    → Result Exception FinalDeliveryCycleResult × Database
behind_cancelled reader_code batch_size policy send (err e, db) = (err e, db)
behind_cancelled reader_code batch_size policy send (ok n, db) =
    behind_exhausted reader_code batch_size policy send
      (dead_letter_exhausted_final_events reader_code policy.max_delivery_attempts db)

-- The retry settings go to the deliveries as they are.
unfoldable pub run_final_delivery_cycle :
    Sender
    → String
    → ℕ
    → RetryPolicy
    → Database
    → Result Exception FinalDeliveryCycleResult × Database
run_final_delivery_cycle send reader_code batch_size policy db =
    if ltb policy.max_delivery_attempts 1
    then (err max_attempts_low, db)
    else behind_cancelled reader_code batch_size policy send
        (dead_letter_cancelled_session_final_events reader_code db)
