-- ===== src/Delivery/FinalSender.antt =====
-- bridge_core/final_odoo_event_sender.py: an event is sent to Odoo, and its answer is read. The API client
-- is a parameter, and so are the texts of a UUID and of a time.
use rfid.Prelude.{
  ℕ, Bool, true, false, not, ◌||◌, Option, none, some, String, List, [], ◌∷◌, filter, find?, ◌==◌,
  nat_eq, string_eq, if◌then◌else◌,
}
use rfid.Prelude.Text.{strip, upper, lower, join}
use rfid.Result.{Result, ok, err, raise_if, ◌>>=◌, ◌>>◌}
use rfid.Models.{Outcome, RfidSession, RawRfidEvent, Database}
use rfid.Delivery.Attempts.{DeliverySenderResult}
use rfid.Delivery.Barrier.{device_has_code, starts_with}
use rfid.Delivery.Cycle.{Raised, Sender}

pub record EventPayload : Type 0 where
  pub event_uuid : String
  pub epc : String
  pub seen_at : String
  pub raw_read_count : ℕ

-- An object of the results, by the texts of its fields; a missing or empty one is "".
pub record ResultItem : Type 0 where
  pub event_uuid : String
  pub outcome : String
  pub error : String
  pub message : String

-- `result.get("results")`; an item that is no object is `none`.
pub data Results : Type 0 where
  not_a_list : Results
  items : List (Option ResultItem) → Results

-- What `api_client.events` comes to: an `OdooRFIDApiError`, another exception, or a reply.
pub data ApiAnswer : Type 0 where
  api_error other_error : Raised → ApiAnswer
  not_an_object : ApiAnswer
  reply : Bool → String → Results → ApiAnswer

abbrev pub retry_result : String → String → DeliverySenderResult
retry_result kind detail = record {
  outcome = Outcome.retry;
  response_code = "";
  error_kind = kind;
  detail = detail;
}

-- `a or b`
abbrev pub first_text : String → String → String
first_text a b = if a == "" then b else a

abbrev pub is_match : String → Option ResultItem → Bool
is_match event_uuid none = false
is_match event_uuid (some item) = item.event_uuid == event_uuid

abbrev pub is_accepted : String → Bool
is_accepted outcome = outcome == "accepted" || outcome == "duplicate"

abbrev pub accepted_detail : String → String
accepted_detail outcome =
    if outcome == "accepted"
    then "RFID event accepted by Odoo."
    else "RFID event already existed in Odoo."

unfoldable pub item_result : ResultItem → DeliverySenderResult
item_result item =
    let outcome = lower (strip item.outcome) in
    if is_accepted outcome
    then record {
      outcome = Outcome.sent;
      response_code = outcome;
      error_kind = "";
      detail = accepted_detail outcome;
    }
    else record {
      outcome = Outcome.rejected;
      response_code = outcome;
      error_kind = "OdooEventRejected";
      detail =
          first_text item.error
            (first_text item.message (join "Odoo event outcome: " (first_text outcome "unknown")));
    }

unfoldable pub matched_result : List (Option ResultItem) → DeliverySenderResult
unfolding item_result
matched_result (some item ∷ []) = item_result item
matched_result _ =
    retry_result "EventCorrelationError"
      "Odoo event response did not contain exactly one matching event UUID."

unfoldable pub results_result : String → Results → DeliverySenderResult
results_result event_uuid not_a_list =
    retry_result "InvalidResponse" "Odoo event response has no valid results list."
results_result event_uuid (items found) = matched_result (filter (is_match event_uuid) found)

unfoldable pub read_answer : String → ApiAnswer → Result Raised DeliverySenderResult
read_answer event_uuid (api_error exc) = ok (retry_result exc.type_name exc.text)
read_answer event_uuid (other_error exc) = err exc
read_answer event_uuid not_an_object =
    ok (retry_result "InvalidResponse" "Odoo event response is not an object.")
read_answer event_uuid (reply false error results) =
    ok (retry_result "OdooRejectedRequest" (first_text error "Odoo rejected RFID event request."))
read_answer event_uuid (reply true error results) = ok (results_result event_uuid results)

-- `FinalOdooEventSenderError`
abbrev pub sender_error : String → Raised
sender_error text = record { type_name = "FinalOdooEventSenderError"; text = text }

-- `__init__`: the reader code that the sender keeps.
unfoldable pub make_sender : String → Result Raised String
make_sender reader_code = do
  raise_if (strip reader_code == "") (sender_error "Final RFID reader code cannot be empty.")
  ok (strip reader_code)

-- `event.rfid_session`
abbrev pub assigned_session : RawRfidEvent → Database → Result Raised RfidSession
assigned_session event db = elim event.rfid_session_id [
  | none ↦ err (sender_error "Final RFID event has no assigned session.")
  | some i ↦ elim (find? (λ s. s.id == i) db.sessions) [
    | none ↦ err (record { type_name = "DoesNotExist"; text = "RFIDSession" })
    | some session ↦ ok session
  ]
]

module _ (uuid_text : ℕ → String) (isoformat : ℕ → String) where
  -- The tests, and what is sent: the session key and the payload.
  unfoldable pub prepare : String → RawRfidEvent → Database → Result Raised (String × EventPayload)
  prepare reader_code event db = do
    raise_if (not (device_has_code db.devices reader_code event.device_id))
        (sender_error "RFID event belongs to a different reader.")
    raise_if (not (starts_with "final:" event.reader_event_key))
        (sender_error "Non-final RFID event cannot use final delivery.")
    session ← assigned_session event db
    raise_if (not (session.device_id == event.device_id))
        (sender_error "RFID event/session reader mismatch.")
    let session_key = strip session.external_session_key
    raise_if (session_key == "") (sender_error "RFID event session key is empty.")
    let epc = upper (strip event.epc)
    raise_if (epc == "") (sender_error "RFID event EPC is empty.")
    ok (
      session_key,
      record {
        event_uuid = uuid_text event.event_id;
        epc = epc;
        seen_at = isoformat event.received_at;
        raw_read_count = 1;
      },
    )

  -- `send_event` of a sender for the reader with the code, over `api_client.events`.
  unfoldable pub send_event :
      (String → String → EventPayload → Database → ApiAnswer × Database) → String → Sender
  send_event events reader_code event db = elim (prepare (strip reader_code) event db) [
    | err exc ↦ (err exc, db)
    | ok (session_key, payload) ↦
        let (answer, db') = events session_key (strip reader_code) payload db in
        (read_answer payload.event_uuid answer, db')
  ]
