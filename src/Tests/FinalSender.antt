-- ===== src/Tests/FinalSender.antt =====
-- Odoo's answers to a final event.
use rfid.Prelude.{
  ℕ, ◌≡◌, ◌↔◌, ◌⊎◌, false, suc, zero, refl, subst, arith, true, some, none, String, [], ◌∷◌,
}
use rfid.Prelude.Text.{join, strip, upper, lower}
use rfid.Result.{ok, err}
use rfid.Models.{
  QueueState, inflight, Outcome, RawRfidEvent, Database, value_too_long, delivery_attempt,
}
use rfid.Delivery.{
  IsLogged, History, Sender, RetryPolicy, DeliverySenderResult, report_of, report_fits,
  target_state, process_overflows, SingleEventDeliveryResult, process_delivery_candidate, state_of,
  waiting_db, EventPayload, ApiAnswer, reply, items, IsAcknowledged, send_event, prepare,
  read_answer, results_result, matched_result, item_result, device_has_code, process_confirmed,
}
use rfid.Tests.Sample.{queued_event, sample}

abbrev policy : RetryPolicy
policy = record { max_delivery_attempts = 3; retry_initial_seconds = 30; retry_max_seconds = 3600 }

abbrev uuid : ℕ → String
uuid n = "u-3"

abbrev accepting : String → String → EventPayload → Database → ApiAnswer × Database
accepting key code payload db = (
  reply true "" (
      items (
        some (record { event_uuid = "u-9"; outcome = "rejected"; error = ""; message = "" })
        ∷ none
        ∷ some (record { event_uuid = "u-3"; outcome = " Accepted"; error = ""; message = "" })
        ∷ [])),
  db,
)

abbrev accepting_sender : Sender
accepting_sender = send_event uuid uuid accepting "receiving-door-01"

accepted :
    (send_event uuid uuid accepting "receiving-door-01" queued_event sample).0
    ≡ ok (record {
      outcome = Outcome.sent;
      response_code = "accepted";
      error_kind = "";
      detail = "RFID event accepted by Odoo.";
    })
unfolding send_event prepare read_answer results_result matched_result item_result device_has_code
    strip upper lower
accepted = refl

sample-IsLogged : IsLogged sample
sample-IsLogged = record {
  agrees = λ i e h.
      let row : queued_event ≡ e = ground arith in
      subst (λ (x : RawRfidEvent). History x.queue_state []) row tt;
  numbered = λ i. tt;
  fresh = tt;
}

process_confirmed_example :
    ((state_of 3 (process_delivery_candidate policy accepting_sender queued_event sample).1
        ≡ some QueueState.sent)
      ↔ IsAcknowledged uuid uuid accepting "receiving-door-01" queued_event
          (waiting_db policy accepting_sender queued_event sample QueueState.sent))
    × (((r : SingleEventDeliveryResult) × ((process_delivery_candidate policy accepting_sender
              queued_event sample).0
            ≡ ok r)
          × (state_of 3 (process_delivery_candidate policy accepting_sender queued_event sample).1
              ≡ some r.current_state))
        ⊎ ((report_fits (
                report_of
                  (accepting_sender queued_event
                    (waiting_db policy accepting_sender queued_event sample QueueState.sent)).0)
              ≡ false)
            × ((process_delivery_candidate policy accepting_sender queued_event sample).0
                ≡ err (value_too_long delivery_attempt))
            × (state_of 3 (process_delivery_candidate policy accepting_sender queued_event sample).1
                ≡ some inflight)))
process_confirmed_example =
    process_confirmed uuid uuid accepting "receiving-door-01" queued_event policy sample
      sample-IsLogged (omega arith) refl refl (omega arith) (λ key code p d. refl)

-- Odoo answers with an outcome of 65 characters.
abbrev long_text : ℕ → String
long_text zero = ""
long_text (suc n) = join "x" (long_text n)

abbrev wordy : String → String → EventPayload → Database → ApiAnswer × Database
wordy key code payload db = (
  reply true "" (
      items (
        some (record { event_uuid = "u-3"; outcome = long_text 65; error = ""; message = "" })
        ∷ [])),
  db,
)

abbrev wordy_sender : Sender
wordy_sender = send_event uuid uuid wordy "receiving-door-01"

abbrev wordy_report : DeliverySenderResult
wordy_report =
    report_of
      (wordy_sender queued_event
        (waiting_db policy wordy_sender queued_event sample QueueState.rejected)).0

is_rejected : target_state wordy_report.outcome ≡ ok QueueState.rejected
unfolding send_event prepare read_answer results_result matched_result item_result device_has_code
    strip upper lower target_state
is_rejected = refl

does_not_fit : report_fits wordy_report ≡ false
unfolding send_event prepare read_answer results_result matched_result item_result device_has_code
    strip upper lower report_fits
does_not_fit = refl

stays_quiet :
    (wordy_sender queued_event
      (waiting_db policy wordy_sender queued_event sample QueueState.rejected)).1
    ≡ waiting_db policy wordy_sender queued_event sample QueueState.rejected
unfolding send_event prepare device_has_code strip upper
stays_quiet = refl

process_overflows_example :
    ((process_delivery_candidate policy wordy_sender queued_event sample).0
      ≡ err (value_too_long delivery_attempt))
    × (state_of 3 (process_delivery_candidate policy wordy_sender queued_event sample).1
        ≡ some inflight)
process_overflows_example =
    process_overflows policy wordy_sender queued_event sample QueueState.rejected sample-IsLogged
      (omega arith) refl refl (omega arith) stays_quiet is_rejected does_not_fit
