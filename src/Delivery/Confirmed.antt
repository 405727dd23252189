-- ===== src/Delivery/Confirmed.antt =====
-- A final event counts as sent when Odoo has confirmed it.
use rfid.Prelude.{
  ℕ, ◌<◌, ◌≡◌, ◌↔◌, ◌⊎◌, Bool, false, refl, sym, subst, ap, ◌∙◌, inl, inr, true, false, Option,
  none, some, String, List, [], ◌∷◌, length, filter, arith, Bool-cases, string_eq, ◌==◌,
}
use rfid.Prelude.Text.{strip, lower}
use text.Mathlib.TextEquality.{eq_iff}
use rfid.Result.{Result, ok, err, Result-cases}
use rfid.Models.{
  QueueState, inflight, Outcome, RawRfidEvent, Database, value_too_long, delivery_attempt,
}
use rfid.Models.Orm.{find_event}
use rfid.Delivery.Attempts.{DeliverySenderResult, can_start, attempts_of, target_state, report_fits}
use rfid.Delivery.Log.{IsLogged, numbers}
use rfid.Delivery.Cycle.{
  Raised, Sender, RetryPolicy, report_of, SingleEventDeliveryResult, process_delivery_candidate,
}
use rfid.Delivery.Settle.{IsSane, process_settles, waiting_db, state_of}
use rfid.Delivery.Overflow.{process_overflows}
use rfid.Delivery.FinalSender.{
  EventPayload, ResultItem, not_a_list, items, ApiAnswer, api_error, other_error, not_an_object,
  reply, is_match, is_accepted, accepted_detail, item_result, matched_result, results_result,
  read_answer, prepare, send_event,
}

-- Odoo's answer has exactly one result for the event, and that says that Odoo has the event.
pub record IsConfirmed (event_uuid : String) (answer : ApiAnswer) : Type 0 where
  pub error : String
  pub found : List (Option ResultItem)
  pub item : ResultItem
  pub is_reply : answer ≡ reply true error (items found)
  pub is_unique : filter (is_match event_uuid) found ≡ some item ∷ []
  pub is_accepted : is_accepted (lower (strip item.outcome)) ≡ true

-- What the delivery makes of an answer of the sender.
record Reported (C : Type 0) (answer : Result Raised DeliverySenderResult) : Type 0 where
  pub target : QueueState
  pub is_target : target_state (report_of answer).outcome ≡ ok target
  pub confirmed : (target ≡ QueueState.sent) ↔ C
  pub fits : C → report_fits (report_of answer) ≡ true

retried :
    {C : Type 0} (answer : Result Raised DeliverySenderResult)
    → (report_of answer).outcome ≡ Outcome.retry
    → (C → ⊥)
    → Reported C answer
unfolding target_state
retried answer h n = record {
  target = QueueState.retry;
  is_target = ap target_state h;
  confirmed = (λ e. absurd cc, λ c. absurd (n c));
  fits = λ c. absurd (n c);
}

-- The result that a confirmation is about.
same_item :
    {event_uuid error : String} {found : List (Option ResultItem)} {item : ResultItem}
    (c : IsConfirmed event_uuid (reply true error (items found)))
    → filter (is_match event_uuid) found ≡ some item ∷ []
    → c.item ≡ item
same_item {event_uuid} {error} {found} {item} c unique =
    let same : found ≡ c.found = cc (c.is_reply) in
    let one : some c.item ∷ [] ≡ some item ∷ [] =
      sym c.is_unique ∙ ap (filter (is_match event_uuid)) (sym same) ∙ unique in
    cc

-- No confirmation has other matches than one.
other_matches :
    {event_uuid error : String} {found matches : List (Option ResultItem)}
    (c : IsConfirmed event_uuid (reply true error (items found)))
    → filter (is_match event_uuid) found ≡ matches
    → matches ≡ some c.item ∷ []
other_matches {event_uuid} {error} {found} {matches} c h =
    let same : found ≡ c.found = cc (c.is_reply) in
    sym h ∙ ap (filter (is_match event_uuid)) same ∙ c.is_unique

-- What Odoo has accepted is reported with a short code.
accepted_fits :
    (outcome detail : String)
    → is_accepted outcome ≡ true
    → report_fits (record {
      outcome = Outcome.sent;
      response_code = outcome;
      error_kind = "";
      detail = detail;
    })
      ≡ true
unfolding report_fits
accepted_fits outcome detail h = elim (Bool-cases (outcome == "accepted")) [
  | inl a ↦ rw ((eq_iff outcome "accepted").0 a) refl
  | inr a ↦ rw ((eq_iff outcome "duplicate").0 (ground (arith, a))) refl
]

item-Reported :
    (event_uuid error : String) (found : List (Option ResultItem)) (item : ResultItem)
    → filter (is_match event_uuid) found ≡ some item ∷ []
    → Reported (IsConfirmed event_uuid (reply true error (items found))) (ok (item_result item))
unfolding item_result target_state
item-Reported event_uuid error found item unique =
    elim (Bool-cases (is_accepted (lower (strip item.outcome)))) [
      | inl h ↦ record {
        target = QueueState.sent;
        is_target = rw (h) refl;
        confirmed = (
          λ e. record {
            error = error;
            found = found;
            item = item;
            is_reply = refl;
            is_unique = unique;
            is_accepted = h;
          },
          λ c. refl,
        );
        fits = λ c. rw (h) (
            accepted_fits (lower (strip item.outcome))
              (accepted_detail (lower (strip item.outcome))) h);
      }
      | inr h ↦ record {
        target = QueueState.rejected;
        is_target = rw (h) refl;
        confirmed =
            (λ e. absurd cc, λ c. absurd (ground (arith, same_item c unique, c.is_accepted)));
        fits = λ c. absurd (ground (arith, same_item c unique, c.is_accepted));
      }
    ]

matched-Reported :
    (event_uuid error : String) (found matches : List (Option ResultItem))
    → filter (is_match event_uuid) found ≡ matches
    → Reported
        (IsConfirmed event_uuid (reply true error (items found)))
        (ok (matched_result matches))
unfolding matched_result
matched-Reported event_uuid error found [] h = retried _ refl (λ c. cc (other_matches c h))
matched-Reported event_uuid error found (none ∷ []) h = retried _ refl (λ c. cc (other_matches c h))
matched-Reported event_uuid error found (none ∷ (x ∷ more)) h =
    retried _ refl (λ c. cc (other_matches c h))
matched-Reported event_uuid error found (some item ∷ []) h =
    item-Reported event_uuid error found item h
matched-Reported event_uuid error found (some item ∷ (x ∷ more)) h =
    retried _ refl (λ c. cc (other_matches c h))

read-Reported :
    (event_uuid : String) (answer : ApiAnswer)
    → Reported (IsConfirmed event_uuid answer) (read_answer event_uuid answer)
unfolding read_answer results_result
read-Reported event_uuid (api_error exc) = retried _ refl (λ c. cc (c.is_reply))
read-Reported event_uuid (other_error exc) = retried _ refl (λ c. cc (c.is_reply))
read-Reported event_uuid not_an_object = retried _ refl (λ c. cc (c.is_reply))
read-Reported event_uuid (reply false error results) = retried _ refl (λ c. cc (c.is_reply))
read-Reported event_uuid (reply true error not_a_list) = retried _ refl (λ c. cc (c.is_reply))
read-Reported event_uuid (reply true error (items found)) =
    matched-Reported event_uuid error found _ refl

module _ (uuid_text : ℕ → String) (isoformat : ℕ → String)
    (events : String → String → EventPayload → Database → ApiAnswer × Database)
    (reader_code : String) (event : RawRfidEvent) where
  -- The event passes the sender's tests, and Odoo's answer confirms it.
  pub record IsAcknowledged (db : Database) : Type 0 where
    pub session_key : String
    pub payload : EventPayload
    pub is_prepared :
        prepare uuid_text isoformat (strip reader_code) event db ≡ ok (session_key, payload)
    pub is_confirmed :
        IsConfirmed payload.event_uuid (events session_key (strip reader_code) payload db).0

  -- The preparation is the one of the acknowledgement.
  sent_again :
      (db : Database) {key : String} {payload : EventPayload}
      → prepare uuid_text isoformat (strip reader_code) event db ≡ ok (key, payload)
      → IsAcknowledged db
      → IsConfirmed payload.event_uuid (events key (strip reader_code) payload db).0
  sent_again db {key} {payload} e c =
      let prepared : ok (c.session_key, c.payload) ≡ ok (key, payload) = sym c.is_prepared ∙ e in
      let same : (c.session_key, c.payload) ≡ (key, payload) = cc in
      subst
        (λ (x : String × EventPayload).
          IsConfirmed x.1.event_uuid (events x.0 (strip reader_code) x.1 db).0)
        same c.is_confirmed

  send-quiet :
      (db : Database)
      → ((key code : String) (p : EventPayload) (d : Database) → (events key code p d).1 ≡ d)
      → (send_event uuid_text isoformat events reader_code event db).1 ≡ db
  unfolding send_event
  send-quiet db quiet =
      elim (Result-cases (prepare uuid_text isoformat (strip reader_code) event db)) [
        | inr (x, e) ↦ rw (e, send_event) refl
        | inl ((key, payload), e) ↦ rw (e, send_event) (quiet key (strip reader_code) payload db)
      ]

  send-Reported :
      (db : Database)
      → Reported (IsAcknowledged db) (send_event uuid_text isoformat events reader_code event db).0
  unfolding send_event
  send-Reported db =
      elim (Result-cases (prepare uuid_text isoformat (strip reader_code) event db)) [
        | inr (x, e) ↦ rw (e, send_event) (retried _ refl (λ c. cc (c.is_prepared)))
        | inl ((key, payload), e) ↦
            let answer = (events key (strip reader_code) payload db).0 in
            let reported = read-Reported payload.event_uuid answer in
            rw (e, send_event)
              (record {
                target = reported.target;
                is_target = reported.is_target;
                confirmed = (
                  λ t. record {
                    session_key = key;
                    payload = payload;
                    is_prepared = e;
                    is_confirmed = reported.confirmed.0 t;
                  },
                  λ c. reported.confirmed.1 (sent_again db e c),
                );
                fits = λ c. reported.fits (sent_again db e c);
              })
      ]

  abbrev pub final_send : Sender
  final_send = send_event uuid_text isoformat events reader_code

  -- The queue and the delivery log agree, the retry settings are sane, the event is in the database,
  -- queued or waiting for a retry with attempts left, and the API client leaves the database as it
  -- is: then a delivery with the final sender leaves the event in the state sent exactly if the event
  -- passed the sender's tests and Odoo's answer has one result for it, which says that Odoo has the
  -- event; and the call returns, with the event in the state that it reports, or what the sender
  -- reports is too long for the delivery log, the call raises, and the event is left in flight.
  pub process_confirmed :
      (policy : RetryPolicy) (db : Database)
      → IsLogged db
      → IsSane policy
      → find_event event.event_id db.events ≡ some event
      → can_start event.queue_state ≡ true
      → length (numbers (attempts_of event.event_id db.attempts)) < policy.max_delivery_attempts
      → ((key code : String) (p : EventPayload) (d : Database) → (events key code p d).1 ≡ d)
      → ((state_of event.event_id (process_delivery_candidate policy final_send event db).1
            ≡ some QueueState.sent)
          ↔ IsAcknowledged (waiting_db policy final_send event db QueueState.sent))
        × (((r : SingleEventDeliveryResult) × ((process_delivery_candidate policy final_send event
                  db).0
                ≡ ok r)
              × (state_of event.event_id (process_delivery_candidate policy final_send event db).1
                  ≡ some r.current_state))
            ⊎ ((report_fits (
                    report_of
                      (final_send event (waiting_db policy final_send event db QueueState.sent)).0)
                  ≡ false)
                × ((process_delivery_candidate policy final_send event db).0
                    ≡ err (value_too_long delivery_attempt))
                × (state_of event.event_id (process_delivery_candidate policy final_send event db).1
                    ≡ some inflight)))
  process_confirmed policy db v s present c n quiet =
      let db' = waiting_db policy final_send event db QueueState.sent in
      let reported = send-Reported db' in
      let silent = send-quiet db' quiet in
      elim (Bool-cases (report_fits (report_of (final_send event db').0))) [
        | inl f ↦
            let (r, done, o, q, state) =
              process_settles policy final_send event db reported.target v s present c n silent
                reported.is_target f in
            (
              (
                λ e. reported.confirmed.0 (some-injective (sym state ∙ e)),
                λ a. state ∙ ap some (reported.confirmed.1 a),
              ),
              inl (r, done, state ∙ ap some (sym q)),
            )
        | inr f ↦
            let (raised, state) =
              process_overflows policy final_send event db reported.target v s present c n silent
                reported.is_target f in
            (
              (λ e. absurd (stuck state e), λ a. absurd (too_long f (reported.fits a))),
              inr (f, raised, state),
            )
      ]
    where
      some-injective : {a b : QueueState} → some a ≡ some b → a ≡ b
      some-injective h = cc

      stuck : {q : Option QueueState} → q ≡ some inflight → q ≡ some QueueState.sent → ⊥
      stuck h e = cc

      too_long : {b : Bool} → b ≡ false → b ≡ true → ⊥
      too_long h e = cc
