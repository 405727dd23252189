-- ===== src/Intake/Assigned.antt =====
-- The assignment of events to sessions keeps the queue and the delivery log in agreement, and loses
-- no event in its counts.
use rfid.Prelude.{
  ℕ, ◌+◌, ◌≡◌, refl, inl, inr, some, List, [], ◌∷◌, length, ◌==◌, nat_eq, subst, sym, arith,
  Option-cases, Bool-cases, ◌∙◌, nat_beq_iff,
}
use rfid.Result.{ok, Result-cases}
use rfid.Models.{unassigned, state_eq, RfidSession, RawRfidEvent, Database, Exception}
use rfid.Models.Orm.{find_event, save_event, find_event-save_event, find_event-key}
use rfid.Delivery.{IsLogged, History, outcomes, attempts_of}
use rfid.Intake.Assignment.{
  SessionAssignmentResult, device_of_event, get_active_session, assigned,
  assign_event_to_active_session, AssignmentCycleResult, count_exception, assign_all,
  run_active_session_assignment_cycle,
}

-- What an assignment that returned has done.
pub record Assigns (event_id : ℕ) (db db' : Database) : Type 0 where
  pub event : RawRfidEvent
  pub session : RfidSession
  pub was_found : find_event event_id db.events ≡ some event
  pub was_unassigned : event.queue_state ≡ unassigned
  pub result : db' ≡ record db { events = save_event (assigned event session) db.events }

pub assign-Assigns :
    (event_id : ℕ) (db : Database) {r : SessionAssignmentResult} {db' : Database}
    → assign_event_to_active_session event_id db ≡ ok (r, db')
    → Assigns event_id db db'
unfolding assign_event_to_active_session
assign-Assigns event_id db {r} {db'} h = elim (Option-cases (find_event event_id db.events)) [
  | inl e ↦ absurd (ground arith)
  | inr (event, e) ↦ elim (Result-cases (device_of_event event db)) [
    | inr (x, f) ↦ absurd (ground arith)
    | inl (d, f) ↦ elim (Result-cases (get_active_session event.device_id db)) [
      | inr (x, g) ↦ absurd (ground arith)
      | inl (session, g) ↦ record {
        event = event;
        session = session;
        was_found = e;
        was_unassigned = ground arith;
        result = ground arith;
      }
    ]
  ]
]

Assigns-agrees :
    {event_id : ℕ} {db db' : Database}
    → IsLogged db
    → (a : Assigns event_id db db') (i : ℕ) (e : RawRfidEvent)
    → find_event i (save_event (assigned a.event a.session) db.events) ≡ some e
    → History e.queue_state (outcomes (attempts_of i db.attempts))
Assigns-agrees {event_id} {db} v a i e h =
    let saved = find_event-save_event i (assigned a.event a.session) db.events in
    elim (Bool-cases (a.event.event_id == i)) [
      | inl here ↦
          let key : event_id ≡ i =
            sym (find_event-key event_id db.events a.was_found)
            ∙ (nat_beq_iff a.event.event_id i).0 here in
          let there : find_event i db.events ≡ some a.event =
            subst (λ j. find_event j db.events ≡ some a.event) key a.was_found in
          let row : assigned a.event a.session ≡ e = ground (arith, saved) in
          let log = outcomes (attempts_of i db.attempts) in
          subst (λ (x : RawRfidEvent). History x.queue_state log) row
            (subst (λ s. History s log) a.was_unassigned (v.agrees i a.event there))
      | inr other ↦ v.agrees i e (ground (arith, saved))
    ]

Assigns-IsLogged :
    {event_id : ℕ} {db db' : Database} → IsLogged db → Assigns event_id db db' → IsLogged db'
Assigns-IsLogged v a =
    rw a.result (record { agrees = Assigns-agrees v a; numbered = v.numbered; fresh = v.fresh })

-- The counters of a cycle together.
abbrev pub total : AssignmentCycleResult → ℕ
total r = r.assigned_count + r.unassigned_count + r.failed_count

total-count_exception :
    (e : Exception) (r : AssignmentCycleResult) → total (count_exception e r) ≡ total r + 1
total-count_exception e r = ground arith

selected-count_exception :
    (e : Exception) (r : AssignmentCycleResult)
    → (count_exception e r).selected_count ≡ r.selected_count
selected-count_exception e r = ground arith

assign_all-total :
    (event_ids : List ℕ) (r : AssignmentCycleResult) (db : Database)
    → (total (assign_all event_ids r db).0 ≡ total r + length event_ids)
      × ((assign_all event_ids r db).0.selected_count ≡ r.selected_count)
unfolding assign_all
assign_all-total [] r db = (omega arith, refl)
assign_all-total (i ∷ event_ids) r db = elim (Result-cases (assign_event_to_active_session i db)) [
  | inr (x, e) ↦
      let rest = assign_all-total event_ids (count_exception x r) db in
      rw (e, assign_all)
        (omega (arith, rest.0, total-count_exception x r), rest.1 ∙ selected-count_exception x r)
  | inl ((a, db'), e) ↦
      let rest =
        assign_all-total event_ids (record r { assigned_count = r.assigned_count + 1 }) db' in
      rw (e, assign_all) (omega (arith, rest.0), rest.1)
]

assign_all-IsLogged :
    (event_ids : List ℕ) (r : AssignmentCycleResult) (db : Database)
    → IsLogged db
    → IsLogged (assign_all event_ids r db).1
unfolding assign_all
assign_all-IsLogged [] r db v = v
assign_all-IsLogged (i ∷ event_ids) r db v =
    elim (Result-cases (assign_event_to_active_session i db)) [
      | inr (x, e) ↦ rw (e, assign_all) (assign_all-IsLogged event_ids (count_exception x r) db v)
      | inl ((a, db'), e) ↦
          rw (e, assign_all)
            (assign_all-IsLogged event_ids (record r { assigned_count = r.assigned_count + 1 }) db'
              (Assigns-IsLogged v (assign-Assigns i db e)))
    ]

-- Whatever events a cycle is given, each of them counts once, as assigned, unassigned or failed; and
-- if the queue and the delivery log agree before the cycle, they agree after it.
pub run-assigns :
    (event_ids : List ℕ) (db : Database)
    → IsLogged db
    → ((run_active_session_assignment_cycle event_ids db).0.selected_count ≡ length event_ids)
      × (total (run_active_session_assignment_cycle event_ids db).0 ≡ length event_ids)
      × IsLogged (run_active_session_assignment_cycle event_ids db).1
unfolding run_active_session_assignment_cycle
run-assigns event_ids db v =
    let begin : AssignmentCycleResult = record {
      selected_count = length event_ids;
      assigned_count = 0;
      unassigned_count = 0;
      failed_count = 0;
    } in
    let counted = assign_all-total event_ids begin db in
    (counted.1, omega (arith, counted.0), assign_all-IsLogged event_ids begin db v)
