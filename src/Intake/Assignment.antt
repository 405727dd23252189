-- ===== src/Intake/Assignment.antt =====
-- bridge_core/session_assignment.py and bridge_core/session_assignment_cycle.py: an event goes to the
-- active session of its reader and into the queue.
use rfid.Prelude.{
  ℕ, ◌+◌, Bool, not, ◌&&◌, Option, none, some, List, [], ◌∷◌, length, find?, ◌==◌, nat_eq,
}
use rfid.Result.{Result, ok, err, raise_if, ◌>>=◌, ◌>>◌}
use rfid.Models.{
  operation_eq, QueueState, unassigned, queued, state_eq, ReaderDevice, RfidSession, RawRfidEvent,
  Database, Exception, does_not_exist, rfid_session, reader_device, not_unassigned,
  already_assigned, unsupported_assignment_role, incompatible_operation,
}
use rfid.Models.Orm.{Transaction, found, save_event}
use rfid.Queue.{get_event, validate_states}
use rfid.Session.{operation_by_role, active_session}

pub record SessionAssignmentResult : Type 0 where
  pub event_id : ℕ
  pub session_id : ℕ
  pub previous_state : QueueState
  pub current_state : QueueState

abbrev pub is_assigned : Option ℕ → Bool
is_assigned none = Bool.false
is_assigned (some _) = Bool.true

-- `event.device`, a foreign key that is not null.
abbrev pub device_of_event : RawRfidEvent → Database → Result Exception ReaderDevice
device_of_event event db =
    found (does_not_exist reader_device) (find? (λ d. d.id == event.device_id) db.devices)

-- `RFIDSession.objects.get(device_id=…, status=ACTIVE)`; a reader has one active session at most.
abbrev pub get_active_session : ℕ → Database → Result Exception RfidSession
get_active_session device_id db =
    found (does_not_exist rfid_session) (active_session device_id db.sessions)

-- The event as it is saved.
abbrev pub assigned : RawRfidEvent → RfidSession → RawRfidEvent
assigned event session = record event { rfid_session_id = some session.id; queue_state = queued }

unfoldable pub assign_event_to_active_session : ℕ → Transaction SessionAssignmentResult
assign_event_to_active_session event_id db = do
  event ← get_event event_id db
  device ← device_of_event event db
  raise_if (not (event.queue_state == unassigned)) not_unassigned
  raise_if (is_assigned event.rfid_session_id) already_assigned
  session ← get_active_session event.device_id db
  expected_operation ← found unsupported_assignment_role (operation_by_role device.role)
  raise_if (not device.shared_operations && not (session.operation_type == expected_operation))
      incompatible_operation
  validate_states event.queue_state queued
  ok (
    record {
      event_id = event.event_id;
      session_id = session.id;
      previous_state = event.queue_state;
      current_state = queued;
    },
    record db { events = save_event (assigned event session) db.events },
  )

pub record AssignmentCycleResult : Type 0 where
  pub selected_count : ℕ
  pub assigned_count : ℕ
  pub unassigned_count : ℕ
  pub failed_count : ℕ

-- `except RFIDSession.DoesNotExist` and `except Exception`
abbrev pub count_exception : Exception → AssignmentCycleResult → AssignmentCycleResult
count_exception (does_not_exist rfid_session) r = record r {
  unassigned_count = r.unassigned_count + 1;
}
count_exception _ r = record r { failed_count = r.failed_count + 1 }

-- The loop, over the counters of an unfinished result.
unfoldable pub assign_all :
    List ℕ → AssignmentCycleResult → Database → AssignmentCycleResult × Database
assign_all [] r db = (r, db)
assign_all (event_id ∷ event_ids) r db = elim (assign_event_to_active_session event_id db) [
  | err e ↦ assign_all event_ids (count_exception e r) db
  | ok (a, db') ↦ assign_all event_ids (record r { assigned_count = r.assigned_count + 1 }) db'
]

unfoldable pub run_active_session_assignment_cycle :
    List ℕ → Database → AssignmentCycleResult × Database
run_active_session_assignment_cycle event_ids = assign_all event_ids (record {
  selected_count = length event_ids;
  assigned_count = 0;
  unassigned_count = 0;
  failed_count = 0;
})
