-- ===== src/Session/Service.antt =====
-- bridge_core/final_session_service.py: opening, closing and cancelling the local session of a
-- reader.
use rfid.Prelude.{
  ℕ, ◌+◌, Bool, true, false, not, ◌&&◌, ◌||◌, Option, none, some, String, List, ◌∷◌, ◌==◌, nat_eq,
  string_eq, find?, if◌then◌else◌,
}
use rfid.Prelude.Text.{strip}
use rfid.Result.{Result, ok, err, raise_if, ◌>>=◌, ◌>>◌}
use rfid.Models.{
  Role, receiving, dispatching, other_role, Operation, receipt, dispatch, operation_eq, Status,
  active, closed, cancelled, status_eq, ReaderDevice, RfidSession, Database, Exception,
  unsupported_role, unsupported_operation, operation_mismatch, not_a_start, reader_not_found,
  session_of_other_reader, session_of_other_operation, session_not_active, reader_busy,
  key_and_code_required, session_missing, identity_mismatch, cannot_close, cannot_cancel,
  does_not_exist, reader_device,
}
use rfid.Models.Orm.{Transaction, found, save_session}
use rfid.Runtime.{OdooRfidCommand, start, command_eq}

-- `_OPERATION_BY_ROLE.get(reader.role)`
unfoldable pub operation_by_role : Role → Option Operation
operation_by_role receiving = some receipt
operation_by_role dispatching = some dispatch
operation_by_role (other_role _) = none

-- The string that stands for an operation; a command without one asks for "".
abbrev pub operation_value : Option Operation → String
operation_value none = ""
operation_value (some receipt) = "receipt"
operation_value (some dispatch) = "dispatch"

-- `requested_operation in valid_operations`, with the operation.
abbrev pub valid_operation : String → Result Exception Operation
valid_operation s =
    if s == "receipt"
    then ok receipt
    else if s == "dispatch"
    then ok dispatch
    else err (unsupported_operation s)

abbrev role_operation_of : ReaderDevice → Result Exception Operation
role_operation_of reader = found (unsupported_role reader.role) (operation_by_role reader.role)

abbrev checked_operation : ReaderDevice → Operation → String → Result Exception Operation
checked_operation reader role_operation requested = do
  requested_operation ← valid_operation requested
  raise_if (not reader.shared_operations && not (requested_operation == role_operation))
      operation_mismatch
  ok (if reader.shared_operations then requested_operation else role_operation)

-- `_operation_for_reader`
unfoldable pub operation_for_reader : ReaderDevice → String → Result Exception Operation
operation_for_reader reader requested_operation = do
  role_operation ← role_operation_of reader
  let requested = strip requested_operation
  let checked = checked_operation reader role_operation requested
  if requested == "" then ok role_operation else checked

-- `RFIDSession.objects.filter(external_session_key=…).first()`; the keys are unique.
abbrev pub session_of_key : String → List RfidSession → Option RfidSession
session_of_key key = find? (λ s. s.external_session_key == key)

-- `RFIDSession.objects.filter(device=…, status=ACTIVE).first()`
abbrev pub active_session : ℕ → List RfidSession → Option RfidSession
active_session device_id = find? (λ s. s.device_id == device_id && s.status == active)

-- `ReaderDevice.objects.get(code=…, enabled=True)`
abbrev pub enabled_reader : String → List ReaderDevice → Option ReaderDevice
enabled_reader code = find? (λ d. d.code == code && d.enabled)

pub record SessionSyncResult : Type 0 where
  pub session : RfidSession
  pub created : Bool
  pub reused : Bool

abbrev pub reused_session : RfidSession → SessionSyncResult
reused_session session = record { session = session; created = false; reused = true }

-- The checks on a session that has the key of the command.
unfoldable pub reuse : ReaderDevice → Operation → RfidSession → Transaction SessionSyncResult
reuse reader operation existing db = do
  raise_if (not (existing.device_id == reader.id)) session_of_other_reader
  raise_if (not (existing.operation_type == operation)) session_of_other_operation
  raise_if (not (existing.status == active)) session_not_active
  ok (reused_session existing, db)

-- The row that `RFIDSession.objects.create` inserts.
abbrev pub new_session : OdooRfidCommand → ReaderDevice → Operation → Database → RfidSession
new_session command reader operation db = record {
  id = db.next_id;
  external_session_key = command.session_key;
  device_id = reader.id;
  operation_type = operation;
  odoo_reference = command.picking;
  status = active;
  closed_at = none;
}

abbrev pub insert_session : RfidSession → Database → Database
insert_session session db = record db { sessions = session ∷ db.sessions; next_id = db.next_id + 1 }

unfoldable pub create : OdooRfidCommand → ReaderDevice → Operation → Transaction SessionSyncResult
create command reader operation db = elim (active_session reader.id db.sessions) [
  | some conflicting ↦ err reader_busy
  | none ↦ ok (
    record { session = new_session command reader operation db; created = true; reused = false },
    insert_session (new_session command reader operation db) db,
  )
]

unfoldable pub synchronize_start_command : OdooRfidCommand → Transaction SessionSyncResult
synchronize_start_command command db = do
  raise_if (not (command.command == start)) not_a_start
  reader ←
      found (reader_not_found command.reader_code) (enabled_reader command.reader_code db.devices)
  operation ← operation_for_reader reader (operation_value command.operation)
  elim (session_of_key command.session_key db.sessions) [
    | some existing ↦ reuse reader operation existing db
    | none ↦ create command reader operation db
  ]

-- `session.device`, a foreign key that is not null.
abbrev pub device_of : RfidSession → Database → Result Exception ReaderDevice
device_of session db =
    found (does_not_exist reader_device) (find? (λ d. d.id == session.device_id) db.devices)

-- `session.status = status; session.closed_at = timezone.now(); session.save(update_fields=…)`
abbrev pub ended : RfidSession → Status → Database → RfidSession
ended session status db = record session { status = status; closed_at = some db.now }

abbrev pub save_ended : RfidSession → Status → Database → RfidSession × Database
save_ended session status db = (
  ended session status db,
  record db { sessions = save_session (ended session status db) db.sessions },
)

-- The common part of closing and cancelling, behind the check of the arguments: a session that has
-- the status already is returned as it is.
unfoldable pub end_session : Status → Exception → String → String → Transaction RfidSession
end_session status e key code db = do
  session ← found session_missing (session_of_key key db.sessions)
  device ← device_of session db
  raise_if (not (device.code == code)) identity_mismatch
  raise_if (not (session.status == status) && not (session.status == active)) e
  if session.status == status then ok (session, db) else ok (save_ended session status db)

-- What the error message of `end_session` tells of the session.
abbrev pub status_of : String → Database → Status
status_of key db = elim (session_of_key key db.sessions) [ none ↦ active | some s ↦ s.status ]

unfoldable pub close_local_session : String → String → Transaction RfidSession
close_local_session session_key reader_code db = do
  let key = strip session_key
  let code = strip reader_code
  raise_if (key == "" || code == "") key_and_code_required
  end_session closed (cannot_close (status_of key db)) key code db

unfoldable pub cancel_local_session : String → String → Transaction RfidSession
cancel_local_session session_key reader_code db = do
  let key = strip session_key
  let code = strip reader_code
  end_session cancelled (cannot_cancel (status_of key db)) key code db
