-- ===== src/Models/Errors.antt =====
-- The exceptions that the database services raise, one constructor for each `raise`.
use rfid.Prelude.{ℕ, String}
use rfid.Protocol.{ProtocolError}
use rfid.Models.Choices.{Role, Status, QueueState, Outcome}

-- The tables of bridge_core/models.py that a query may fail on.
pub data Table : Type 0 where
  reader_device rfid_session raw_rfid_event delivery_attempt : Table

pub data Exception : Type 0 where
  -- the database: `get` without a row, a violated constraint, and a text longer than its column
  does_not_exist : Table → Exception
  integrity_error : Table → Exception
  value_too_long : Table → Exception
  -- queue_policy.py
  unknown_current_state unknown_target_state : String → Exception
  same_state : QueueState → Exception
  illegal_transition : QueueState → QueueState → Exception
  attempt_number_low initial_seconds_low maximum_below_initial : Exception
  -- queue_service.py and delivery_service.py
  max_attempts_low : Exception
  stale_state : QueueState → QueueState → Exception
  cannot_start_from : QueueState → Exception
  max_attempts_reached : ℕ → Exception
  unsupported_outcome : Outcome → Exception
  missing_initial_seconds missing_max_seconds : Exception
  not_inflight : QueueState → Exception
  already_completed : Outcome → Exception
  -- delivery_cycle.py and final_delivery_cycle.py
  batch_size_low retry_initial_low retry_max_low : Exception
  reader_code_empty : Exception
  -- ingestion.py, session_assignment.py and worker_cycle.py
  device_disabled disabled_device_in_cycle : Exception
  not_unassigned already_assigned : Exception
  unsupported_assignment_role incompatible_operation : Exception
  -- final_tag_ingestion.py
  session_key_empty session_key_too_long tag_device_disabled no_active_session : Exception
  not_an_active_tag tag_address_mismatch epc_missing epc_not_ascii : Exception
  tag_frame_failed : ℕ → Exception
  tag_payload : ProtocolError → Exception
  assignment_failed assignment_incomplete assignment_counts_differ : Exception
  event_epc_differs event_of_other_session : Exception
  event_state_invalid : QueueState → Exception
  -- final_session_service.py
  unsupported_role : Role → Exception
  unsupported_operation : String → Exception
  operation_mismatch not_a_start : Exception
  reader_not_found : String → Exception
  session_of_other_reader session_of_other_operation session_not_active : Exception
  reader_busy key_and_code_required session_missing identity_mismatch : Exception
  cannot_close cannot_cancel : Status → Exception
  -- final_delivery_barrier.py
  barrier_needs_key barrier_needs_code : Exception
  barrier_failed barrier_pending : ℕ → Exception
  -- raised by code that is not modelled, with its text
  foreign : String → Exception
