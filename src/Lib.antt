-- ===== src/Lib.antt =====
-- The RFID bridge takes tag reads from RFID readers over TCP, keeps them as events in a database, and
-- delivers them to Odoo, which starts and stops the readings. This library models its core as
-- functions over values, with theorems about them.
--
-- The parts and their files:
-- - Models: bridge_core/models.py. The tables are lists in a `Database` value with a clock and a
--   counter of primary keys; Models/Orm has the queries and writes of the Django ORM that the services
--   use. A service under `transaction.atomic` is a `Transaction`: it returns with a new database or
--   raises and leaves the old one. Models/Errors has one constructor for each `raise`.
-- - Queue: bridge_core/queue_policy.py (`validate_queue_transition`, `calculate_retry_delay_seconds`)
--   and bridge_core/queue_service.py. Queue/Transitions describes the life cycle as a relation.
-- - Delivery: bridge_core/delivery_service.py in Delivery/Attempts, bridge_core/delivery_cycle.py in
--   Delivery/Cycle, bridge_core/final_delivery_barrier.py in Delivery/Barrier, and
--   bridge_core/final_delivery_cycle.py in Delivery/Final, and bridge_core/final_odoo_event_sender.py
--   in Delivery/FinalSender, a sender over an API client that is a parameter. A delivery is two
--   transactions with the network between them. The sender is a parameter that may change the
--   database, as other processes do, and may raise. Delivery/Log says when queue states and delivery
--   logs agree.
-- - Protocol: bridge_core/reader_protocol.py, frames and `FrameStreamDecoder`, with the parsers of
--   tag data in Protocol/Tag. Bytes are numbers below 256 and the decoder's state is its buffer. The loop
--   of `feed` runs on fuel, one more than the number of bytes, which is enough since each round but
--   the last removes a byte; Protocol/Stream says what the loop does without fuel.
-- - Runtime: bridge_core/final_runtime_state.py, `OdooRFIDCommand.from_payload` and the methods of
--   `LocalReaderRuntime`. Runtime/Diagram has the diagram of the states.
-- - Orchestrator: bridge_core/final_runtime_orchestrator.py. An action works on the runtime, the database
--   and the trace of the calls made so far, and may raise; what it has done stays. The API client, the
--   reader executor and the hooks answer by an `Environment`, which may depend on the whole trace and
--   change the database. Orchestrator/Trace and Orchestrator/Triples have the rules for reasoning
--   about actions.
-- - Worker: bridge_core/final_worker_cycle.py, with the barrier in Worker/Hooks and the rounds in
--   Worker/Cycle. Its orchestrator is the one of Orchestrator and its tag ingestion the one of Intake;
--   the reader executor and the capture service answer as parameters.
--   Worker/Capture has bridge_core/final_capture_service.py, as the steps of the worker and of the
--   capture thread in any order; the thread's steps are those between which the worker can see a
--   difference.
-- - Reader: bridge_core/reader_transport.py in Reader/Transport and Reader/Exchange,
--   bridge_core/final_reader_executor.py in Reader/Inventory and Reader/Polls. A session's state is
--   the decoder's buffer and whether its socket is open; what the socket will do is a list of
--   answers, which the theorems take as it comes. Frames are those of Protocol.
-- - Session: bridge_core/final_session_service.py, with the constraints of the session table in
--   Session/Unique.
-- - Intake: bridge_core/ingestion.py in Intake/Ingestion; bridge_core/session_assignment.py and
--   bridge_core/session_assignment_cycle.py in Intake/Assignment; bridge_core/worker_cycle.py in
--   Intake/Cycle; bridge_core/final_tag_ingestion.py in Intake/FinalTags, where SHA-256 and JSON are
--   parameters. Intake uses the queries of Session and the policy of Queue. An ingestion outside a
--   transaction that raises leaves the rows before the one that raised.
-- - Prelude and Result hold what the parts share; Tests runs the model on concrete inputs.
--
-- Numbers are natural numbers: the program's are unbounded, and where one may be negative the model
-- says how it stands for that. Times are whole seconds. A query with `get` on a unique key finds the
-- first row; the keys are unique in the database.
--
-- A row whose event key, EPC, response code or kind of error is longer than its column raises where it
-- is saved. The widths of the other text columns are not modelled, and no text has a NUL character,
-- which PostgreSQL refuses.
--
-- Not modelled: sockets, threads and HTTP; web pages, forms and command-line loops; settings and
-- encryption; the legacy reader client.
pub mod Prelude
pub mod Result
pub mod Models
pub mod Queue
pub mod Delivery
pub mod Protocol
pub mod Runtime
pub mod Session
pub mod Intake
pub mod Orchestrator
pub mod Worker
pub mod Reader
pub mod Tests
