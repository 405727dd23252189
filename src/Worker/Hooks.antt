-- ===== src/Worker/Hooks.antt =====
-- The hooks that `FinalWorkerCycle` gives to the orchestrator.
use rfid.Prelude.{Bool, true, String, ◌==◌, string_eq}
use rfid.Result.{Result, ok, err}
use rfid.Models.{Database}
use rfid.Delivery.{require_final_session_delivery_complete}
use rfid.Orchestrator.{Failure, service, barrier_reader_mismatch}

-- `require_stop_delivery_complete` of a worker for the device with the code.
unfoldable pub require_stop_delivery_complete :
    String → String → String → Database → Result Failure Bool
require_stop_delivery_complete device_code session_key reader_code db =
    elim (reader_code == device_code) [
      | Bool.false ↦ err barrier_reader_mismatch
      | true ↦ elim (require_final_session_delivery_complete session_key reader_code db) [
        | err e ↦ err (service e)
        | ok r ↦ ok true
      ]
    ]
