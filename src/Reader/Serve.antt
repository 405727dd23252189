-- ===== src/Reader/Serve.antt =====
-- The calls that the worker makes of an executor, one after the other.
use rfid.Result.{Result, ok, raise_if, ◌>>◌}
use rfid.Prelude.Text.{strip}
use rfid.Reader.Io.{ReaderError, reader_disabled, reader_not_active_mode, reader_without_host}
use rfid.Prelude.{not, ◌==◌, string_eq, Bool, String, List, [], ◌∷◌, none}
use rfid.Reader.Inventory.{ReaderSettings, Executor, start, stop, close}
use rfid.Reader.Polls.{poll_tag_frames, take_pending_tag_frames, verify_idle}
use rfid.Reader.Transport.{Answer}

pub data Request : Type 0 where
  start_reader stop_reader : String → String → Request
  poll take_pending verify close_reader : Request

-- The executor behind a call, whether it has returned or raised.
unfoldable pub after_request : ReaderSettings → Request → Executor → Executor
after_request device (start_reader key code) e = (start device key code e).1
after_request device (stop_reader key code) e = (stop device key code e).1
after_request device poll e = (poll_tag_frames device e).1
after_request device take_pending e = (take_pending_tag_frames e).1
after_request device verify e = (verify_idle device e).1
after_request device close_reader e = close e

unfoldable pub after_requests : ReaderSettings → List Request → Executor → Executor
after_requests device [] e = e
after_requests device (r ∷ requests) e = after_requests device requests (after_request device r e)

-- `__init__`, on a network with the answers to come.
abbrev pub new_executor : List Answer → Executor
new_executor answers = record {
  has_session = Bool.false;
  active_session_key = none;
  pending_tag_frames = [];
  port = record {
    is_open = Bool.false;
    buffer = [];
    answers = answers;
    open_sockets = 0;
    sent = [];
  };
}

unfoldable pub validate_device : ReaderSettings → Result ReaderError (Unit {0})
validate_device device = do
  raise_if (not device.enabled) reader_disabled
  raise_if (not device.inventory_is_active) reader_not_active_mode
  raise_if (strip device.connection.host == "") reader_without_host
  ok tt

-- `__init__`
unfoldable pub make_executor : ReaderSettings → List Answer → Result ReaderError Executor
make_executor device answers = do validate_device device; ok (new_executor answers)
