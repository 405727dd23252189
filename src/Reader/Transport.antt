-- ===== src/Reader/Transport.antt =====
-- bridge_core/reader_transport.py: a TCP session with a reader. What the socket will do is a list of
-- answers, one for each call of it, which the theorems take as it comes; where it ends the reader is
-- silent.
use rfid.Prelude.{
  ℕ, zero, suc, ◌+◌, ◌-◌, Bool, true, false, not, ◌||◌, String, List, [], ◌∷◌, filter, length, ltb,
  ◌==◌, nat_eq, string_eq, if◌then◌else◌,
}
use rfid.Prelude.Text.{strip}
use rfid.Result.{Result, ok, err, raise_if, ◌>>◌}
use rfid.Protocol.{RfidFrame, feed}
use rfid.Reader.Io.{
  ReaderError, host_empty, port_out_of_range, connect_timeout_out_of_range,
  read_timeout_out_of_range, receive_size_low, already_open, connection_failed, not_open,
  empty_frame, send_failed, no_expected_command, reads_low, receive_failed, incomplete_frame,
  no_response, Io,
}

pub record TcpReaderConnection : Type 0 where
  pub host : String
  pub port : ℕ
  pub connect_timeout_seconds : ℕ
  pub read_timeout_seconds : ℕ

abbrev outside : ℕ → ℕ → ℕ → Bool
outside low high n = ltb n low || ltb high n

unfoldable pub validate_connection : TcpReaderConnection → Result ReaderError (Unit {0})
validate_connection c = do
  raise_if (strip c.host == "") host_empty
  raise_if (outside 1 65535 c.port) port_out_of_range
  raise_if (outside 1 300 c.connect_timeout_seconds) connect_timeout_out_of_range
  raise_if (outside 1 300 c.read_timeout_seconds) read_timeout_out_of_range
  ok tt

-- What a call of the socket comes to. Connecting and sending use no bytes of it.
pub data Answer : Type 0 where
  bytes : List ℕ → Answer
  timed_out os_error : Answer

-- A session of the transport, and the network that it works on: the answers to come, the number of
-- sockets that are open, and what has been sent, newest first.
pub record Port : Type 0 where
  pub is_open : Bool
  pub buffer : List ℕ
  pub answers : List Answer
  pub open_sockets : ℕ
  pub sent : List (List ℕ)

-- The answer to the next call.
abbrev pub answered : Port → Answer × Port
answered p = elim p.answers [ [] ↦ (timed_out, p) | a ∷ rest ↦ (a, record p { answers = rest }) ]

-- `open_session`: a session object that has not been entered.
abbrev pub fresh : Port → Port
fresh p = record p { is_open = false; buffer = [] }

abbrev pub connected : Answer × Port → Result ReaderError (Unit {0}) × Port
connected (bytes xs, p) = (ok tt, record p { is_open = true; open_sockets = p.open_sockets + 1 })
connected (timed_out, p) = (err connection_failed, p)
connected (os_error, p) = (err connection_failed, p)

-- `__enter__`; `settimeout` with a positive number of seconds does not fail.
unfoldable pub enter : Io Port (Unit {0})
enter p = if p.is_open then (err already_open, p) else connected (answered p)

-- `close`
unfoldable pub close_session : Port → Port
close_session p =
    if p.is_open then record p { is_open = false; open_sockets = p.open_sockets - 1 } else p

abbrev pub delivered : List ℕ → Answer × Port → Result ReaderError (Unit {0}) × Port
delivered frame (bytes xs, p) = (ok tt, record p { sent = frame ∷ p.sent })
delivered frame (timed_out, p) = (err send_failed, p)
delivered frame (os_error, p) = (err send_failed, p)

unfoldable pub send : List ℕ → Io Port (Unit {0})
send [] p = (err (if p.is_open then empty_frame else not_open), p)
send (b ∷ frame) p = if p.is_open then delivered (b ∷ frame) (answered p) else (err not_open, p)

-- `frame.command in expected_commands`
abbrev pub is_expected : List ℕ → RfidFrame → Bool
is_expected [] frame = false
is_expected (c ∷ commands) frame = frame.command == c || is_expected commands frame

-- Behind the loop.
abbrev pub nothing_came : Port → Result ReaderError (List RfidFrame) × Port
nothing_came p = (err (if ltb 0 (length p.buffer) then incomplete_frame else no_response), p)

-- The frames that a chunk completes, and the decoder's new buffer.
abbrev pub fed : Port → List ℕ → List RfidFrame × Port
fed p chunk = let (frames, rest) = feed p.buffer chunk in (frames, record p { buffer = rest })

-- A round of `receive`, in which no frame has matched so far; `again` is the rounds behind it.
unfoldable pub receive_matched :
    Io Port (List RfidFrame) → List RfidFrame → Io Port (List RfidFrame)
receive_matched again [] p = again p
receive_matched again (f ∷ frames) p = (ok (f ∷ frames), p)

unfoldable pub receive_answer :
    List ℕ
    → Bool
    → Io Port (List RfidFrame)
    → Answer × Port
    → Result ReaderError (List RfidFrame) × Port
receive_answer expected true again (timed_out, p) = (ok [], p)
receive_answer expected false again (timed_out, p) = (err receive_failed, p)
receive_answer expected empty_on_timeout again (os_error, p) = (err receive_failed, p)
receive_answer expected empty_on_timeout again (bytes [], p) = nothing_came p
receive_answer expected empty_on_timeout again (bytes (b ∷ chunk), p) =
    receive_matched again (filter (is_expected expected) (fed p (b ∷ chunk)).0)
      (fed p (b ∷ chunk)).1

unfoldable pub receive_rounds : List ℕ → Bool → ℕ → Io Port (List RfidFrame)
receive_rounds expected empty_on_timeout zero p = nothing_came p
receive_rounds expected empty_on_timeout (suc n) p =
    receive_answer expected empty_on_timeout (receive_rounds expected empty_on_timeout n)
      (answered p)

unfoldable pub receive : List ℕ → ℕ → Bool → Io Port (List RfidFrame)
receive expected maximum_reads empty_on_timeout p =
    if not p.is_open
    then (err not_open, p)
    else if length expected == 0
    then (err no_expected_command, p)
    else if ltb maximum_reads 1
    then (err reads_low, p)
    else receive_rounds expected empty_on_timeout maximum_reads p

-- `TCPReaderTransport.__init__`
unfoldable pub make_transport : TcpReaderConnection → ℕ → Result ReaderError (Unit {0})
make_transport connection receive_size = do
  validate_connection connection
  raise_if (ltb receive_size 9) receive_size_low
  ok tt
