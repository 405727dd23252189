-- ===== src/Reader/Exchange.antt =====
-- The exchange of one frame for its answers, over a session of its own.
use rfid.Prelude.{ℕ, false, List, length, ltb, ◌==◌, nat_eq, if◌then◌else◌}
use rfid.Result.{err}
use rfid.Protocol.{RfidFrame}
use rfid.Reader.Io.{empty_frame, no_expected_command, reads_low, Io, finally, ◌>>◌}
use rfid.Reader.Transport.{Port, fresh, enter, close_session, send, receive}

-- `TCPReaderSession.exchange`
unfoldable pub exchange : List ℕ → List ℕ → ℕ → Io Port (List RfidFrame)
exchange outbound_frame expected maximum_reads = do
  send outbound_frame
  receive expected maximum_reads false

abbrev entered_exchange : List ℕ → List ℕ → ℕ → Io Port (List RfidFrame)
entered_exchange outbound_frame expected maximum_reads = do
  enter
  exchange outbound_frame expected maximum_reads

-- `TCPReaderTransport.exchange`, on a session of its own.
unfoldable pub transport_exchange : List ℕ → List ℕ → ℕ → Io Port (List RfidFrame)
transport_exchange outbound_frame expected maximum_reads p =
    if length outbound_frame == 0
    then (err empty_frame, p)
    else if length expected == 0
    then (err no_expected_command, p)
    else if ltb maximum_reads 1
    then (err reads_low, p)
    else finally close_session (entered_exchange outbound_frame expected maximum_reads (fresh p))
