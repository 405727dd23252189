-- ===== src/Reader/Io.antt =====
-- Computations over a state that may raise; what they have done stays.
use rfid.Prelude.{ℕ}
use rfid.Result.{Result, ok, err}
use rfid.Protocol.{ProtocolError}

-- `RFIDTransportError`, `FinalReaderExecutorError` and `RFIDProtocolError`, one constructor for each
-- `raise`.
pub data ReaderError : Type 0 where
  host_empty port_out_of_range connect_timeout_out_of_range : ReaderError
  read_timeout_out_of_range receive_size_low : ReaderError
  already_open connection_failed not_open empty_frame send_failed : ReaderError
  no_expected_command reads_low receive_failed incomplete_frame no_response : ReaderError
  reader_disabled reader_not_active_mode reader_without_host : ReaderError
  protocol : ProtocolError → ReaderError
  address_mismatch tag_frame_failed : ReaderError
  rejected : ℕ → ReaderError
  no_answer still_active identity_mismatch session_key_missing other_session not_active :
      ReaderError

abbrev pub Io : Type 0 → Type 0 → Type 0
Io S A = S → Result ReaderError A × S

module _ {S A B : Type 0} where
  unfoldable pub and_then : (A → Io S B) → Result ReaderError A × S → Result ReaderError B × S
  and_then k (err e, s) = (err e, s)
  and_then k (ok a, s) = k a s

  infixl 5 ◌>>=◌ ◌>>◌
  abbrev pub ◌>>=◌ : Io S A → (A → Io S B) → Io S B
  ◌>>=◌ m k s = and_then k (m s)

  abbrev pub ◌>>◌ : Io S A → Io S B → Io S B
  ◌>>◌ m k = m >>= λ _. k

abbrev pub pure : {S A : Type 0} → A → Io S A
pure a s = (ok a, s)

abbrev pub throw : {S A : Type 0} → ReaderError → Io S A
throw e s = (err e, s)

-- `if test: raise e`, where the test has been computed without a call.
abbrev pub checked : {S A : Type 0} → Result ReaderError A → Io S A
checked r s = (r, s)

-- `try: m finally: last`
unfoldable pub finally :
    {S A : Type 0} → (S → S) → Result ReaderError A × S → Result ReaderError A × S
finally last (r, s) = (r, last s)

-- `try: m except Exception: undo; raise`
unfoldable pub undone_on_error :
    {S A : Type 0} → (S → S) → Result ReaderError A × S → Result ReaderError A × S
undone_on_error undo (err e, s) = (err e, undo s)
undone_on_error undo (ok a, s) = (ok a, s)
