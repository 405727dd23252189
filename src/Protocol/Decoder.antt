-- ===== src/Protocol/Decoder.antt =====
-- `FrameStreamDecoder` of bridge_core/reader_protocol.py: frames out of a stream of bytes.
use rfid.Prelude.{
  ℕ, zero, suc, ◌+◌, ◌*◌, ◌||◌, List, [], ◌∷◌, ◌++◌, length, take, drop, ltb, ◌==◌, nat_eq,
  if◌then◌else◌,
}
use rfid.Result.{ok, err}
use rfid.Protocol.Frame.{RfidFrame, sof, min_frame_length, max_frame_length, parse_frame}

-- `del self._buffer[:sof_position]`; nothing is left where no SOF is found.
unfoldable pub sync : List ℕ → List ℕ
sync [] = []
sync (x ∷ xs) = let rest = sync xs in if x == sof then x ∷ xs else rest

-- What one round of the `while` loop does: stop with the bytes that stay, drop a byte and go on, or
-- give a frame out.
pub data Round : Type 0 where
  stop : List ℕ → Round
  skip : List ℕ → Round
  emit : RfidFrame → List ℕ → Round

-- The round behind the SOF, on a buffer whose first three bytes are there.
unfoldable pub candidate : ℕ → List ℕ → List ℕ → Round
candidate declared_length buffer rest =
    if ltb declared_length min_frame_length || ltb max_frame_length declared_length
    then skip rest
    else if ltb (length buffer) declared_length
    then stop buffer
    else elim (parse_frame (take declared_length buffer)) [
      | err e ↦ skip rest
      | ok frame ↦ emit frame (drop declared_length buffer)
    ]

unfoldable pub synced_round : List ℕ → Round
unfolding candidate
synced_round [] = stop []
synced_round (s ∷ []) = stop (s ∷ [])
synced_round (s ∷ hi ∷ []) = stop (s ∷ hi ∷ [])
synced_round (s ∷ hi ∷ lo ∷ rest) = candidate (hi * 256 + lo) (s ∷ hi ∷ lo ∷ rest) (hi ∷ lo ∷ rest)

unfoldable pub round : List ℕ → Round
unfolding sync synced_round
round buffer = synced_round (sync buffer)

abbrev pub with_frame : RfidFrame → List RfidFrame × List ℕ → List RfidFrame × List ℕ
with_frame frame (frames, buffer) = (frame ∷ frames, buffer)

-- The `while` loop, on fuel: the frames and what stays in the buffer.
unfoldable pub decode : ℕ → List ℕ → List RfidFrame × List ℕ
decode zero buffer = ([], buffer)
decode (suc fuel) buffer = elim (round buffer) [
  | stop rest ↦ ([], rest)
  | skip rest ↦ decode fuel rest
  | emit frame rest ↦ with_frame frame (decode fuel rest)
]

-- `feed`: the decoder's state is its buffer. Each round but the last drops a byte, so this is fuel
-- enough (`decode-Decodes`).
unfoldable pub feed : List ℕ → List ℕ → List RfidFrame × List ℕ
unfolding decode
feed buffer bytes = let whole = buffer ++ bytes in decode (suc (length whole)) whole

-- A decoder that is fed chunk after chunk.
unfoldable pub feed_all : List ℕ → List (List ℕ) → List RfidFrame × List ℕ
feed_all buffer [] = ([], buffer)
feed_all buffer (chunk ∷ chunks) =
    let (frames, rest) = feed buffer chunk in
    let (more, last) = feed_all rest chunks in (frames ++ more, last)
