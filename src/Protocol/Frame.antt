-- ===== src/Protocol/Frame.antt =====
-- `calculate_crc`, `build_frame` and `parse_frame` of bridge_core/reader_protocol.py.
use rfid.Prelude.{
  ◌<◌, arith, ℕ, zero, suc, ◌+◌, ◌-◌, ◌*◌, ◌/◌, ◌%◌, bit_xor, not, List, [], ◌∷◌, ◌++◌, length,
  String, take, drop, get_or, ltb, ◌==◌, nat_eq, if◌then◌else◌,
}
use rfid.Result.{Result, ok, raise_if, ◌>>◌}

abbrev pub sof : ℕ
sof = 0xfe

abbrev pub min_frame_length : ℕ
min_frame_length = 9

abbrev pub max_frame_length : ℕ
max_frame_length = 65535

-- `RFIDProtocolError`, with one constructor for each `raise`.
pub data ProtocolError : Type 0 where
  not_a_byte : ProtocolError
  frame_too_long : ProtocolError
  frame_too_short bad_sof bad_declared_length length_mismatch crc_mismatch : ProtocolError
  short_statistics short_tag : ProtocolError
  tag_ended : String → ProtocolError

pub record RfidFrame : Type 0 where
  pub address : ℕ
  pub sequence : ℕ
  pub command : ℕ
  pub status : ℕ
  pub payload : List ℕ
  pub raw_frame : List ℕ

-- One round of the inner loop. The value has 16 bits: `& 0x8000` reads the top one, and
-- `(crc << 1) & 0xFFFF` drops it.
crc_round : ℕ → ℕ
crc_round crc =
    if crc / 0x8000 % 2 == 1 then bit_xor (crc * 2) 0x1021 % 0x10000 else crc * 2 % 0x10000

crc_rounds : ℕ → ℕ → ℕ
unfolding crc_round
crc_rounds zero crc = crc
crc_rounds (suc n) crc = crc_rounds n (crc_round crc)

crc_bytes : ℕ → List ℕ → ℕ
crc_bytes crc [] = crc
crc_bytes crc (byte ∷ rest) = crc_bytes (crc_rounds 8 (bit_xor crc (byte * 256))) rest

-- `calculate_crc`
unfoldable pub calculate_crc : List ℕ → ℕ
unfolding crc_bytes crc_rounds
calculate_crc bytes = crc_bytes 0xffff bytes

crc_round-lt : (crc : ℕ) → crc_round crc < 0x10000
unfolding crc_round
crc_round-lt crc = ground arith

crc_rounds-lt : (n crc : ℕ) → crc < 0x10000 → crc_rounds n crc < 0x10000
unfolding crc_rounds
crc_rounds-lt zero crc h = h
crc_rounds-lt (suc n) crc h = crc_rounds-lt n (crc_round crc) (crc_round-lt crc)

crc_eight-lt : (crc : ℕ) → crc_rounds 8 crc < 0x10000
unfolding crc_rounds
crc_eight-lt crc = crc_rounds-lt 7 (crc_round crc) (crc_round-lt crc)

crc_bytes-lt : (crc : ℕ) (bytes : List ℕ) → crc < 0x10000 → crc_bytes crc bytes < 0x10000
unfolding crc_bytes
crc_bytes-lt crc [] h = h
crc_bytes-lt crc (b ∷ rest) h =
    crc_bytes-lt (crc_rounds 8 (bit_xor crc (b * 256))) rest (crc_eight-lt (bit_xor crc (b * 256)))

-- A checksum has 16 bits, so `struct.pack(">H", crc)` takes it.
pub calculate_crc-lt : (bytes : List ℕ) → calculate_crc bytes < 0x10000
unfolding calculate_crc
calculate_crc-lt bytes = crc_bytes-lt 0xffff bytes (omega arith)

-- `struct.pack(">H", n)` and `struct.unpack(">H", …)` of two bytes.
abbrev pub pack_u16 : ℕ → List ℕ
pack_u16 n = n / 256 ∷ n % 256 ∷ []

abbrev pub unpack_u16 : List ℕ → ℕ
unpack_u16 bytes = get_or bytes 0 0 * 256 + get_or bytes 1 0

-- `_require_byte`
abbrev pub require_byte : ℕ → Result ProtocolError (Unit {0})
require_byte n = raise_if (ltb 255 n) not_a_byte

-- The frame before its checksum.
abbrev pub frame_without_crc : ℕ → ℕ → ℕ → ℕ → List ℕ → List ℕ
frame_without_crc address sequence command status payload =
    sof ∷ pack_u16 (min_frame_length + length payload)
    ++ address ∷ sequence ∷ command ∷ status ∷ payload

unfoldable pub build_frame : ℕ → ℕ → ℕ → List ℕ → ℕ → Result ProtocolError (List ℕ)
build_frame address sequence command payload status = do
  require_byte address
  require_byte sequence
  require_byte command
  require_byte status
  raise_if (ltb max_frame_length (min_frame_length + length payload)) frame_too_long
  let body = frame_without_crc address sequence command status payload
  ok (body ++ pack_u16 (calculate_crc body))

-- `parse_frame`. The slices `raw_frame[:-2]` and `raw_frame[-2:]` are the first and the last part at
-- `len(raw_frame) - 2`, which is not negative once the first test has passed.
unfoldable pub parse_frame : List ℕ → Result ProtocolError RfidFrame
parse_frame raw = do
  raise_if (ltb (length raw) min_frame_length) frame_too_short
  raise_if (not (get_or raw 0 0 == sof)) bad_sof
  let declared_length = unpack_u16 (take 2 (drop 1 raw))
  raise_if (ltb declared_length min_frame_length) bad_declared_length
  raise_if (not (declared_length == length raw)) length_mismatch
  let expected_crc = unpack_u16 (drop (length raw - 2) raw)
  let actual_crc = calculate_crc (take (length raw - 2) raw)
  raise_if (not (actual_crc == expected_crc)) crc_mismatch
  ok (record {
    address = get_or raw 3 0;
    sequence = get_or raw 4 0;
    command = get_or raw 5 0;
    status = get_or raw 6 0;
    payload = drop 7 (take (length raw - 2) raw);
    raw_frame = raw;
  })
