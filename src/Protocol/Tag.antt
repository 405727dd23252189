-- ===== src/Protocol/Tag.antt =====
-- `parse_inventory_statistics` and `parse_tag_data` of bridge_core/reader_protocol.py.
use Prim.Native.Char.{Char}
use rfid.Prelude.{
  ℕ, ◌+◌, ◌*◌, ◌/◌, ◌%◌, Bool, true, false, Option, none, some, String, List, [], ◌∷◌, length, take,
  drop, get_or, ltb, ◌==◌, nat_eq,
}
use rfid.Prelude.Int.{ℤ, signed}
use rfid.Result.{Result, ok, raise_if, ◌>>=◌, ◌>>◌}
use rfid.Protocol.Frame.{ProtocolError, short_statistics, short_tag, tag_ended, unpack_u16}

abbrev pub unpack_u32 : List ℕ → ℕ
unpack_u32 bytes =
    get_or bytes 0 0 * 16777216
    + get_or bytes 1 0 * 65536
    + get_or bytes 2 0 * 256
    + get_or bytes 3 0

-- `struct.unpack(">h", …)` and `struct.unpack(">i", …)`
abbrev pub unpack_i16 : List ℕ → ℤ
unpack_i16 bytes = signed 32768 (unpack_u16 bytes)

abbrev pub unpack_i32 : List ℕ → ℤ
unpack_i32 bytes = signed 2147483648 (unpack_u32 bytes)

pub record InventoryStatistics : Type 0 where
  pub duration_ms : ℤ
  pub read_count : ℤ
  pub tag_count : ℤ

unfoldable pub parse_inventory_statistics : List ℕ → Result ProtocolError InventoryStatistics
parse_inventory_statistics payload = do
  raise_if (ltb (length payload) 12) short_statistics
  ok (record {
    duration_ms = unpack_i32 (take 4 payload);
    read_count = unpack_i32 (take 4 (drop 4 payload));
    tag_count = unpack_i32 (take 4 (drop 8 payload));
  })

pub record RfidTagData : Type 0 where
  pub protocol_type : ℕ
  pub antenna : Option ℕ
  pub pc : Option ℤ
  pub epc : String
  pub tid : String
  pub count : Option ℤ

-- `_take`: the bytes and the new offset.
unfoldable pub take_field : List ℕ → ℕ → ℕ → String → Result ProtocolError (List ℕ × ℕ)
take_field payload offset size field = do
  raise_if (ltb (length payload) (offset + size)) (tag_ended field)
  ok (take size (drop offset payload), offset + size)

-- `mask & (1 << k)`, with 2 ^ k.
abbrev pub has_bit : ℕ → ℕ → Bool
has_bit mask power = mask / power % 2 == 1

abbrev hex_digits : List Char
hex_digits =
    "0" ∷ "1" ∷ "2" ∷ "3" ∷ "4" ∷ "5" ∷ "6" ∷ "7" ∷ "8" ∷ "9" ∷ "A" ∷ "B" ∷ "C" ∷ "D" ∷ "E" ∷ "F"
    ∷ []

-- `raw.hex().upper()`
unfoldable pub hex_upper : List ℕ → String
hex_upper [] = ""
hex_upper (b ∷ bytes) =
    String.◌∷◌ (get_or hex_digits (b / 16) "0")
      (String.◌∷◌ (get_or hex_digits (b % 16) "0") (hex_upper bytes))

-- A field of a fixed size.
unfoldable pub sized_field :
    {A : Type 0}
    → List ℕ
    → Bool
    → ℕ
    → ℕ
    → String
    → (List ℕ → A)
    → Result ProtocolError (Option A × ℕ)
sized_field payload false offset size field read = ok (none, offset)
sized_field payload true offset size field read = do
  taken ← take_field payload offset size field
  ok (some (read taken.0), taken.1)

-- A field behind its length.
unfoldable pub text_field : List ℕ → Bool → ℕ → String → String → Result ProtocolError (String × ℕ)
text_field payload false offset length_field field = ok ("", offset)
text_field payload true offset length_field field = do
  raw_length ← take_field payload offset 1 length_field
  raw ← take_field payload raw_length.1 (get_or raw_length.0 0 0) field
  ok (hex_upper raw.0, raw.1)

unfoldable pub parse_tag_data : List ℕ → Result ProtocolError RfidTagData
parse_tag_data payload = do
  raise_if (ltb (length payload) 5) short_tag
  let mask = unpack_u32 (take 4 payload)
  antenna ← sized_field payload (has_bit mask 1) 5 1 "antenna" (λ raw. get_or raw 0 0)
  pc ← sized_field payload (has_bit mask 2) antenna.1 2 "PC" unpack_i16
  epc ← text_field payload (has_bit mask 4) pc.1 "EPC length" "EPC"
  tid ← text_field payload (has_bit mask 8) epc.1 "TID length" "TID"
  count ← sized_field payload (has_bit mask 16) tid.1 4 "read count" unpack_i32
  ok (record {
    protocol_type = get_or payload 4 0;
    antenna = antenna.0;
    pc = pc.0;
    epc = epc.0;
    tid = tid.0;
    count = count.0;
  })
