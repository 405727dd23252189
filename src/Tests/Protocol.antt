-- ===== src/Tests/Protocol.antt =====
-- Frames and streams of bytes.
use mathlib.Core.List.{flatten}
use rfid.Prelude.{ℕ, ◌≡◌, ◌<◌, refl, arith, List, [], ◌∷◌, ◌++◌, length}
use rfid.Prelude.{some, none}
use rfid.Prelude.Int.{pos, negsuc}
use rfid.Protocol.{
  tag_ended, TagFields, encode_tag, described, parse_tag_data, take_field, hex_upper, sized_field,
  text_field, parse_tag_data-encode_tag, parse_inventory_statistics,
  parse_inventory_statistics-pack, pack_i32,
}
use rfid.Result.{ok, err}
use rfid.Protocol.{
  RfidFrame, calculate_crc, build_frame, parse_frame, parse-build, sync, synced_round, round,
  decode, feed, feed_all, feed_all-flatten, feed_all-frames, feed-pending-lt, candidate, Parses,
}

-- The stop command for the reader at address 1, with its checksum, and a tag frame.
abbrev stop_bytes : List ℕ
stop_bytes = 0xfe ∷ 0 ∷ 9 ∷ 1 ∷ 11 ∷ 0x7f ∷ 0 ∷ 218 ∷ 128 ∷ []

abbrev tag_bytes : List ℕ
tag_bytes = 0xfe ∷ 0 ∷ 11 ∷ 1 ∷ 2 ∷ 0xf9 ∷ 0 ∷ 7 ∷ 8 ∷ 65 ∷ 197 ∷ []

abbrev frame : ℕ → ℕ → List ℕ → List ℕ → RfidFrame
frame sequence command payload raw = record {
  address = 1;
  sequence = sequence;
  command = command;
  status = 0;
  payload = payload;
  raw_frame = raw;
}

code : Unit {0}
unfolding calculate_crc build_frame parse_frame sync candidate synced_round round decode feed
    feed_all flatten
code = tt

stop_frame : build_frame 1 11 0x7f [] 0 ≡ ok stop_bytes
unfolding code
stop_frame = refl

-- Noise before the frame is dropped, and half a frame waits.
noisy :
    feed [] (1 ∷ 2 ∷ stop_bytes ++ 0xfe ∷ 0 ∷ [])
    ≡ (frame 11 0x7f [] stop_bytes ∷ [], 0xfe ∷ 0 ∷ [])
unfolding code
noisy = refl

abbrev chunks : List (List ℕ)
chunks =
    (0xfe ∷ 0 ∷ [])
    ∷ (9 ∷ 1 ∷ 11 ∷ 0x7f ∷ 0 ∷ 218 ∷ 128 ∷ 0xfe ∷ [])
    ∷ (0 ∷ 11 ∷ 1 ∷ 2 ∷ 0xf9 ∷ 0 ∷ 7 ∷ 8 ∷ 65 ∷ 197 ∷ [])
    ∷ []

abbrev frames : List RfidFrame
frames = frame 11 0x7f [] stop_bytes ∷ frame 2 0xf9 (7 ∷ 8 ∷ []) tag_bytes ∷ []

stop_parses : parse_frame stop_bytes ≡ ok (frame 11 0x7f [] stop_bytes)
unfolding code
stop_parses = refl

tag_parses : parse_frame tag_bytes ≡ ok (frame 2 0xf9 (7 ∷ 8 ∷ []) tag_bytes)
unfolding code
tag_parses = refl

frames-Parses : Parses (stop_bytes ∷ tag_bytes ∷ []) frames
frames-Parses = (omega arith, stop_parses, (omega arith, tag_parses, tt))

feed_all-frames_example : feed_all [] chunks ≡ (frames, [])
unfolding flatten
feed_all-frames_example =
    feed_all-frames chunks (stop_bytes ∷ tag_bytes ∷ []) frames refl frames-Parses

feed_all-flatten_example : feed_all [] chunks ≡ feed [] (flatten chunks)
feed_all-flatten_example = feed_all-flatten chunks

parse-build_example :
    (raw : List ℕ) × (build_frame 1 11 0x7f [] 0 ≡ ok raw)
    × (parse_frame raw ≡ ok (frame 11 0x7f [] raw))
parse-build_example =
    parse-build 1 11 0x7f [] 0 (omega arith) (omega arith) (omega arith) (omega arith) (omega arith)

feed-pending-lt_example : length (feed (0xfe ∷ []) (0 ∷ 200 ∷ 1 ∷ [])).1 < 65535
feed-pending-lt_example = feed-pending-lt (0xfe ∷ []) (0 ∷ 200 ∷ 1 ∷ [])

-- A payload with an antenna, a negative PC, an EPC and a read count, and none of a TID.
abbrev fields : TagFields
fields = record {
  protocol_type = 1;
  antenna = some 2;
  pc = some (negsuc 0);
  epc = some (0xe2 ∷ 0x0a ∷ []);
  tid = none;
  count = some (pos 3);
}

encoded :
    encode_tag fields ≡ 0 ∷ 0 ∷ 0 ∷ 23 ∷ 1 ∷ 2 ∷ 255 ∷ 255 ∷ 2 ∷ 0xe2 ∷ 0x0a ∷ 0 ∷ 0 ∷ 0 ∷ 3 ∷ []
unfolding encode_tag
encoded = refl

epc_text : (described fields).epc ≡ "E20A"
unfolding hex_upper
epc_text = refl

cut_short : parse_tag_data (0 ∷ 0 ∷ 0 ∷ 4 ∷ 1 ∷ 2 ∷ 0xe2 ∷ []) ≡ err (tag_ended "EPC")
unfolding parse_tag_data take_field hex_upper sized_field text_field
cut_short = refl

parse_tag_data-encode_tag_example :
    parse_tag_data (encode_tag fields ++ 9 ∷ []) ≡ ok (described fields)
parse_tag_data-encode_tag_example =
    parse_tag_data-encode_tag fields (9 ∷ [])
      (record { pc_in_range = omega arith; count_in_range = omega arith })

parse_inventory_statistics-pack_example :
    parse_inventory_statistics
      (pack_i32 (pos 1000) ++ (pack_i32 (pos 7) ++ (pack_i32 (negsuc 4) ++ [])))
    ≡ ok (record { duration_ms = pos 1000; read_count = pos 7; tag_count = negsuc 4 })
parse_inventory_statistics-pack_example =
    parse_inventory_statistics-pack (pos 1000) (pos 7) (negsuc 4) [] (omega arith) (omega arith)
      (omega arith)
