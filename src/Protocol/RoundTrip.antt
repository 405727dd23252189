-- ===== src/Protocol/RoundTrip.antt =====
-- Building and parsing a frame undo each other.
use rfid.Prelude.{
  ℕ, ◌+◌, ◌-◌, ◌*◌, ◌/◌, ◌%◌, ◌≤◌, ◌<◌, ◌≡◌, refl, true, false, List, ◌++◌, arith, length, take,
  drop, get_or, ltb, ◌==◌, nat_eq, nat_beq_iff, length-append, take-length_append,
  drop-length_append,
}
use rfid.Result.{ok}
use rfid.Protocol.Frame.{
  sof, min_frame_length, calculate_crc, calculate_crc-lt, pack_u16, unpack_u16, frame_without_crc,
  build_frame, parse_frame,
}

-- What `build_frame` returns.
abbrev whole_frame : ℕ → ℕ → ℕ → ℕ → List ℕ → List ℕ
whole_frame a s c t p =
    frame_without_crc a s c t p ++ pack_u16 (calculate_crc (frame_without_crc a s c t p))

module _ (address sequence command status : ℕ) (payload : List ℕ) where
  body : List ℕ
  body = frame_without_crc address sequence command status payload

  length-body : length body ≡ 7 + length payload
  unfolding body
  length-body = omega arith

  whole : List ℕ
  unfolding body
  whole = body ++ pack_u16 (calculate_crc body)

  length-whole : length whole ≡ length body + 2
  unfolding whole
  length-whole = length-append body (pack_u16 (calculate_crc body))

  cut : length whole - 2 ≡ length body
  cut = omega (arith, length-whole)

  take-whole : take (length whole - 2) whole ≡ body
  take-whole = rw cut (unfold whole in take-length_append body (pack_u16 (calculate_crc body)))

  drop-whole : drop (length whole - 2) whole ≡ pack_u16 (calculate_crc body)
  drop-whole = rw cut (unfold whole in drop-length_append body (pack_u16 (calculate_crc body)))

  build-whole :
      {raw : List ℕ}
      → build_frame address sequence command payload status ≡ ok raw
      → (raw ≡ whole) × (9 + length payload ≤ 65535)
  unfolding build_frame whole
  build-whole {raw} h = ground arith

  abbrev declared : ℕ
  declared = unpack_u16 (take 2 (drop 1 whole))

  declared-whole : 9 + length payload ≤ 65535 → declared ≡ length whole
  declared-whole fits = omega (arith, length-whole, length-body, split)
    where
      split : declared ≡ (9 + length payload) / 256 * 256 + (9 + length payload) % 256
      split = unfold whole in refl

  crc-whole :
      calculate_crc (take (length whole - 2) whole) ≡ unpack_u16 (drop (length whole - 2) whole)
  crc-whole = rw (take-whole, drop-whole) (omega (arith, calculate_crc-lt body))

  payload-whole : drop 7 (take (length whole - 2) whole) ≡ payload
  payload-whole = rw take-whole (unfold body in refl)

  parse-whole :
      9 + length payload ≤ 65535
      → parse_frame whole
        ≡ ok (record {
          address = address;
          sequence = sequence;
          command = command;
          status = status;
          payload = payload;
          raw_frame = whole;
        })
  unfolding parse_frame
  parse-whole fits =
      let n : length whole ≡ 9 + length payload = omega (arith, length-whole, length-body) in
      let p0 : ltb (length whole) min_frame_length ≡ false = ground arith in
      let p1 : (get_or whole 0 0 == sof) ≡ true = unfold whole in refl in
      let d = declared-whole fits in
      let p2 : ltb declared min_frame_length ≡ false = ground arith in
      let p3 : (declared == length whole) ≡ true = (nat_beq_iff declared (length whole)).1 d in
      let p4 : (calculate_crc (take (length whole - 2) whole)
            == unpack_u16 (drop (length whole - 2) whole))
          ≡ true =
        (nat_beq_iff _ _).1 crc-whole in
      let f3 : get_or whole 3 0 ≡ address = unfold whole in refl in
      let f4 : get_or whole 4 0 ≡ sequence = unfold whole in refl in
      let f5 : get_or whole 5 0 ≡ command = unfold whole in refl in
      let f6 : get_or whole 6 0 ≡ status = unfold whole in refl in
      rw (p0, p1, p2, p3, p4, f3, f4, f5, f6, payload-whole)

parse-built :
    (address sequence command : ℕ) (payload : List ℕ) (status : ℕ) {raw : List ℕ}
    → build_frame address sequence command payload status ≡ ok raw
    → parse_frame raw
      ≡ ok (record {
        address = address;
        sequence = sequence;
        command = command;
        status = status;
        payload = payload;
        raw_frame = raw;
      })
parse-built address sequence command payload status h =
    let (e, fits) = build-whole address sequence command status payload h in
    rw e (parse-whole address sequence command status payload fits)

build-returns :
    (address sequence command : ℕ) (payload : List ℕ) (status : ℕ)
    → address < 256
    → sequence < 256
    → command < 256
    → status < 256
    → length payload ≤ 65526
    → build_frame address sequence command payload status
      ≡ ok (whole_frame address sequence command status payload)
unfolding build_frame
build-returns address sequence command payload status a s c t n = ground arith

-- A frame is built of any four bytes and a payload of at most 65526 bytes, and parsing what was built
-- gives its fields and its payload back.
pub parse-build :
    (address sequence command : ℕ) (payload : List ℕ) (status : ℕ)
    → address < 256
    → sequence < 256
    → command < 256
    → status < 256
    → length payload ≤ 65526
    → (raw : List ℕ) × (build_frame address sequence command payload status ≡ ok raw)
      × (parse_frame raw
          ≡ ok (record {
            address = address;
            sequence = sequence;
            command = command;
            status = status;
            payload = payload;
            raw_frame = raw;
          }))
parse-build address sequence command payload status a s c t n =
    let built = build-returns address sequence command payload status a s c t n in
    (_, built, parse-built address sequence command payload status built)
