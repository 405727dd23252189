-- ===== src/Protocol/Encode.antt =====
-- What the parsers of tag data and of inventory statistics read from a well-formed payload.
use mathlib.Core.List.{append_assoc}
use rfid.Prelude.{
  ℕ, ◌+◌, ◌*◌, ◌/◌, ◌%◌, ◌≡◌, refl, sym, ◌∙◌, arith, Bool, true, false, Option, none, some, String,
  List, [], ◌∷◌, ◌++◌, length, take, get_or, ltb, nat_eq, length-append, take-length_append,
  drop-length_append,
}
use rfid.Prelude.Int.{ℤ, Fits, word, signed-word}
use rfid.Result.{ok}
use rfid.Protocol.Frame.{pack_u16}
use rfid.Protocol.Tag.{
  unpack_u32, unpack_i16, unpack_i32, parse_inventory_statistics, take_field, has_bit, hex_upper,
  sized_field, text_field, parse_tag_data, RfidTagData,
}

-- What a reader puts into a tag payload, field by field.
pub record TagFields : Type 0 where
  pub protocol_type : ℕ
  pub antenna : Option ℕ
  pub pc : Option ℤ
  pub epc : Option (List ℕ)
  pub tid : Option (List ℕ)
  pub count : Option ℤ

abbrev pub IfSome : {A : Type 0} → (A → Type 0) → Option A → Type 0
IfSome P none = Unit
IfSome P (some a) = P a

pub record InRange (t : TagFields) : Type 0 where
  pub pc_in_range : IfSome (Fits 32768) t.pc
  pub count_in_range : IfSome (Fits 2147483648) t.count

abbrev pub pack_u32 : ℕ → List ℕ
pack_u32 n = n / 16777216 ∷ n / 65536 % 256 ∷ n / 256 % 256 ∷ n % 256 ∷ []

abbrev pub pack_i32 : ℤ → List ℕ
pack_i32 z = pack_u32 (word 2147483648 z)

pack_i16 : ℤ → List ℕ
pack_i16 z = pack_u16 (word 32768 z)

abbrev one_byte : ℕ → List ℕ
one_byte n = n ∷ []

abbrev sized : List ℕ → List ℕ
sized bytes = length bytes ∷ bytes

abbrev part : {A : Type 0} → (A → List ℕ) → Option A → List ℕ
part pack none = []
part pack (some a) = pack a

abbrev is_some : {A : Type 0} → Option A → Bool
is_some none = false
is_some (some a) = true

abbrev bit : Bool → ℕ
bit true = 1
bit false = 0

-- The mask of five fields.
abbrev mask : Bool → Bool → Bool → Bool → Bool → ℕ
mask a b c d e = bit a + bit b * 2 + bit c * 4 + bit d * 8 + bit e * 16

abbrev tag_head : TagFields → List ℕ
tag_head t =
    0
    ∷ 0
    ∷ 0
    ∷ mask (is_some t.antenna) (is_some t.pc) (is_some t.epc) (is_some t.tid) (is_some t.count)
    ∷ t.protocol_type
    ∷ []

-- The payload of a tag.
unfoldable pub encode_tag : TagFields → List ℕ
unfolding pack_i16
encode_tag t =
    tag_head t
    ++ (part one_byte t.antenna
        ++ (part pack_i16 t.pc
            ++ (part sized t.epc ++ (part sized t.tid ++ part pack_i32 t.count))))

abbrev text : Option (List ℕ) → String
text none = ""
text (some bytes) = hex_upper bytes

-- What the parser is to find.
abbrev pub described : TagFields → RfidTagData
described t = record {
  protocol_type = t.protocol_type;
  antenna = t.antenna;
  pc = t.pc;
  epc = text t.epc;
  tid = text t.tid;
  count = t.count;
}

has_bit-mask :
    (a b c d e : Bool)
    → (has_bit (mask a b c d e) 1 ≡ a)
      × (has_bit (mask a b c d e) 2 ≡ b)
      × (has_bit (mask a b c d e) 4 ≡ c)
      × (has_bit (mask a b c d e) 8 ≡ d)
      × (has_bit (mask a b c d e) 16 ≡ e)
has_bit-mask a b c d e = ground arith

unpack-pack_i16 : (z : ℤ) → Fits 32768 z → unpack_i16 (pack_i16 z) ≡ z
unfolding pack_i16
unpack-pack_i16 z h =
    let e : word 32768 z / 256 * 256 + word 32768 z % 256 ≡ word 32768 z = omega arith in
    rw e (signed-word 32768 z h)

unpack-pack_i32 : (z : ℤ) → Fits 2147483648 z → unpack_i32 (pack_i32 z) ≡ z
unpack-pack_i32 z h =
    let e : unpack_u32 (pack_i32 z) ≡ word 2147483648 z = omega arith in
    rw e (signed-word 2147483648 z h)

take_field-at :
    (pre field rest : List ℕ) (name : String)
    → take_field (pre ++ (field ++ rest)) (length pre) (length field) name
      ≡ ok (field, length pre + length field)
unfolding take_field
take_field-at pre field rest name =
    let n = length-append pre (field ++ rest) in
    let n' = length-append field rest in
    let fits : ltb (length (pre ++ (field ++ rest))) (length pre + length field) ≡ false =
      ground arith in
    rw (fits, drop-length_append pre (field ++ rest), take-length_append field rest) refl

-- A payload around one of its fields.
abbrev Around : List ℕ → List ℕ → List ℕ → List ℕ → Type 0
Around payload pre field rest = payload ≡ pre ++ (field ++ rest)

sized_field-at :
    {A : Type 0} (pack : A → List ℕ) (read : List ℕ → A) (size : ℕ) (name : String) (o : Option A)
    (payload pre rest : List ℕ)
    → Around payload pre (part pack o) rest
    → IfSome (λ a. (length (pack a) ≡ size) × (read (pack a) ≡ a)) o
    → sized_field payload (is_some o) (length pre) size name read
      ≡ ok (o, length (pre ++ part pack o))
unfolding sized_field
sized_field-at pack read size name none payload pre rest cut fits =
    let n : length pre ≡ length (pre ++ []) = omega (arith, length-append pre []) in cc
sized_field-at pack read size name (some a) payload pre rest cut fits =
    rw (cut, ← fits.0, take_field-at pre (pack a) rest name, length-append pre (pack a), fits.1)
      refl

text_field-at :
    (n m : String) (o : Option (List ℕ)) (payload pre rest : List ℕ)
    → Around payload pre (part sized o) rest
    → text_field payload (is_some o) (length pre) n m ≡ ok (text o, length (pre ++ part sized o))
unfolding text_field
text_field-at n m none payload pre rest cut =
    let e : length pre ≡ length (pre ++ []) = omega (arith, length-append pre []) in cc
text_field-at n m (some bytes) payload pre rest cut =
    let here = take_field-at pre (one_byte (length bytes)) (bytes ++ rest) n in
    let next = take_field-at (pre ++ one_byte (length bytes)) bytes rest m in
    let same : (pre ++ one_byte (length bytes)) ++ (bytes ++ rest) ≡ pre ++ (sized bytes ++ rest) =
      append_assoc pre (one_byte (length bytes)) (bytes ++ rest) in
    let size : length pre + 1 ≡ length (pre ++ one_byte (length bytes)) =
      omega (arith, length-append pre (one_byte (length bytes))) in
    let total : length (pre ++ one_byte (length bytes)) + length bytes
        ≡ length (pre ++ sized bytes) =
      omega (arith, length-append pre (sized bytes), length-append pre (one_byte (length bytes))) in
    rw (cut, here, size, ← same, next, total) refl

-- Behind a field stands the next one.
next_field :
    {payload : List ℕ} (pre field rest : List ℕ)
    → Around payload pre field rest
    → payload ≡ (pre ++ field) ++ rest
next_field pre field rest cut = cut ∙ sym (append_assoc pre field rest)

IfSome-map :
    {A : Type 0} {P Q : A → Type 0}
    → ((a : A) → P a → Q a)
    → (o : Option A) → IfSome P o
    → IfSome Q o
IfSome-map f none h = h
IfSome-map f (some a) h = f a h

IfSome-all : {A : Type 0} {P : A → Type 0} → ((a : A) → P a) → (o : Option A) → IfSome P o
IfSome-all f none = tt
IfSome-all f (some a) = f a

module _ (t : TagFields) (rest payload : List ℕ) (range : InRange t) where
  abbrev p1 : List ℕ
  p1 = part one_byte t.antenna

  abbrev p2 : List ℕ
  p2 = part pack_i16 t.pc

  abbrev p3 : List ℕ
  p3 = part sized t.epc

  abbrev p4 : List ℕ
  p4 = part sized t.tid

  abbrev p5 : List ℕ
  p5 = part pack_i32 t.count

  parse-fields :
      Around payload (tag_head t) p1 (p2 ++ (p3 ++ (p4 ++ (p5 ++ rest))))
      → parse_tag_data payload ≡ ok (described t)
  unfolding parse_tag_data
  parse-fields cut1 =
      let h1 = tag_head t ++ p1 in
      let h2 = h1 ++ p2 in
      let h3 = h2 ++ p3 in
      let h4 = h3 ++ p4 in
      let cut2 = next_field (tag_head t) p1 _ cut1 in
      let cut3 = next_field h1 p2 _ cut2 in
      let cut4 = next_field h2 p3 _ cut3 in
      let cut5 = next_field h3 p4 _ cut4 in
      let long : ltb (length payload) 5 ≡ false = rw cut1 (ground arith) in
      let mask_read : unpack_u32 (take 4 payload)
          ≡ mask (is_some t.antenna) (is_some t.pc) (is_some t.epc) (is_some t.tid)
              (is_some t.count) =
        rw cut1 (omega arith) in
      let protocol : get_or payload 4 0 ≡ t.protocol_type = rw cut1 refl in
      let bits =
        has_bit-mask (is_some t.antenna) (is_some t.pc) (is_some t.epc) (is_some t.tid)
          (is_some t.count) in
      let s1 =
        sized_field-at one_byte (λ (raw : List ℕ). get_or raw 0 0) 1 "antenna" t.antenna payload
          (tag_head t) _ cut1 (IfSome-all (λ a. (refl, refl)) t.antenna) in
      let s2 = sized_field-at pack_i16 unpack_i16 2 "PC" t.pc payload h1 _ cut2 (
        IfSome-map (λ z h. (unfold pack_i16 in refl, unpack-pack_i16 z h)) t.pc
          range.pc_in_range) in
      let s3 = text_field-at "EPC length" "EPC" t.epc payload h2 _ cut3 in
      let s4 = text_field-at "TID length" "TID" t.tid payload h3 _ cut4 in
      let s5 =
        sized_field-at pack_i32 unpack_i32 4 "read count" t.count payload h4 _ cut5
          (IfSome-map (λ z h. (refl, unpack-pack_i32 z h)) t.count range.count_in_range) in
      rw (long, mask_read, bits.0, s1, bits.1, s2, bits.2, s3, bits.3, s4, bits.4, s5, protocol)
        refl

-- The payload of a tag, whichever of its fields it has, is parsed to those fields; what follows it in
-- the payload is ignored.
pub parse_tag_data-encode_tag :
    (t : TagFields) (rest : List ℕ)
    → InRange t
    → parse_tag_data (encode_tag t ++ rest) ≡ ok (described t)
unfolding parse_tag_data encode_tag
parse_tag_data-encode_tag t rest range =
    parse-fields t rest (encode_tag t ++ rest) range (unfold encode_tag in simp (append_assoc))

-- The payload of three integers of 32 bits is parsed to them; what follows it is ignored.
pub parse_inventory_statistics-pack :
    (duration_ms read_count tag_count : ℤ) (rest : List ℕ)
    → Fits 2147483648 duration_ms
    → Fits 2147483648 read_count
    → Fits 2147483648 tag_count
    → parse_inventory_statistics
        (pack_i32 duration_ms ++ (pack_i32 read_count ++ (pack_i32 tag_count ++ rest)))
      ≡ ok (record { duration_ms = duration_ms; read_count = read_count; tag_count = tag_count })
unfolding parse_inventory_statistics
parse_inventory_statistics-pack d r t rest hd hr ht =
    let long : ltb (length (pack_i32 d ++ (pack_i32 r ++ (pack_i32 t ++ rest)))) 12 ≡ false =
      ground arith in
    rw (long, unpack-pack_i32 d hd, unpack-pack_i32 r hr, unpack-pack_i32 t ht) refl
