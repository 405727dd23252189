-- ===== src/Protocol/Frames.antt =====
-- A stream of frames comes out of the decoder as it was sent.
use rfid.Prelude.{
  ℕ, ◌+◌, ◌*◌, ◌≤◌, ◌<◌, ◌≡◌, refl, ◌∙◌, true, List, [], ◌∷◌, arith, length, take, drop, get_or,
  ◌==◌, nat_eq, All, take-length_append, drop-length_append,
}
use mathlib.Core.List.{append-nil, flatten}
use rfid.Result.{ok}
use rfid.Protocol.Frame.{RfidFrame, sof, parse_frame}
use rfid.Protocol.Decoder.{stop, emit, sync, candidate, synced_round, round, feed, feed_all}
use rfid.Protocol.Stream.{Decodes, stopped, emitted}
use rfid.Protocol.Chunks.{
  settled_sync, round-More, Decodes-feed, feed_all-flatten, IsSettled, feed-IsSettled,
}

abbrev pub IsBytes : List ℕ → Type 0
IsBytes = All (λ b. b < 256)

-- What a parsed frame begins with, and its length.
parse_shape :
    (raw : List ℕ) {f : RfidFrame}
    → parse_frame raw ≡ ok f
    → (9 ≤ length raw)
      × (get_or raw 0 0 ≡ sof)
      × (get_or (take 2 (drop 1 raw)) 0 0 * 256 + get_or (take 2 (drop 1 raw)) 1 0 ≡ length raw)
unfolding parse_frame
parse_shape raw h = ground arith

take-length : (xs : List ℕ) → take (length xs) xs ≡ xs
take-length xs = rw append-nil at (take-length_append xs [])

drop-length : (xs : List ℕ) → drop (length xs) xs ≡ []
drop-length xs = rw append-nil at (drop-length_append xs [])

candidate-parsed :
    (n : ℕ) (raw rest : List ℕ) {f : RfidFrame}
    → n ≡ length raw
    → 9 ≤ n
    → n ≤ 65535
    → parse_frame raw ≡ ok f
    → candidate n raw rest ≡ emit f []
unfolding candidate
candidate-parsed n raw rest {f} e lo hi p =
    let whole : take n raw ≡ raw = rw e (take-length raw) in
    let none_left : drop n raw ≡ [] = rw e (drop-length raw) in ground arith

round-parsed :
    (raw : List ℕ) {f : RfidFrame} → IsBytes raw → parse_frame raw ≡ ok f → round raw ≡ emit f []
unfolding round sync synced_round
round-parsed [] b p = absurd (omega (arith, parse_shape [] p))
round-parsed (s ∷ []) b p = absurd (omega (arith, parse_shape (s ∷ []) p))
round-parsed (s ∷ hi ∷ []) b p = absurd (omega (arith, parse_shape (s ∷ hi ∷ []) p))
round-parsed (s ∷ hi ∷ lo ∷ rest) b p =
    let shape = parse_shape (s ∷ hi ∷ lo ∷ rest) p in
    let start : (s == sof) ≡ true = ground (arith, shape) in
    rw start (
      candidate-parsed (hi * 256 + lo) (s ∷ hi ∷ lo ∷ rest) (hi ∷ lo ∷ rest) shape.2
        (omega (arith, shape)) (omega (arith, b)) p)

round_empty : round [] ≡ stop []
unfolding round sync synced_round
round_empty = refl

-- A list of byte strings, each of which parses to the frame beside it.
abbrev pub Parses : List (List ℕ) → List RfidFrame → Type 0
Parses [] [] = Unit
Parses (raw ∷ raws) (f ∷ fs) = IsBytes raw × (parse_frame raw ≡ ok f) × Parses raws fs
Parses _ _ = ⊥

Parses-Decodes :
    (raws : List (List ℕ)) (fs : List RfidFrame) → Parses raws fs → Decodes (flatten raws) fs []
unfolding flatten
Parses-Decodes [] [] h = stopped round_empty
Parses-Decodes [] (f ∷ fs) h = elim h [ ]
Parses-Decodes (raw ∷ raws) [] h = elim h [ ]
Parses-Decodes (raw ∷ raws) (f ∷ fs) h =
    emitted (rw (round-parsed raw h.0 h.1) at (round-More raw (flatten raws)))
      (Parses-Decodes raws fs h.2)

-- Byte strings that each parse to a frame, one after the other and cut into chunks anywhere,
-- come out of a new decoder as those frames in their order, none lost or added, and nothing stays
-- in the buffer.
pub feed_all-frames :
    (chunks raws : List (List ℕ)) (frames : List RfidFrame)
    → flatten chunks ≡ flatten raws
    → Parses raws frames
    → feed_all [] chunks ≡ (frames, [])
feed_all-frames chunks raws frames e h =
    feed_all-flatten chunks ∙ rw e (Decodes-feed [] (flatten raws) (Parses-Decodes raws frames h))

settled_short : (x : List ℕ) → synced_round x ≡ stop x → length x < 65535
unfolding synced_round candidate
settled_short [] h = omega arith
settled_short (s ∷ []) h = omega arith
settled_short (s ∷ hi ∷ []) h = omega arith
settled_short (s ∷ hi ∷ lo ∷ rest) h = ground arith

sync-cons : (x : List ℕ) → IsSettled x → synced_round x ≡ stop x
unfolding IsSettled
sync-cons x h = settled_sync x h

-- Whatever the buffer held and whatever bytes arrive, fewer bytes than the longest frame has are left
-- waiting in the buffer.
pub feed-pending-lt : (buffer bytes : List ℕ) → length (feed buffer bytes).1 < 65535
feed-pending-lt buffer bytes = settled_short _ (sync-cons _ (feed-IsSettled buffer bytes))
