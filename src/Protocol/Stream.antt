-- ===== src/Protocol/Stream.antt =====
-- How a stream of bytes is decoded, whatever the chunks in which it arrives.
use rfid.Prelude.{
  ℕ, zero, suc, ◌+◌, ◌*◌, ◌≤◌, ◌<◌, ◌≡◌, refl, ap, ◌⊎◌, inl, inr, List, [], ◌∷◌, arith, length,
  nat_eq, length-drop,
}
use rfid.Protocol.Frame.{RfidFrame}
use rfid.Protocol.Decoder.{
  Round, stop, skip, emit, sync, candidate, synced_round, round, with_frame, decode,
}

-- A run of the loop: the frames that it gives out, and what stays in the buffer.
pub data Decodes : List ℕ → List RfidFrame → List ℕ → Type 0 where
  stopped : {buffer rest : List ℕ} → round buffer ≡ stop rest → Decodes buffer [] rest
  skipped :
      {buffer rest last : List ℕ} {frames : List RfidFrame}
      → round buffer ≡ skip rest
      → Decodes rest frames last
      → Decodes buffer frames last
  emitted :
      {buffer rest last : List ℕ} {frame : RfidFrame} {frames : List RfidFrame}
      → round buffer ≡ emit frame rest
      → Decodes rest frames last
      → Decodes buffer (frame ∷ frames) last

-- The bytes that a round leaves to the next one.
abbrev Shorter : ℕ → Round → Type 0
Shorter n (stop rest) = Unit
Shorter n (skip rest) = length rest < n
Shorter n (emit frame rest) = length rest < n

length-sync : (buffer : List ℕ) → length (sync buffer) ≤ length buffer
unfolding sync
length-sync [] = omega arith
length-sync (x ∷ xs) = ground (arith, length-sync xs)

candidate-Shorter :
    (n s : ℕ) (rest : List ℕ) → Shorter (suc (length rest)) (candidate n (s ∷ rest) rest)
unfolding candidate
candidate-Shorter n s rest = ground (arith, length-drop n (s ∷ rest))

synced-Shorter : (buffer : List ℕ) → Shorter (length buffer) (synced_round buffer)
unfolding synced_round
synced-Shorter [] = tt
synced-Shorter (s ∷ []) = tt
synced-Shorter (s ∷ hi ∷ []) = tt
synced-Shorter (s ∷ hi ∷ lo ∷ rest) = candidate-Shorter (hi * 256 + lo) s (hi ∷ lo ∷ rest)

widen : (m n : ℕ) (r : Round) → m ≤ n → Shorter m r → Shorter n r
widen m n (stop rest) h s = tt
widen m n (skip rest) h s = omega arith
widen m n (emit frame rest) h s = omega arith

round-Shorter : (buffer : List ℕ) → Shorter (length buffer) (round buffer)
unfolding round
round-Shorter buffer =
    widen _ _ (synced_round (sync buffer)) (length-sync buffer) (synced-Shorter (sync buffer))

shorter_skip :
    (buffer : List ℕ) {rest : List ℕ} → round buffer ≡ skip rest → length rest < length buffer
shorter_skip buffer e = rw e at (round-Shorter buffer)

shorter_emit :
    (buffer : List ℕ) {rest : List ℕ} {frame : RfidFrame}
    → round buffer ≡ emit frame rest
    → length rest < length buffer
shorter_emit buffer e = rw e at (round-Shorter buffer)

Round-cases :
    (r : Round)
    → ((rest : List ℕ) × (r ≡ stop rest))
      ⊎ ((rest : List ℕ) × (r ≡ skip rest))
      ⊎ ((frame : RfidFrame) × (rest : List ℕ) × (r ≡ emit frame rest))
Round-cases (stop rest) = inl (rest, refl)
Round-cases (skip rest) = inr (inl (rest, refl))
Round-cases (emit frame rest) = inr (inr (frame, rest, refl))

-- With more fuel than bytes the loop ends by itself.
pub decode-Decodes :
    (fuel : ℕ) (buffer : List ℕ)
    → length buffer < fuel
    → Decodes buffer (decode fuel buffer).0 (decode fuel buffer).1
unfolding decode
decode-Decodes zero buffer h = absurd (omega arith)
decode-Decodes (suc fuel) buffer h = elim (Round-cases (round buffer)) [
  | inl (rest, e) ↦ rw (e, decode) (stopped e)
  | inr (inl (rest, e)) ↦
      rw (e, decode) (skipped e (decode-Decodes fuel rest (omega (arith, shorter_skip buffer e))))
  | inr (inr (frame, rest, e)) ↦
      rw (e, decode) (emitted e (decode-Decodes fuel rest (omega (arith, shorter_emit buffer e))))
]

-- There is only one run.
pub Decodes-decode :
    {buffer last : List ℕ} {frames : List RfidFrame} (fuel : ℕ)
    → Decodes buffer frames last
    → length buffer < fuel
    → decode fuel buffer ≡ (frames, last)
unfolding decode
Decodes-decode zero d h = absurd (omega arith)
Decodes-decode (suc fuel) (stopped e) h = rw (e, decode)
Decodes-decode (suc fuel) (skipped {buffer = buffer} e d) h =
    rw (e, decode) (Decodes-decode fuel d (omega (arith, shorter_skip buffer e)))
Decodes-decode (suc fuel) (emitted {buffer = buffer} {frame = frame} e d) h =
    rw (e, decode)
      (ap (with_frame frame) (Decodes-decode fuel d (omega (arith, shorter_emit buffer e))))
