-- ===== src/Protocol/Chunks.antt =====
-- The chunks in which a stream arrives do not matter.
use rfid.Prelude.{
  ℕ, suc, ◌+◌, ◌*◌, ◌≡◌, refl, sym, ap, ◌∙◌, ◌⊎◌, inl, inr, List, [], ◌∷◌, ◌++◌, arith, length,
  nat_eq, length-append, take-append_le, drop-append_le,
}
use mathlib.Core.List.{append-nil, append_assoc, flatten}
use rfid.Protocol.Frame.{RfidFrame}
use rfid.Protocol.Decoder.{
  Round, stop, skip, emit, sync, candidate, synced_round, round, feed, feed_all,
}
use rfid.Protocol.Stream.{Decodes, stopped, skipped, emitted, decode-Decodes, Decodes-decode}

sync-nil : (x y : List ℕ) → sync x ≡ [] → sync (x ++ y) ≡ sync y
unfolding sync
sync-nil [] y h = refl
sync-nil (b ∷ bs) y h = ground (arith, sync-nil bs y)

sync-append : (x y : List ℕ) {s : ℕ} {r : List ℕ} → sync x ≡ s ∷ r → sync (x ++ y) ≡ s ∷ (r ++ y)
unfolding sync
sync-append [] y h = cc
sync-append (b ∷ bs) y {s} {r} h = ground (arith, sync-append bs y {s = s} {r = r})

sync-sync : (x : List ℕ) {s : ℕ} {r : List ℕ} → sync x ≡ s ∷ r → sync (s ∷ r) ≡ s ∷ r
unfolding sync
sync-sync [] h = cc
sync-sync (b ∷ bs) {s} {r} h = ground (arith, sync-sync bs {s = s} {r = r})

-- More bytes behind the buffer do not change a round that did not wait for them.
abbrev pub More : List ℕ → Round → Round → Type 0
More y (stop rest) r = Unit
More y (skip rest) r = r ≡ skip (rest ++ y)
More y (emit frame rest) r = r ≡ emit frame (rest ++ y)

candidate-append :
    (n s : ℕ) (rest y : List ℕ)
    → More y (candidate n (s ∷ rest) rest) (candidate n (s ∷ (rest ++ y)) (rest ++ y))
unfolding candidate
candidate-append n s rest y = ground (
  arith,
  length-append (s ∷ rest) y,
  take-append_le n (s ∷ rest) y,
  drop-append_le n (s ∷ rest) y,
)

synced-append : (x y : List ℕ) → More y (synced_round x) (synced_round (x ++ y))
unfolding synced_round
synced-append [] y = tt
synced-append (s ∷ []) y = tt
synced-append (s ∷ hi ∷ []) y = tt
synced-append (s ∷ hi ∷ lo ∷ rest) y = candidate-append (hi * 256 + lo) s (hi ∷ lo ∷ rest) y

candidate-stop : (n : ℕ) (b r : List ℕ) {x : List ℕ} → candidate n b r ≡ stop x → x ≡ b
unfolding candidate
candidate-stop n b r {x} h = ground arith

synced_stop : (x : List ℕ) {r : List ℕ} → synced_round x ≡ stop r → r ≡ x
unfolding synced_round
synced_stop [] h = cc
synced_stop (s ∷ []) h = cc
synced_stop (s ∷ hi ∷ []) h = cc
synced_stop (s ∷ hi ∷ lo ∷ rest) h =
    candidate-stop (hi * 256 + lo) (s ∷ hi ∷ lo ∷ rest) (hi ∷ lo ∷ rest) h

List-cases : (x : List ℕ) → (x ≡ []) ⊎ ((s : ℕ) × (r : List ℕ) × (x ≡ s ∷ r))
List-cases [] = inl refl
List-cases (s ∷ r) = inr (s, r, refl)

round-nil : (x y : List ℕ) → sync x ≡ [] → round (x ++ y) ≡ round y
unfolding round
round-nil x y e = rw (sync-nil x y e)

round-cons :
    (x y : List ℕ) {s : ℕ} {r : List ℕ}
    → sync x ≡ s ∷ r
    → round (x ++ y) ≡ synced_round ((s ∷ r) ++ y)
unfolding round
round-cons x y e = rw (sync-append x y e)

round-synced : (x : List ℕ) → round x ≡ synced_round (sync x)
unfolding round
round-synced x = refl

round-stop-append : (x y : List ℕ) {r : List ℕ} → round x ≡ stop r → round (x ++ y) ≡ round (r ++ y)
round-stop-append x y {r} h = elim (List-cases (sync x)) [
  | inl e ↦
      let none_left : r ≡ [] = synced_stop [] (rw e at (sym (round-synced x) ∙ h)) in
      rw none_left (round-nil x y e)
  | inr (s, q, e) ↦
      let kept : r ≡ s ∷ q = synced_stop (s ∷ q) (rw e at (sym (round-synced x) ∙ h)) in
      rw kept (round-cons x y e ∙ sym (round-cons (s ∷ q) y (sync-sync x e)))
]

synced-nil : synced_round [] ≡ stop []
unfolding synced_round
synced-nil = refl

pub round-More : (x y : List ℕ) → More y (round x) (round (x ++ y))
round-More x y = elim (List-cases (sync x)) [
  | inl e ↦ rw (round-synced x, e, synced-nil) tt
  | inr (s, q, e) ↦ rw (round-synced x, e, round-cons x y e) (synced-append (s ∷ q) y)
]

same_round :
    (x y : List ℕ) {last : List ℕ} {frames : List RfidFrame}
    → round x ≡ round y
    → Decodes y frames last
    → Decodes x frames last
same_round x y e (stopped p) = stopped (e ∙ p)
same_round x y e (skipped p d) = skipped (e ∙ p) d
same_round x y e (emitted p d) = emitted (e ∙ p) d

-- To decode a stream, decode its first part, and go on from what stays in the buffer.
pub Decodes-append :
    {x rest last : List ℕ} {frames more : List RfidFrame} (y : List ℕ)
    → Decodes x frames rest
    → Decodes (rest ++ y) more last
    → Decodes (x ++ y) (frames ++ more) last
Decodes-append y (stopped {buffer = x} {rest = r} e) d =
    same_round (x ++ y) (r ++ y) (round-stop-append x y e) d
Decodes-append y (skipped {buffer = x} e c) d =
    skipped (rw e at (round-More x y)) (Decodes-append y c d)
Decodes-append y (emitted {buffer = x} e c) d =
    emitted (rw e at (round-More x y)) (Decodes-append y c d)

feed-Decodes :
    (buffer bytes : List ℕ) → Decodes (buffer ++ bytes) (feed buffer bytes).0 (feed buffer bytes).1
unfolding feed
feed-Decodes buffer bytes =
    decode-Decodes (suc (length (buffer ++ bytes))) (buffer ++ bytes) (omega arith)

pub Decodes-feed :
    (buffer bytes : List ℕ) {last : List ℕ} {frames : List RfidFrame}
    → Decodes (buffer ++ bytes) frames last
    → feed buffer bytes ≡ (frames, last)
unfolding feed
Decodes-feed buffer bytes d = Decodes-decode (suc (length (buffer ++ bytes))) d (omega arith)

-- Fed byte string after byte string, the decoder gives the frames of the two together and keeps the
-- same bytes.
pub feed-append :
    (buffer x y : List ℕ)
    → feed buffer (x ++ y)
      ≡ ((feed buffer x).0 ++ (feed (feed buffer x).1 y).0, (feed (feed buffer x).1 y).1)
feed-append buffer x y = Decodes-feed buffer (x ++ y) (
    rw (← append_assoc buffer x y)
      (Decodes-append y (feed-Decodes buffer x) (feed-Decodes (feed buffer x).1 y)))

round-rest :
    {x last : List ℕ} {frames : List RfidFrame} → Decodes x frames last → round last ≡ stop last
round-rest (stopped {buffer = x} {rest = r} e) =
    sym (ap round (sym (append-nil x)) ∙ round-stop-append x [] e ∙ ap round (append-nil r)) ∙ e
round-rest (skipped e d) = round-rest d
round-rest (emitted e d) = round-rest d

-- A buffer that is left by a call, or that is empty, holds no frame.
unfoldable pub IsSettled : List ℕ → Type 0
IsSettled buffer = round buffer ≡ stop buffer

-- Such a buffer is empty or begins with a SOF.
pub settled_sync : (x : List ℕ) → round x ≡ stop x → synced_round x ≡ stop x
settled_sync x h = elim (List-cases (sync x)) [
  | inl e ↦
      let none_left : x ≡ [] = synced_stop [] (rw e at (sym (round-synced x) ∙ h)) in
      rw none_left synced-nil
  | inr (s, q, e) ↦
      let p : synced_round (s ∷ q) ≡ stop x = rw e at (sym (round-synced x) ∙ h) in
      let kept : x ≡ s ∷ q = synced_stop (s ∷ q) p in ap synced_round kept ∙ p
]

feed-nil : (buffer : List ℕ) → IsSettled buffer → feed buffer [] ≡ ([], buffer)
unfolding IsSettled
feed-nil buffer s = Decodes-feed buffer [] (rw append-nil (stopped s))

pub feed-IsSettled : (buffer bytes : List ℕ) → IsSettled (feed buffer bytes).1
unfolding IsSettled
feed-IsSettled buffer bytes = round-rest (feed-Decodes buffer bytes)

feed_all-settled :
    (buffer : List ℕ) (chunks : List (List ℕ))
    → IsSettled buffer
    → feed_all buffer chunks ≡ feed buffer (flatten chunks)
unfolding feed_all flatten
feed_all-settled buffer [] s = sym (feed-nil buffer s)
feed_all-settled buffer (chunk ∷ chunks) s =
    let ih = feed_all-settled (feed buffer chunk).1 chunks (feed-IsSettled buffer chunk) in
    rw (ih, feed-append)

-- In whatever chunks a stream arrives at a new decoder, the frames are those of the whole stream at
-- once, and so is what stays in the buffer.
pub feed_all-flatten : (chunks : List (List ℕ)) → feed_all [] chunks ≡ feed [] (flatten chunks)
feed_all-flatten chunks =
    feed_all-settled [] chunks (unfold IsSettled round sync synced_round in refl)
