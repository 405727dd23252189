-- ===== src/Prelude/Blank.antt =====
-- What `strip` leaves nothing of: texts of spaces alone.
use Prim.Native.Char.{Char}
use Prim.Native.String.{String}
use mathlib.Core.Path.{◌≡◌, refl, sym, subst}
use mathlib.Core.Logic.{◌≢◌, ◌⊎◌, inl, inr}
use mathlib.Core.Bool.{true}
use text.Mathlib.TextLemmas.{cons-append, cons≢nil}
use rfid.Prelude.Tests.{Bool-cases, if◌then◌else◌}
use rfid.Prelude.Text.{is_space, strip_left, strip_right, strip, join}

abbrev Blank : String → Type 0
Blank String.[] = Unit
Blank (String.◌∷◌ c s) = (is_space c ≡ true) × Blank s

Blank-strip_left : (s : String) → strip_left s ≡ "" → Blank s
unfolding strip_left
Blank-strip_left String.[] h = tt
Blank-strip_left (String.◌∷◌ c s) h = elim (Bool-cases (is_space c)) [
  | inl e ↦ (e, Blank-strip_left s (rw e at h))
  | inr e ↦ absurd (cons≢nil (rw e at h))
]

String-cases : (s : String) → (s ≡ "") ⊎ ((d : Char) × (r : String) × (s ≡ String.◌∷◌ d r))
String-cases String.[] = inl refl
String-cases (String.◌∷◌ d r) = inr (d, r, refl)

-- Stripping what stands before a text that is not blank.
cons-right :
    (c : Char) (s : String) {d : Char} {r : String}
    → strip_right s ≡ String.◌∷◌ d r
    → strip_right (String.◌∷◌ c s) ≡ String.◌∷◌ c (String.◌∷◌ d r)
unfolding strip_right
cons-right c s e = rw (e, strip_right) refl

last-right :
    (c : Char) (s : String)
    → strip_right s ≡ ""
    → strip_right (String.◌∷◌ c s) ≡ (if is_space c then "" else String.◌∷◌ c "")
unfolding strip_right
last-right c s e = rw (e, strip_right) refl

Blank-strip_right : (s : String) → Blank (strip_right s) → Blank s
unfolding strip_right
Blank-strip_right String.[] h = tt
Blank-strip_right (String.◌∷◌ c s) h = elim (String-cases (strip_right s)) [
  | inr (d, r, e) ↦
      let whole = subst Blank (cons-right c s e) h in
      (whole.0, Blank-strip_right s (subst Blank (sym e) whole.1))
  | inl e ↦
      let whole = subst Blank (last-right c s e) h in
      elim (Bool-cases (is_space c)) [
        | inl f ↦ (f, Blank-strip_right s (subst Blank (sym e) tt))
        | inr f ↦
            let only : Blank (String.◌∷◌ c "") = rw f at whole in
            (only.0, Blank-strip_right s (subst Blank (sym e) tt))
      ]
]

strip_right-Blank : (s : String) → Blank s → strip_right s ≡ ""
unfolding strip_right
strip_right-Blank String.[] h = refl
strip_right-Blank (String.◌∷◌ c s) (e, h) = rw (strip_right-Blank s h, e, strip_right) refl

strip-Blank : (s : String) → Blank s → strip s ≡ ""
unfolding strip
strip-Blank s h = rw (strip_right-Blank s h) refl

Blank-join : (s t : String) → Blank (join s t) → Blank s
Blank-join String.[] t h = tt
Blank-join (String.◌∷◌ c s) t h =
    let whole = subst Blank (cons-append c s t) h in (whole.0, Blank-join s t whole.1)

-- A text with something behind it is not empty once stripped, if it was not.
pub strip-join : (s t : String) → strip s ≢ "" → strip (join s t) ≢ ""
unfolding strip
strip-join s t n e = n (
    strip-Blank s
      (Blank-join s t (Blank-strip_right (join s t) (Blank-strip_left (strip_right (join s t)) e))))
