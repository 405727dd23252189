-- ===== src/Session/Unique.antt =====
-- The sessions keep the constraints of their table: one session to an identifier and to a key, and one
-- active session to a reader.
use rfid.Prelude.{
  ◌<◌, ◌≡◌, ◌≢◌, ◌↔◌, refl, sym, ◌∙◌, subst, inl, inr, Bool, none, some, String, List, [], ◌∷◌,
  ◌==◌, nat_eq, string_eq, find?, All, arith, Bool-cases, nat_beq_iff,
}
use rfid.Models.{active, status_eq, RfidSession, Database}
use rfid.Models.Orm.{save_session}
use rfid.Session.Service.{session_of_key, active_session}
use text.Mathlib.TextEquality.{eq_iff}

-- Two rows that the table may hold together.
abbrev pub Differs : RfidSession → RfidSession → Type 0
Differs s t =
    (s.id ≢ t.id)
    × (s.external_session_key ≢ t.external_session_key)
    × (s.status ≡ active → t.status ≡ active → s.device_id ≢ t.device_id)

abbrev pub AllDiffer : List RfidSession → Type 0
AllDiffer [] = Unit
AllDiffer (s ∷ sessions) = All (Differs s) sessions × AllDiffer sessions

-- The constraints of the table; a new row gets an identifier that no row has.
abbrev pub IsUnique : Database → Type 0
IsUnique db = All (λ s. s.id < db.next_id) db.sessions × AllDiffer db.sessions

pub All-map :
    {P Q : RfidSession → Type 0}
    → ((s : RfidSession) → P s → Q s)
    → (sessions : List RfidSession) → All P sessions
    → All Q sessions
All-map f [] h = tt
All-map f (s ∷ sessions) (p, h) = (f s p, All-map f sessions h)

pub All-find :
    (P : RfidSession → Type 0) (test : RfidSession → Bool) (sessions : List RfidSession)
    {s : RfidSession}
    → All P sessions
    → find? test sessions ≡ some s
    → P s
All-find P test [] h e = cc
All-find P test (x ∷ sessions) {s} (p, h) e = elim (Bool-cases (test x)) [
  | inl t ↦ subst P (ground arith) p
  | inr t ↦ All-find P test sessions h (ground arith)
]

-- A new row differs from the others if its identifier is new and no row has its key or keeps its
-- reader busy.
pub new-Differs :
    (s : RfidSession) (sessions : List RfidSession)
    → All (λ t. t.id < s.id) sessions
    → session_of_key s.external_session_key sessions ≡ none
    → active_session s.device_id sessions ≡ none
    → All (Differs s) sessions
new-Differs s [] a k b = tt
new-Differs s (x ∷ sessions) (a, rest) k b = (
  (
    λ e. omega arith,
    λ e. ground (arith, eq_iff x.external_session_key s.external_session_key),
    λ u v w. ground arith,
  ),
  new-Differs s sessions rest (ground arith) (ground arith),
)

pub All-save :
    (P : RfidSession → Type 0) (r : RfidSession) (sessions : List RfidSession)
    → All P sessions
    → P r
    → All P (save_session r sessions)
All-save P r [] h p = tt
All-save P r (x ∷ sessions) (q, h) p = elim (Bool-cases (x.id == r.id)) [
  | inl t ↦ rw t (p, h)
  | inr t ↦ rw t (q, All-save P r sessions h p)
]

-- The other rows differ from the row that a key finds; only that row has its identifier or its key.
pub found-agrees :
    (key : String) (sessions : List RfidSession) {old : RfidSession}
    → AllDiffer sessions
    → session_of_key key sessions ≡ some old
    → All (λ s. (s.id ≡ old.id) ↔ (s.external_session_key ≡ old.external_session_key)) sessions
found-agrees key [] u h = tt
found-agrees key (x ∷ sessions) {old} (d, u) h = elim (Bool-cases (x.external_session_key == key)) [
  | inl t ↦
      let same : x ≡ old = ground arith in
      subst
        (λ o.
          ((x.id ≡ o.id) ↔ (x.external_session_key ≡ o.external_session_key))
          × All (λ s. (s.id ≡ o.id) ↔ (s.external_session_key ≡ o.external_session_key)) sessions)
        same
        (
          (λ _. refl, λ _. refl),
          All-map (λ s e. (λ i. absurd (e.0 (sym i)), λ k. absurd (e.1 (sym k)))) sessions d,
        )
  | inr t ↦
      let later : session_of_key key sessions ≡ some old = ground arith in
      let apart = All-find (Differs x) (λ s. s.external_session_key == key) sessions d later in
      ((λ i. absurd (apart.0 i), λ k. absurd (apart.1 k)), found-agrees key sessions u later)
]

-- Saving a row that is not active any more, and agrees with the rows as above, keeps them different.
pub save-AllDiffer :
    (r : RfidSession) (sessions : List RfidSession)
    → AllDiffer sessions
    → r.status ≢ active
    → All (λ s. (s.id ≡ r.id) ↔ (s.external_session_key ≡ r.external_session_key)) sessions
    → AllDiffer (save_session r sessions)
save-AllDiffer r [] u n a = tt
save-AllDiffer r (x ∷ sessions) (d, u) n (i, a) = elim (Bool-cases (x.id == r.id)) [
  | inl t ↦
      let same : x.id ≡ r.id = (nat_beq_iff x.id r.id).0 t in
      rw t (
        All-map (λ s e. (λ k. e.0 (same ∙ k), λ k. e.1 (i.0 same ∙ k), λ c. absurd (n c))) sessions
            d,
        u,
      )
  | inr t ↦
      let apart : x.id ≢ r.id = λ e. absurd (ground arith) in
      rw t (
        All-save (Differs x) r sessions d (apart, λ k. apart (i.1 k), λ _ c. absurd (n c)),
        save-AllDiffer r sessions u n a,
      )
]
