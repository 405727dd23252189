-- ===== src/Reader/Safe.antt =====
-- The socket of an executor is open exactly while a session is active.
use rfid.Prelude.{ℕ, ◌≡◌, refl, sym, ap, ◌∙◌, Bool, true, false, String, arith}
use rfid.Result.{Result, ok, err}
use rfid.Reader.Io.{ReaderError, Io, and_then, ◌>>=◌}
use rfid.Reader.Transport.{
  Port, Answer, bytes, timed_out, os_error, answered, enter, close_session, send, connected,
}
use rfid.Reader.Inventory.{
  ReaderSettings, Executor, is_set, on_session, wait_for_start_response, close, start_inventory,
  abandon,
}
use rfid.Reader.Links.{send-Linked, Alike, Steady, Alike-refl, on_session-Steady, wait_for-Steady}

abbrev pub bit : Bool → ℕ
bit true = 1
bit false = 0

-- A session is active, its socket is open and there is no other; or nothing is open and no session is
-- active.
pub record IsSafe (e : Executor) : Type 0 where
  pub keyed : is_set e.active_session_key ≡ e.has_session
  pub opened : e.port.is_open ≡ e.has_session
  pub counted : e.port.open_sockets ≡ bit e.has_session

-- The executor's own socket is the one that is open, if any.
abbrev pub Counted : Executor → Type 0
Counted e = e.port.open_sockets ≡ bit e.port.is_open

pub record InSession (e : Executor) : Type 0 where
  pub has_session : e.has_session ≡ true
  pub is_open : e.port.is_open ≡ true
  pub one_socket : e.port.open_sockets ≡ 1

-- What holds after a value and after an exception.
abbrev pub Post :
    {A : Type 0}
    → (Executor → Type 0)
    → (Executor → Type 0)
    → Result ReaderError A × Executor
    → Type 0
Post Q E (ok a, e) = Q e
Post Q E (err x, e) = E e

and_then-Post :
    {A B : Type 0} (Q R E : Executor → Type 0) (k : A → Io Executor B)
    (r : Result ReaderError A × Executor)
    → ((a : A) (e : Executor) → Q e → Post R E (k a e))
    → Post Q E r
    → Post R E (and_then k r)
unfolding and_then
and_then-Post Q R E k (ok a, e) h p = h a e p
and_then-Post Q R E k (err x, e) h p = p

abbrev pub Triple :
    {A : Type 0}
    → (Executor → Type 0)
    → (Executor → Type 0)
    → (Executor → Type 0)
    → Io Executor A
    → Type 0
Triple P Q E m = (e : Executor) → P e → Post Q E (m e)

bind-Triple :
    {A B : Type 0} (P Q R E : Executor → Type 0) (m : Io Executor A) (k : A → Io Executor B)
    → Triple P Q E m
    → ((a : A) → Triple Q R E (k a))
    → Triple P R E (m >>= k)
bind-Triple P Q R E m k h hk e p = and_then-Post Q R E k (m e) hk (h e p)

pub Alike-IsSafe : (e f : Executor) → Alike e f → IsSafe e → IsSafe f
Alike-IsSafe e f a s = record {
  keyed = ap is_set a.same_key ∙ s.keyed ∙ sym a.same_session;
  opened = a.same_open ∙ s.opened ∙ sym a.same_session;
  counted = a.same_sockets ∙ s.counted ∙ ap bit (sym a.same_session);
}

pub Alike-InSession : (e f : Executor) → Alike e f → InSession e → InSession f
Alike-InSession e f a s = record {
  has_session = a.same_session ∙ s.has_session;
  is_open = a.same_open ∙ s.is_open;
  one_socket = a.same_sockets ∙ s.one_socket;
}

InSession-Counted : (e : Executor) → InSession e → Counted e
InSession-Counted e s = s.one_socket ∙ ap bit (sym s.is_open)

-- A steady step inside a session.
step-Post :
    {A : Type 0} (e : Executor) (r : Result ReaderError A × Executor)
    → Alike e r.1
    → InSession e
    → Post InSession Counted r
step-Post e (ok a, f) h s = Alike-InSession e f h s
step-Post e (err x, f) h s = InSession-Counted f (Alike-InSession e f h s)

step-Triple : {A : Type 0} (m : Io Executor A) → Steady m → Triple InSession InSession Counted m
step-Triple m h e s = step-Post e (m e) (h e) s

pub close-IsSafe : (e : Executor) → InSession e → IsSafe (close e)
unfolding close close_session
close-IsSafe e s = ground (arith, s.has_session, s.is_open, s.one_socket)

pub abandon-IsSafe : (e : Executor) → Counted e → IsSafe (abandon e)
unfolding abandon close_session
abandon-IsSafe e c = ground arith

-- Entering a session, where none is open.
Entered : Executor → Type 0
Entered e = (e.port.is_open ≡ true) × (e.port.open_sockets ≡ 1)

connected-Post :
    (r : Answer × Port) (e : Executor)
    → r.1.is_open ≡ false
    → r.1.open_sockets ≡ 0
    → Post Entered Counted ((connected r).0, record e { port = (connected r).1 })
unfolding Entered
connected-Post (bytes xs, p) e h k = (refl, omega (arith, k))
connected-Post (timed_out, p) e h k = k ∙ ap bit (sym h)
connected-Post (os_error, p) e h k = k ∙ ap bit (sym h)

unfoldable pub Closed : Executor → Type 0
Closed e = (e.port.is_open ≡ false) × (e.port.open_sockets ≡ 0)

enter-Triple : Triple Closed Entered Counted (on_session enter)
unfolding enter Closed
enter-Triple e h =
    let next : enter e.port ≡ connected (answered e.port) = ground (arith, h.0) in
    rw (next) (connected-Post (answered e.port) e (ground (arith, h.0)) (ground (arith, h.1)))

-- What a start leaves.
unfoldable pub Started : Executor → Type 0
Started e = InSession e × (is_set e.active_session_key ≡ true)

pub start_inventory-Triple :
    (device : ReaderSettings) (key : String)
    → Triple Closed Started Counted (start_inventory device key)
unfolding start_inventory Entered Started wait_for_start_response
start_inventory-Triple device key =
    bind-Triple Closed Entered Started Counted _ _ enter-Triple (λ _.
      bind-Triple Entered InSession Started Counted _ _
        (λ e h. record { has_session = refl; is_open = h.0; one_socket = h.1 })
        (λ _.
          bind-Triple InSession InSession Started Counted _ _ (step-Triple _ (λ e. Alike-refl e))
            (λ request.
              bind-Triple InSession InSession Started Counted _ _
                (step-Triple (on_session (send request))
                  (on_session-Steady (send request) (send-Linked request)))
                (λ _.
                  bind-Triple InSession InSession Started Counted _ _
                    (step-Triple _ (wait_for-Steady _ _ _ 32))
                    (λ _ e s. (
                      record {
                        has_session = s.has_session;
                        is_open = s.is_open;
                        one_socket = s.one_socket;
                      },
                      refl,
                    ))))))
