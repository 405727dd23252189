-- ===== src/Reader/Links.antt =====
-- What the calls of a session leave as it is: whether the socket is open, and how many are.
use rfid.Prelude.{ℕ, zero, suc, ◌≡◌, refl, ◌∙◌, Bool, true, false, List, [], ◌∷◌, nat_eq, arith}
use rfid.Result.{Result, ok, err}
use rfid.Protocol.{RfidFrame}
use rfid.Reader.Io.{ReaderError, Io, and_then, ◌>>=◌}
use rfid.Reader.Transport.{
  Port, Answer, bytes, timed_out, os_error, answered, send, receive, receive_rounds, receive_answer,
  receive_matched, fed,
}
use rfid.Reader.Inventory.{
  Executor, on_session, Scan, waiting, answer, failed, wait_scanned, scanned, wait_for,
  command_active_tag,
}

-- Another state of the same connection.
abbrev pub Linked : Port → Port → Type 0
Linked p q = (q.is_open ≡ p.is_open) × (q.open_sockets ≡ p.open_sockets)

Linked-trans : (p q r : Port) → Linked p q → Linked q r → Linked p r
Linked-trans p q r a b = (b.0 ∙ a.0, b.1 ∙ a.1)

answered-Linked : (p : Port) → Linked p (answered p).1
answered-Linked p = ground arith

abbrev pub Keeping : {A : Type 0} → Io Port A → Type 0
Keeping m = (p : Port) → Linked p (m p).1

matched-Linked :
    (again : Io Port (List RfidFrame)) (p : Port) (frames : List RfidFrame) (q : Port)
    → Keeping again
    → Linked p q
    → Linked p (receive_matched again frames q).1
unfolding receive_matched
matched-Linked again p [] q h a = Linked-trans p q (again q).1 a (h q)
matched-Linked again p (f ∷ frames) q h a = a

answer-Linked :
    (expected : List ℕ) (b : Bool) (again : Io Port (List RfidFrame)) (p : Port) (r : Answer × Port)
    → Keeping again
    → Linked p r.1
    → Linked p (receive_answer expected b again r).1
unfolding receive_answer
answer-Linked expected true again p (timed_out, q) h a = a
answer-Linked expected false again p (timed_out, q) h a = a
answer-Linked expected b again p (os_error, q) h a = a
answer-Linked expected b again p (bytes [], q) h a = a
answer-Linked expected b again p (bytes (x ∷ chunk), q) h a =
    matched-Linked again p _ (fed q (x ∷ chunk)).1 h a

rounds-Linked : (expected : List ℕ) (b : Bool) (n : ℕ) → Keeping (receive_rounds expected b n)
unfolding receive_rounds
rounds-Linked expected b zero p = (refl, refl)
rounds-Linked expected b (suc n) p =
    answer-Linked expected b (receive_rounds expected b n) p (answered p)
      (rounds-Linked expected b n) (answered-Linked p)

pub receive-Linked :
    (expected : List ℕ) (n : ℕ) (b : Bool) (p : Port) → Linked p (receive expected n b p).1
unfolding receive
receive-Linked expected n b p = ground (arith, rounds-Linked expected b n p)

pub send-Linked : (frame : List ℕ) → Keeping (send frame)
unfolding send
send-Linked [] p = (refl, refl)
send-Linked (x ∷ frame) p = ground arith

-- Another state of an executor with the same session and connection.
pub record Alike (e f : Executor) : Type 0 where
  pub same_session : f.has_session ≡ e.has_session
  pub same_key : f.active_session_key ≡ e.active_session_key
  pub same_open : f.port.is_open ≡ e.port.is_open
  pub same_sockets : f.port.open_sockets ≡ e.port.open_sockets

abbrev pub Steady : {A : Type 0} → Io Executor A → Type 0
Steady m = (e : Executor) → Alike e (m e).1

pub Alike-refl : (e : Executor) → Alike e e
Alike-refl e = record {
  same_session = refl;
  same_key = refl;
  same_open = refl;
  same_sockets = refl;
}

pub Alike-trans : (e f g : Executor) → Alike e f → Alike f g → Alike e g
Alike-trans e f g a b = record {
  same_session = b.same_session ∙ a.same_session;
  same_key = b.same_key ∙ a.same_key;
  same_open = b.same_open ∙ a.same_open;
  same_sockets = b.same_sockets ∙ a.same_sockets;
}

pub on_session-Steady : {A : Type 0} (m : Io Port A) → Keeping m → Steady (on_session m)
on_session-Steady m h e = record {
  same_session = refl;
  same_key = refl;
  same_open = (h e.port).0;
  same_sockets = (h e.port).1;
}

and_then-Alike :
    {A B : Type 0} (k : A → Io Executor B) (e : Executor) (r : Result ReaderError A × Executor)
    → ((a : A) → Steady (k a))
    → Alike e r.1
    → Alike e (and_then k r).1
unfolding and_then
and_then-Alike k e (ok a, f) h s = Alike-trans e f _ s (h a f)
and_then-Alike k e (err x, f) h s = s

pub bind-Steady :
    {A B : Type 0} (m : Io Executor A) (k : A → Io Executor B)
    → Steady m
    → ((a : A) → Steady (k a))
    → Steady (m >>= k)
bind-Steady m k h hk e = and_then-Alike k e (m e) hk (h e)

pub pending-Alike :
    (e : Executor) (pending : List RfidFrame) → Alike e (record e { pending_tag_frames = pending })
pending-Alike e pending = record {
  same_session = refl;
  same_key = refl;
  same_open = refl;
  same_sockets = refl;
}

scanned-Alike :
    (again : Io Executor RfidFrame) (e : Executor) (s : Scan)
    → Steady again
    → Alike e (wait_scanned again e s).1
unfolding wait_scanned
scanned-Alike again e (waiting pending) h =
    Alike-trans e (record e { pending_tag_frames = pending }) _ (pending-Alike e pending) (h _)
scanned-Alike again e (answer frame pending) h = pending-Alike e pending
scanned-Alike again e (failed x pending) h = pending-Alike e pending

pub wait_for-Steady :
    (address command : ℕ) (accepted : ℕ → Bool) (n : ℕ)
    → Steady (wait_for address command accepted n)
unfolding wait_for
wait_for-Steady address command accepted zero e = Alike-refl e
wait_for-Steady address command accepted (suc n) e =
    bind-Steady (on_session (receive (command ∷ command_active_tag ∷ []) 32 true))
      (scanned address command accepted (wait_for address command accepted n))
      (on_session-Steady (receive (command ∷ command_active_tag ∷ []) 32 true)
        (receive-Linked (command ∷ command_active_tag ∷ []) 32 true))
      (λ frames f. scanned-Alike _ f _ (wait_for-Steady address command accepted n)) e
