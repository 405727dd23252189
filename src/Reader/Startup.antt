-- ===== src/Reader/Startup.antt =====
-- The check at startup leaves no socket open.
use rfid.Prelude.{
  ℕ, zero, suc, ◌≡◌, sym, ap, ◌∙◌, inl, inr, Bool, true, false, [], ◌∷◌, nat_eq, string_eq, arith,
  Bool-cases, if◌then◌else◌,
}
use rfid.Result.{Result, ok, err, Result-cases}
use rfid.Reader.Io.{ReaderError, Io, and_then, ◌>>=◌, finally, pure}
use rfid.Reader.Transport.{
  Port, Answer, make_transport, fresh, enter, close_session, send, receive, connected, answered,
  bytes, timed_out, os_error,
}
use rfid.Reader.Inventory.{ReaderSettings, Executor, command_stop, is_active}
use rfid.Reader.Polls.{wait_idle, stop_idle, beside, verify_idle}
use rfid.Reader.Links.{Keeping, receive-Linked, send-Linked}
use rfid.Reader.Safe.{bit, IsSafe}
use rfid.Reader.Sessions.{inactive}

-- The startup check, on a session of its own: its socket is the one that is open, if any.
abbrev Counts : {A : Type 0} → Io Port A → Type 0
Counts m = (p : Port) → p.open_sockets ≡ bit p.is_open → (m p).1.open_sockets ≡ bit (m p).1.is_open

Keeping-Counts : {A : Type 0} (m : Io Port A) → Keeping m → Counts m
Keeping-Counts m h p c = (h p).1 ∙ c ∙ ap bit (sym (h p).0)

and_then-Counts :
    {A B : Type 0} (k : A → Io Port B) (r : Result ReaderError A × Port)
    → ((a : A) → Counts (k a))
    → r.1.open_sockets ≡ bit r.1.is_open
    → (and_then k r).1.open_sockets ≡ bit (and_then k r).1.is_open
unfolding and_then
and_then-Counts k (ok a, p) h c = h a p c
and_then-Counts k (err x, p) h c = c

bind-Counts :
    {A B : Type 0} (m : Io Port A) (k : A → Io Port B)
    → Counts m
    → ((a : A) → Counts (k a))
    → Counts (m >>= k)
bind-Counts m k h hk p c = and_then-Counts k (m p) hk (h p c)

connected-Counts :
    (r : Answer × Port)
    → r.1.is_open ≡ false
    → r.1.open_sockets ≡ bit r.1.is_open
    → (connected r).1.open_sockets ≡ bit (connected r).1.is_open
connected-Counts (bytes xs, p) h c = ground arith
connected-Counts (timed_out, p) h c = c
connected-Counts (os_error, p) h c = c

enter-Counts : Counts enter
unfolding enter
enter-Counts p c = elim (Bool-cases p.is_open) [
  | inl h ↦ ground arith
  | inr h ↦
      let next : enter p ≡ connected (answered p) = ground arith in
      rw next (connected-Counts (answered p) (ground arith) (ground arith))
]

choice-Counts : (b : Bool) (m : Io Port (Unit {0})) → Counts m → Counts (if b then pure tt else m)
choice-Counts true m h p c = c
choice-Counts false m h p c = h p c

wait_idle-Counts : (address n : ℕ) → Counts (wait_idle address n)
unfolding wait_idle
wait_idle-Counts address zero p = λ c. c
wait_idle-Counts address (suc n) p =
    bind-Counts (receive (command_stop ∷ []) 32 true) _
      (Keeping-Counts (receive (command_stop ∷ []) 32 true)
        (receive-Linked (command_stop ∷ []) 32 true))
      (λ frames.
        bind-Counts _ _ (λ p c. c)
          (λ b. choice-Counts b (wait_idle address n) (wait_idle-Counts address n)))
      p

stop_idle-Counts : (device : ReaderSettings) → Counts (stop_idle device)
unfolding stop_idle
stop_idle-Counts device = bind-Counts _ _ enter-Counts (λ _.
    bind-Counts _ _ (λ p c. c)
      (λ request.
        bind-Counts (send request) _ (Keeping-Counts (send request) (send-Linked request))
          (λ _. wait_idle-Counts _ 32)))

closed-Counts : (p : Port) → p.open_sockets ≡ bit p.is_open → (close_session p).open_sockets ≡ 0
unfolding close_session
closed-Counts p c = ground arith

beside-IsSafe :
    (e : Executor) (r : Result ReaderError (Unit {0}) × Port)
    → IsSafe e
    → e.has_session ≡ false
    → r.1.open_sockets ≡ bit r.1.is_open
    → IsSafe (beside e (finally close_session r)).1
unfolding finally
beside-IsSafe e (r, p) s h c = record {
  keyed = s.keyed;
  opened = s.opened;
  counted = closed-Counts p c ∙ ap bit (sym h);
}

pub verify-IsSafe :
    (device : ReaderSettings) (e : Executor) → IsSafe e → IsSafe (verify_idle device e).1
unfolding verify_idle
verify-IsSafe device e s = elim (Bool-cases (is_active e)) [
  | inl h ↦ rw (h) s
  | inr h ↦ elim (Result-cases (make_transport device.connection 4096)) [
    | inr (x, f) ↦ rw (h, f) s
    | inl (u, f) ↦
        let idle = s.counted ∙ ap bit (inactive e s h) in
        rw (h, f)
          (beside-IsSafe e _ s (inactive e s h) (stop_idle-Counts device (fresh e.port) idle))
  ]
]
