-- ===== src/Reader/Sessions.antt =====
-- Starts, stops and polls keep an executor's socket open exactly while a session is active.
use rfid.Prelude.{
  ℕ, ◌≡◌, refl, sym, ap, ◌∙◌, inl, inr, true, false, String, List, [], ◌∷◌, ◌++◌, ◌==◌, nat_eq,
  string_eq, arith, Bool-cases,
}
use rfid.Prelude.Text.{strip}
use rfid.Result.{Result, ok, err, Result-cases}
use rfid.Protocol.{RfidFrame}
use rfid.Reader.Io.{ReaderError, and_then, finally, undone_on_error}
use rfid.Reader.Transport.{make_transport, fresh, send, receive}
use rfid.Reader.Inventory.{
  ReaderSettings, Executor, command_active_tag, is_active, same_key, on_session,
  wait_for_stop_response, close, abandon, begin, start, stop_inventory, stop,
}
use rfid.Reader.Polls.{take_pending_tag_frames, capture, poll_reader, pending_or_polled}
use rfid.Reader.Links.{
  receive-Linked, send-Linked, Steady, Alike-refl, pending-Alike, Alike-trans, on_session-Steady,
  bind-Steady, wait_for-Steady,
}
use rfid.Reader.Safe.{
  bit, IsSafe, InSession, Counted, Post, Started, Closed, start_inventory-Triple, close-IsSafe,
  abandon-IsSafe, Alike-InSession,
}

active-InSession : (e : Executor) → IsSafe e → is_active e ≡ true → InSession e
active-InSession e s h =
    let set : e.has_session ≡ true = ground arith in
    record { has_session = set; is_open = s.opened ∙ set; one_socket = s.counted ∙ ap bit set }

pub inactive : (e : Executor) → IsSafe e → is_active e ≡ false → e.has_session ≡ false
inactive e s h = ground (arith, s.keyed)

success-IsSafe : (e : Executor) → Started e → IsSafe e
unfolding Started
success-IsSafe e (s, k) = record {
  keyed = k ∙ sym s.has_session;
  opened = s.is_open ∙ sym s.has_session;
  counted = s.one_socket ∙ ap bit (sym s.has_session);
}

undone-IsSafe :
    (r : Result ReaderError (Unit {0}) × Executor)
    → Post Started Counted r
    → IsSafe (undone_on_error abandon r).1
unfolding undone_on_error
undone-IsSafe (ok a, e) p = success-IsSafe e p
undone-IsSafe (err x, e) p = abandon-IsSafe e p

begin-IsSafe :
    (device : ReaderSettings) (key : String) (e : Executor)
    → IsSafe e
    → is_active e ≡ false
    → IsSafe (begin device key e).1
unfolding begin and_then Closed
begin-IsSafe device key e s h = elim (Result-cases (make_transport device.connection 4096)) [
  | inr (x, f) ↦ rw (f) s
  | inl (u, f) ↦
      let idle = s.counted ∙ ap bit (inactive e s h) in
      rw (f) (
        undone-IsSafe _
          (start_inventory-Triple device key (record e { port = fresh e.port }) (refl, idle)))
]

pub start-IsSafe :
    (device : ReaderSettings) (key code : String) (e : Executor)
    → IsSafe e
    → IsSafe (start device key code e).1
unfolding start
start-IsSafe device key code e s = elim (Bool-cases (strip code == device.code)) [
  | inr f ↦ rw (f) s
  | inl f ↦ elim (Bool-cases (strip key == "")) [
    | inl g ↦ rw (f, g) s
    | inr g ↦ elim (Bool-cases (is_active e)) [
      | inr h ↦ rw (f, g, h) (begin-IsSafe device (strip key) e s h)
      | inl h ↦ elim (Bool-cases (same_key (strip key) e.active_session_key)) [
        | inl k ↦ rw (f, g, h, k) s
        | inr k ↦ rw (f, g, h, k) s
      ]
    ]
  ]
]

closed-IsSafe :
    (r : Result ReaderError (Unit {0}) × Executor) → InSession r.1 → IsSafe (finally close r).1
unfolding finally
closed-IsSafe (r, e) s = close-IsSafe e s

stop_inventory-Steady : (device : ReaderSettings) → Steady (stop_inventory device)
unfolding stop_inventory wait_for_stop_response
stop_inventory-Steady device =
    bind-Steady _ _ (λ e. Alike-refl e)
      (λ request.
        bind-Steady (on_session (send request)) _
          (on_session-Steady (send request) (send-Linked request))
          (λ _. bind-Steady _ _ (wait_for-Steady _ _ _ 32) (λ _ e. Alike-refl e)))

pub stop-IsSafe :
    (device : ReaderSettings) (key code : String) (e : Executor)
    → IsSafe e
    → IsSafe (stop device key code e).1
unfolding stop
stop-IsSafe device key code e s = elim (Bool-cases (strip code == device.code)) [
  | inr f ↦ rw (f) s
  | inl f ↦ elim (Bool-cases (is_active e)) [
    | inr g ↦ rw (f, g) s
    | inl g ↦ elim (Bool-cases (same_key (strip key) e.active_session_key)) [
      | inr h ↦ rw (f, g, h) s
      | inl h ↦
          rw (f, g, h)
            (closed-IsSafe (stop_inventory device e)
              (Alike-InSession e _ (stop_inventory-Steady device e) (active-InSession e s g)))
    ]
  ]
]

capture-Steady : (address : ℕ) (frames : List RfidFrame) → Steady (capture address frames)
unfolding capture
capture-Steady address [] e = Alike-refl e
capture-Steady address (frame ∷ frames) e =
    let rest = capture-Steady address frames e in
    let e' : Executor = record e { pending_tag_frames = e.pending_tag_frames ++ frame ∷ [] } in
    let next =
      Alike-trans e e' _ (pending-Alike e (e.pending_tag_frames ++ frame ∷ []))
        (capture-Steady address frames e') in
    elim (Bool-cases (frame.address == address)) [
      | inr f ↦ rw (f) (Alike-refl e)
      | inl f ↦ elim (Bool-cases (frame.command == command_active_tag)) [
        | inr g ↦ rw (f, g) rest
        | inl g ↦ elim (Bool-cases (frame.status == 0)) [
          | inr h ↦ rw (f, g, h) (Alike-refl e)
          | inl h ↦ rw (f, g, h) next
        ]
      ]
    ]

pub take-Steady : Steady take_pending_tag_frames
unfolding take_pending_tag_frames
take-Steady e = pending-Alike e []

poll_reader-Steady : (device : ReaderSettings) → Steady (poll_reader device)
unfolding poll_reader
poll_reader-Steady device =
    bind-Steady (on_session (receive (command_active_tag ∷ []) 32 true)) _
      (on_session-Steady (receive (command_active_tag ∷ []) 32 true)
        (receive-Linked (command_active_tag ∷ []) 32 true))
      (λ frames. bind-Steady _ _ (capture-Steady device.device_address frames) (λ _. take-Steady))

pub pending-Steady :
    (device : ReaderSettings) (pending : List RfidFrame) → Steady (pending_or_polled device pending)
pending-Steady device (f ∷ frames) e = take-Steady e
pending-Steady device [] e = elim (Bool-cases (is_active e)) [
  | inl h ↦ rw (h) (poll_reader-Steady device e)
  | inr h ↦ rw (h) (Alike-refl e)
]
