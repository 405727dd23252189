-- ===== src/Worker/Rounds.antt =====
-- Rounds of the worker, and what Odoo is told in them.
use rfid.Prelude.{
  ℕ, zero, suc, inl, inr, Bool, true, false, Option, none, some, String, List, [], ◌∷◌, ◌==◌,
  string_eq, Bool-cases, Option-cases,
}
use rfid.Result.{Result, ok}
use rfid.Protocol.{RfidFrame}
use rfid.Runtime.{reading, runtime_state_eq}
use rfid.Intake.{FinalTagIngestionResult, ingest_final_active_tag_frames}
use rfid.Orchestrator.{
  Failure, throw, reading_without_session, ◌>>=◌, Entry, World, heartbeat, Action, pure,
  session_call, send_heartbeat, poll_commands, bind-Keeps, session_call-Keeps, Keeps,
}
use rfid.Worker.Barrier.{AllJustified, IsWired, perform-Keeps}
use rfid.Worker.Delivered.{poll-delivered}
use rfid.Worker.Cycle.{
  FinalWorkerCycle, asked, require_capture_healthy, ingest_if_any, taken, for_key, while_reading,
  poll_active_tags, persist_pending, without_capture, run_once,
}

-- The world after a number of rounds, whether they return or raise.
unfoldable pub after_rounds : FinalWorkerCycle → ℕ → World → World
after_rounds cycle zero w = w
after_rounds cycle (suc n) w = after_rounds cycle n (run_once cycle w).1

asked-Keeps :
    {A : Type 0} (answer : List Entry → Result Failure A) → Keeps AllJustified (asked answer)
unfolding asked
asked-Keeps answer w p = p

for_key-Keeps :
    (is_reading : Bool) (session_key : Option String)
    (without : Action (Option FinalTagIngestionResult))
    (with_key : String → Action (Option FinalTagIngestionResult))
    → Keeps AllJustified without
    → ((key : String) → Keeps AllJustified (with_key key))
    → Keeps AllJustified (for_key is_reading session_key without with_key)
for_key-Keeps false session_key without with_key h k w p = p
for_key-Keeps true none without with_key h k w p = h w p
for_key-Keeps true (some key) without with_key h k w p = elim (Bool-cases (key == "")) [
  | inl g ↦ rw (g) (h w p)
  | inr g ↦ rw (g) (k key w p)
]

while_reading-Keeps :
    (without : Action (Option FinalTagIngestionResult))
    (with_key : String → Action (Option FinalTagIngestionResult))
    → Keeps AllJustified without
    → ((key : String) → Keeps AllJustified (with_key key))
    → Keeps AllJustified (while_reading without with_key)
while_reading-Keeps without with_key h k w p =
    for_key-Keeps (w.runtime.state == reading) w.runtime.session_key without with_key h k w p

module _ (cycle : FinalWorkerCycle) where
  healthy-Keeps : Keeps AllJustified (require_capture_healthy cycle)
  unfolding require_capture_healthy asked
  healthy-Keeps w p = elim (Option-cases cycle.capture_service) [
    | inl e ↦ rw (e, require_capture_healthy) p
    | inr (capture, e) ↦ rw (e, require_capture_healthy) p
  ]

  ingest-Keeps :
      (key : String) (frames : List RfidFrame) → Keeps AllJustified (ingest_if_any cycle key frames)
  unfolding ingest_if_any
  ingest-Keeps key [] w p = p
  ingest-Keeps key (frame ∷ frames) w p =
      let ingest =
        ingest_final_active_tag_frames cycle.sha256_hex cycle.json_dumps cycle.device key
          (frame ∷ frames) in
      bind-Keeps AllJustified (session_call ingest) (λ r. pure (some r))
        (session_call-Keeps AllJustified ingest) (λ r v q. q) w p

  poll_tags-Keeps : Keeps AllJustified (poll_active_tags cycle)
  unfolding poll_active_tags
  poll_tags-Keeps =
      while_reading-Keeps (throw reading_without_session)
        (λ key. asked cycle.poll_tag_frames >>= λ frames. ingest_if_any cycle key frames) (λ w p. p)
        (λ key.
          bind-Keeps AllJustified (asked cycle.poll_tag_frames)
            (λ frames. ingest_if_any cycle key frames) (asked-Keeps cycle.poll_tag_frames)
            (λ frames. ingest-Keeps key frames))

  pending-Keeps : Keeps AllJustified (persist_pending cycle)
  unfolding persist_pending
  pending-Keeps =
      while_reading-Keeps (pure none)
        (λ key. taken cycle >>= λ frames. ingest_if_any cycle key frames) (λ w p. p)
        (λ key.
          bind-Keeps AllJustified (taken cycle) (λ frames. ingest_if_any cycle key frames)
            (asked-Keeps (λ trace. ok (cycle.take_pending_tag_frames trace)))
            (λ frames. ingest-Keeps key frames))

  without-Keeps :
      (m : Action (Option FinalTagIngestionResult))
      → Keeps AllJustified m
      → Keeps AllJustified (without_capture cycle m)
  without-Keeps m h w p = elim (Option-cases cycle.capture_service) [
    | inl e ↦ rw (e) (h w p)
    | inr (capture, e) ↦ rw (e) p
  ]

  once-Keeps : IsWired cycle.env cycle.device.code → Keeps AllJustified (run_once cycle)
  unfolding run_once send_heartbeat
  once-Keeps wired = bind-Keeps AllJustified _ _ healthy-Keeps (λ _.
      bind-Keeps AllJustified _ _
        (λ w. perform-Keeps cycle.env cycle.device.code wired (heartbeat w.runtime) (λ db. tt) w)
        (λ _. bind-Keeps AllJustified _ _ (without-Keeps _ poll_tags-Keeps) (λ polled.
          bind-Keeps AllJustified _ _ (asked-Keeps cycle.commands) (λ payloads.
            bind-Keeps AllJustified (poll_commands cycle.env payloads) _
              (poll-delivered cycle.env cycle.device.code wired payloads)
              (λ results.
                bind-Keeps AllJustified _ _ (without-Keeps _ pending-Keeps)
                  (λ pending. bind-Keeps AllJustified _ _ healthy-Keeps (λ _ w p. p)))))))

  -- If the worker's barrier is the hook before a success acknowledgement, then in any number of rounds
  -- of the worker, from one in which nothing has been told yet, Odoo is told that a STOP is done only
  -- when the final events of that session and reader have been sent, whatever commands come, whatever
  -- frames the reader returns, and whichever calls fail.
  pub rounds-delivered :
      IsWired cycle.env cycle.device.code
      → (n : ℕ) (w : World) → AllJustified w.trace
      → AllJustified (after_rounds cycle n w).trace
  unfolding after_rounds
  rounds-delivered wired zero w p = p
  rounds-delivered wired (suc n) w p =
      rounds-delivered wired n (run_once cycle w).1 (once-Keeps wired w p)
