-- ===== src/Orchestrator/Outcomes.antt =====
-- What a command makes of the runtime, and the ends that commands share: the acknowledgement, and the
-- handlers of exceptions.
use rfid.Prelude.{
  ◌≡◌, ◌≢◌, ◌⊎◌, refl, sym, ap, ◌∙◌, subst, inl, inr, Bool, true, false, String, ◌==◌, string_eq,
  Bool-cases, Option, some, none, if◌then◌else◌,
}
use rfid.Prelude.Text.{strip, join}
use rfid.Prelude.Blank.{strip-join}
use rfid.Result.{ok}
use rfid.Runtime.{
  degraded, command_eq, OdooRfidCommand, LocalReaderRuntime, mark_command_completed, mark_degraded,
  no_error_message, executed, is_completed,
}
use text.Mathlib.TextEquality.{eq_iff}
use rfid.Session.{cancel_local_session, synchronize_start_command}
use rfid.Orchestrator.Actions.{
  Failure, runtime_state, Environment, pure, set_runtime, perform, session_call, ignoring,
}
use rfid.Orchestrator.Execute.{
  CommandExecutionResult, begin_reading, stop_reader, abort_reader, ack_of, require_accepted,
  send_completed_success_ack, acknowledge, completed, emergency_stop, stop_if_active, cleanup_if,
  with_error, start_error_message, failed, start_failed,
}
use rfid.Orchestrator.Triples.{
  Pred, Raising, Raises, Triple, bind-Triple, try_except-Triple, caught-Triple, ignoring-Triple,
  perform-Triple, hook-Triple, session_call-Triple, set_runtime-Triple,
}

-- What a command makes of the runtime `r`, with the result that it returns.
pub record Settled (r : LocalReaderRuntime) (c : OdooRfidCommand) (res : CommandExecutionResult)
    (r' : LocalReaderRuntime) : Type 0 where
  pub current : res.runtime ≡ r'
  pub outcome :
      (r' ≡ r)
      ⊎ (r' ≡ executed r c)
      ⊎ ((r'.state ≡ degraded) × (r'.last_command_revision ≡ c.revision))
  pub succeeded : res.success ≡ true → (r' ≡ executed r c) ⊎ ((r' ≡ r) × (is_completed r c ≡ true))

-- The exception is one that the work of the command may raise: the opening of its session, the start of
-- the reader, the end of a reading, or its abortion.
pub data WorkRaises (env : Environment) (c : OdooRfidCommand) (f : Failure) : Type 0 where
  sync_raises : Raises (session_call (synchronize_start_command c)) f → WorkRaises env c f
  begin_raises : Raises (begin_reading env c) f → WorkRaises env c f
  stop_raises : Raises (stop_reader env c) f → WorkRaises env c f
  abort_raises : Raises (abort_reader env c) f → WorkRaises env c f

-- And its text is blank.
abbrev pub BlankRaise : Environment → OdooRfidCommand → Type 0
BlankRaise env c = (f : Failure) × WorkRaises env c f × (strip (env.text f) ≡ "")

-- The revision of the command is the runtime's.
abbrev pub At : OdooRfidCommand → Pred
At c r = r.last_command_revision ≡ c.revision

-- What a command may raise: that the runtime refuses a blank message, with the runtime that the
-- handler has found.
abbrev pub Escape : Environment → OdooRfidCommand → Failure → Pred
Escape env c f r = (f ≡ runtime_state no_error_message) × BlankRaise env c × At c r

module _ (env : Environment) (c : OdooRfidCommand) where
  abbrev Esc : Failure → Pred
  Esc = Escape env c

  accepted-Triple : (P : Pred) (b : Bool) → Triple P (λ _. P) (Raising P) (require_accepted b)
  accepted-Triple P true w p = p
  accepted-Triple P false w p = p

  send-Triple : (P : Pred) → Triple P (λ _. P) (Raising P) (send_completed_success_ack env c)
  unfolding send_completed_success_ack
  send-Triple P =
      bind-Triple P (λ _. P) (λ _. P) (Raising P) _ _ (hook-Triple P P (λ r p. p) env _ _)
        (λ _.
          bind-Triple P (λ _. P) (λ _. P) (Raising P) _ _ (perform-Triple P P (λ r p. p) env _)
            (accepted-Triple P))

  -- Whether the acknowledgement succeeds or not, the runtime stays, and the result shows it.
  pub acknowledge-Triple :
      (r r' : LocalReaderRuntime) (pending done : String)
      → ((res : CommandExecutionResult) → res.runtime ≡ r' → Settled r c res r')
      → Triple (λ s. s ≡ r') (Settled r c) Esc (acknowledge env c pending done)
  unfolding acknowledge
  acknowledge-Triple r r' pending done h =
      try_except-Triple _ (λ _ s. s ≡ r') (λ s. s ≡ r') (Settled r c) Esc _ _ _
        (send-Triple (λ s. s ≡ r')) (λ f raised w e. subst (Settled r c _) (sym e) (h _ e))
        (λ _ w e. subst (Settled r c _) (sym e) (h _ e))

  -- The end of a command that has been planned as new.
  pub completed-Triple :
      (r s : LocalReaderRuntime) (pending done : String)
      → mark_command_completed s c ≡ ok (executed r c)
      → Triple (λ t. t ≡ s) (Settled r c) Esc (completed env c pending done)
  unfolding completed
  completed-Triple r s pending done h =
      bind-Triple (λ t. t ≡ s) (λ _ t. t ≡ executed r c) (Settled r c) Esc _ _
        (set_runtime-Triple (λ t. t ≡ s) (λ t. t ≡ executed r c) Esc _
          (λ t e. (executed r c, ap (λ t. mark_command_completed t c) e ∙ h, refl)))
        (λ _.
          acknowledge-Triple r (executed r c) pending done
            (λ res e. record { current = e; outcome = inr (inl refl); succeeded = λ _. inl refl }))

  -- The runtime is degraded, unless the message is blank.
  mark_degraded-Triple :
      (message : String)
      → (strip message ≡ "" → BlankRaise env c)
      → Triple
          (At c)
          (λ _ t. (t.state ≡ degraded) × (t.last_command_revision ≡ c.revision))
          Esc
          (set_runtime (λ t. mark_degraded t message))
  unfolding set_runtime mark_degraded
  mark_degraded-Triple message blank w a = elim (Bool-cases (strip message == "")) [
    | inl h ↦ rw (h) (refl, blank ((eq_iff (strip message) "").0 h), a)
    | inr h ↦ rw (h) (refl, a)
  ]

  tell-Triple :
      (P : Pred) (tell : Bool) (message : String)
      → Triple P
          (λ _. P)
          Esc
          (if tell then ignoring (perform env (ack_of c false message)) else pure tt)
  tell-Triple P true message =
      ignoring-Triple P Esc _ (perform-Triple P P (λ r p. p) env (ack_of c false message))
  tell-Triple P false message = λ w p. p

  pub failed-Triple :
      (r : LocalReaderRuntime) (tell : Bool) (message : String)
      → (strip message ≡ "" → BlankRaise env c)
      → Triple (At c) (Settled r c) Esc (failed env c tell message)
  unfolding failed
  failed-Triple r tell message blank =
      let Ended : Pred = λ t. (t.state ≡ degraded) × (t.last_command_revision ≡ c.revision) in
      bind-Triple (At c) (λ _. Ended) (Settled r c) Esc _ _ (mark_degraded-Triple message blank)
        (λ _.
          bind-Triple Ended (λ _. Ended) (Settled r c) Esc _ _ (tell-Triple Ended tell message)
            (λ _ w e. record { current = refl; outcome = inr (inr e); succeeded = λ h. cc }))

  emergency_stop-Triple : Triple (At c) (λ _. At c) (Raising (At c)) (emergency_stop env c)
  unfolding emergency_stop
  emergency_stop-Triple =
      bind-Triple (At c) (λ _. At c) (λ _. At c) (Raising (At c)) _ _
        (hook-Triple (At c) (At c) (λ r p. p) env _ _)
        (λ _.
          bind-Triple (At c) (λ _. At c) (λ _. At c) (Raising (At c)) _ _
            (perform-Triple (At c) (At c) (λ r p. p) env _)
            (λ _. hook-Triple (At c) (At c) (λ r p. p) env _ _))

  stop_if_active-Triple : Triple (At c) (λ _. At c) Esc (stop_if_active env c)
  stop_if_active-Triple w p = elim (Bool-cases (env.is_active w.trace)) [
    | inl h ↦ rw (h) (caught-Triple (At c) Esc (emergency_stop env c) emergency_stop-Triple w p)
    | inr h ↦ rw (h) p
  ]

  cleanup-Triple : (created : Bool) → Triple (At c) (λ _. At c) Esc (cleanup_if created c)
  cleanup-Triple true w p =
      let cancel = cancel_local_session c.session_key c.reader_code in
      caught-Triple (At c) Esc (session_call cancel)
        (session_call-Triple (At c) (At c) (λ r q. q) cancel) w p
  cleanup-Triple false w p = p

  with_error-text :
      (note : String) (f : Option Failure) (message : String)
      → strip message ≢ ""
      → strip (with_error env note f message) ≢ ""
  with_error-text note none message n = n
  with_error-text note (some f) message n = strip-join message (join note (env.text f)) n

  -- The message about a failed START is blank only if the text of the exception is.
  start_error-text :
      (f : Failure) (stop_error cleanup_error : Option Failure)
      → WorkRaises env c f
      → strip (start_error_message env f stop_error cleanup_error) ≡ ""
      → BlankRaise env c
  unfolding start_error_message
  start_error-text f stop_error cleanup_error raised blank =
      elim (Bool-cases (strip (env.text f) == "")) [
        | inl h ↦ (f, raised, (eq_iff (strip (env.text f)) "").0 h)
        | inr h ↦ absurd (
            with_error-text _ cleanup_error _
              (with_error-text _ stop_error _
                (λ e. let t = (eq_iff (strip (env.text f)) "").1 e in cc))
              blank)
      ]

  pub start_failed-Triple :
      (r : LocalReaderRuntime) (created : Bool) (f : Failure)
      → WorkRaises env c f
      → Triple (At c) (Settled r c) Esc (start_failed env c created f)
  unfolding start_failed
  start_failed-Triple r created f raised =
      bind-Triple (At c) (λ _. At c) (Settled r c) Esc _ _ stop_if_active-Triple
        (λ s.
          bind-Triple (At c) (λ _. At c) (Settled r c) Esc _ _ (cleanup-Triple created)
            (λ u.
              failed-Triple r true (start_error_message env f s u) (start_error-text f s u raised)))
