-- ===== src/Orchestrator/Ends.antt =====
-- The ends of a command: what `process_command` returns, and what raises out of it.
use rfid.Prelude.{
  ◌≡◌, ◌≢◌, ◌⊎◌, refl, sym, ap, ◌∙◌, subst, inl, inr, true, false, String, string_eq, arith,
  Bool-cases,
}
use rfid.Result.{Result, ok, err, Result-cases, >>=-eq-ok}
use rfid.Runtime.{
  RuntimeCommand, start, stop, abort, command_eq, OdooRfidCommand, LocalReaderRuntime, plan_command,
  mark_reader_started, mark_reader_stopped, mark_command_completed, executed, no_error_message,
  conclude, conclude-executed, Planned, plan_command-Planned, is_completed,
}
use rfid.Session.{synchronize_start_command}
use rfid.Orchestrator.Actions.{Failure, runtime_state, World, Environment}
use rfid.Orchestrator.Execute.{
  CommandExecutionResult, assign_runtime, begin_reading, execute_start, stop_reader, execute_stop,
  is_final_session_error, pass_session_error, stop_or_verify, abort_reader, execute_abort,
}
use rfid.Orchestrator.Commands.{reject_command, resend_completed_ack, execute, process_command}
use rfid.Orchestrator.Triples.{
  Pred, Post, Raising, Triple, bind-Triple, try_except-Triple, ignoring-Triple, perform-Triple,
  hook-Triple, session_call-Triple, set_runtime-Triple,
}
use rfid.Orchestrator.Outcomes.{
  Settled, BlankRaise, sync_raises, begin_raises, stop_raises, abort_raises, At, Escape,
  acknowledge-Triple, completed-Triple, failed-Triple, start_failed-Triple,
}

module _ (env : Environment) (c : OdooRfidCommand) where
  abbrev Esc : Failure → Pred
  Esc = Escape env c

  begin_reading-Triple :
      (p s : LocalReaderRuntime)
      → At c p
      → At c s
      → mark_reader_started p ≡ ok s
      → Triple (λ t. t ≡ p) (λ _ t. t ≡ s) (Raising (At c)) (begin_reading env c)
  unfolding begin_reading
  begin_reading-Triple p s ap_ as_ h =
      bind-Triple (λ t. t ≡ p) (λ _ t. t ≡ p) (λ _ t. t ≡ s) (Raising (At c)) _ _
        (perform-Triple (λ t. t ≡ p) (At c) (λ t e. subst (At c) (sym e) ap_) env _)
        (λ _.
          bind-Triple (λ t. t ≡ p) (λ _ t. t ≡ s) (λ _ t. t ≡ s) (Raising (At c)) _ _
            (set_runtime-Triple (λ t. t ≡ p) (λ t. t ≡ s) (Raising (At c)) _
              (λ t e. (s, ap mark_reader_started e ∙ h, refl)))
            (λ _. hook-Triple (λ t. t ≡ s) (At c) (λ t e. subst (At c) (sym e) as_) env _ _))

  started-At : (p s : LocalReaderRuntime) → mark_reader_started p ≡ ok s → At c p → At c s
  unfolding mark_reader_started
  started-At p s h a = ground arith

  stopped-At : (p s : LocalReaderRuntime) → mark_reader_stopped p ≡ ok s → At c p → At c s
  unfolding mark_reader_stopped
  stopped-At p s h a = ground arith

  assign-Triple :
      (P : Pred) (p : LocalReaderRuntime) → Triple P (λ _ t. t ≡ p) Esc (assign_runtime p)
  assign-Triple P p w q = refl

  -- A planned runtime that the two transitions behind the work lead to the end of the command.
  start-Triple :
      (r p s : LocalReaderRuntime)
      → At c p
      → mark_reader_started p ≡ ok s
      → mark_command_completed s c ≡ ok (executed r c)
      → Triple (λ _. Unit {0}) (Settled r c) Esc (execute_start env c p)
  unfolding execute_start
  start-Triple r p s a h e =
      let same : (t : LocalReaderRuntime) → t ≡ p → At c t = λ t q. subst (At c) (sym q) a in
      bind-Triple (λ _. Unit {0}) (λ _ t. t ≡ p) (Settled r c) Esc _ _ (assign-Triple _ p)
        (λ _.
          try_except-Triple (λ t. t ≡ p) (λ _ t. t ≡ p) (At c) (Settled r c) Esc _ _ _
            (session_call-Triple (λ t. t ≡ p) (At c) same (synchronize_start_command c))
            (λ f raised. start_failed-Triple env c r false f (sync_raises raised))
            (λ sync.
              try_except-Triple (λ t. t ≡ p) (λ _ t. t ≡ s) (At c) (Settled r c) Esc _ _ _
                (begin_reading-Triple p s a (started-At p s h a) h)
                (λ f raised. start_failed-Triple env c r sync.created f (begin_raises raised))
                (λ _. completed-Triple env c r s _ _ e)))

  stop_reader-Triple :
      (p s : LocalReaderRuntime)
      → At c p
      → mark_reader_stopped p ≡ ok s
      → Triple (λ t. t ≡ p) (λ _ t. t ≡ s) (Raising (At c)) (stop_reader env c)
  unfolding stop_reader
  stop_reader-Triple p s a h =
      let at_p : (t : LocalReaderRuntime) → t ≡ p → At c t = λ t q. subst (At c) (sym q) a in
      let at_s : (t : LocalReaderRuntime) → t ≡ s → At c t =
        λ t q. subst (At c) (sym q) (stopped-At p s h a) in
      bind-Triple (λ t. t ≡ p) (λ _ t. t ≡ p) (λ _ t. t ≡ s) (Raising (At c)) _ _
        (hook-Triple (λ t. t ≡ p) (At c) at_p env _ _)
        (λ _.
          bind-Triple (λ t. t ≡ p) (λ _ t. t ≡ p) (λ _ t. t ≡ s) (Raising (At c)) _ _
            (perform-Triple (λ t. t ≡ p) (At c) at_p env _)
            (λ _.
              bind-Triple (λ t. t ≡ p) (λ _ t. t ≡ s) (λ _ t. t ≡ s) (Raising (At c)) _ _
                (set_runtime-Triple (λ t. t ≡ p) (λ t. t ≡ s) (Raising (At c)) _
                  (λ t q. (s, ap mark_reader_stopped q ∙ h, refl)))
                (λ _.
                  bind-Triple (λ t. t ≡ s) (λ _ t. t ≡ s) (λ _ t. t ≡ s) (Raising (At c)) _ _
                    (hook-Triple (λ t. t ≡ s) (At c) at_s env _ _)
                    (λ _.
                      bind-Triple (λ t. t ≡ s) (λ _ t. t ≡ s) (λ _ t. t ≡ s) (Raising (At c)) _ _
                        (session_call-Triple (λ t. t ≡ s) (At c) at_s _) (λ _ w q. q)))))

  stop-Triple :
      (r p s : LocalReaderRuntime)
      → At c p
      → mark_reader_stopped p ≡ ok s
      → mark_command_completed s c ≡ ok (executed r c)
      → Triple (λ _. Unit {0}) (Settled r c) Esc (execute_stop env c p)
  unfolding execute_stop
  stop-Triple r p s a h e =
      bind-Triple (λ _. Unit {0}) (λ _ t. t ≡ p) (Settled r c) Esc _ _ (assign-Triple _ p)
        (λ _.
          try_except-Triple (λ t. t ≡ p) (λ _ t. t ≡ s) (At c) (Settled r c) Esc _ _ _
            (stop_reader-Triple p s a h)
            (λ f raised.
              failed-Triple env c r true (env.text f) (λ blank. (f, stop_raises raised, blank)))
            (λ _. completed-Triple env c r s _ _ e))

  stop_or_verify-Triple :
      (p : LocalReaderRuntime)
      → At c p
      → Triple (λ t. t ≡ p) (λ _ t. t ≡ p) (Raising (At c)) (stop_or_verify env c)
  unfolding stop_or_verify
  stop_or_verify-Triple p a w q =
      perform-Triple (λ t. t ≡ p) (At c) (λ t q. subst (At c) (sym q) a) env _ w q

  pass-Triple :
      (s : LocalReaderRuntime)
      → At c s
      → (f : Failure) → Triple (λ t. t ≡ s) (λ _ t. t ≡ s) (Raising (At c)) (pass_session_error f)
  pass-Triple s a f w q = elim (Bool-cases (is_final_session_error f)) [
    | inl h ↦ rw (h) q
    | inr h ↦ rw (h) (subst (At c) (sym q) a)
  ]

  abort_reader-Triple :
      (p s : LocalReaderRuntime)
      → At c p
      → mark_reader_stopped p ≡ ok s
      → Triple (λ t. t ≡ p) (λ _ t. t ≡ s) (Raising (At c)) (abort_reader env c)
  unfolding abort_reader
  abort_reader-Triple p s a h =
      let a' = stopped-At p s h a in
      bind-Triple (λ t. t ≡ p) (λ _ t. t ≡ p) (λ _ t. t ≡ s) (Raising (At c)) _ _
        (hook-Triple (λ t. t ≡ p) (At c) (λ t q. subst (At c) (sym q) a) env _ _)
        (λ _.
          bind-Triple (λ t. t ≡ p) (λ _ t. t ≡ p) (λ _ t. t ≡ s) (Raising (At c)) _ _
            (stop_or_verify-Triple p a)
            (λ _.
              bind-Triple (λ t. t ≡ p) (λ _ t. t ≡ s) (λ _ t. t ≡ s) (Raising (At c)) _ _
                (set_runtime-Triple (λ t. t ≡ p) (λ t. t ≡ s) (Raising (At c)) _
                  (λ t q. (s, ap mark_reader_stopped q ∙ h, refl)))
                (λ _.
                  bind-Triple (λ t. t ≡ s) (λ _ t. t ≡ s) (λ _ t. t ≡ s) (Raising (At c)) _ _
                    (hook-Triple (λ t. t ≡ s) (At c) (λ t q. subst (At c) (sym q) a') env _ _)
                    (λ _.
                      try_except-Triple (λ t. t ≡ s) (λ _ t. t ≡ s) (λ t. t ≡ s) (λ _ t. t ≡ s)
                        (Raising (At c)) _ _ _
                        (session_call-Triple (λ t. t ≡ s) (λ t. t ≡ s) (λ t q. q) _)
                        (λ f raised. pass-Triple s a' f) (λ _ w q. q)))))

  abort-Triple :
      (r p s : LocalReaderRuntime)
      → At c p
      → mark_reader_stopped p ≡ ok s
      → mark_command_completed s c ≡ ok (executed r c)
      → Triple (λ _. Unit {0}) (Settled r c) Esc (execute_abort env c p)
  unfolding execute_abort
  abort-Triple r p s a h e =
      bind-Triple (λ _. Unit {0}) (λ _ t. t ≡ p) (Settled r c) Esc _ _ (assign-Triple _ p)
        (λ _.
          try_except-Triple (λ t. t ≡ p) (λ _ t. t ≡ s) (At c) (Settled r c) Esc _ _ _
            (abort_reader-Triple p s a h)
            (λ f raised.
              failed-Triple env c r false (env.text f) (λ blank. (f, abort_raises raised, blank)))
            (λ _. completed-Triple env c r s _ _ e))

  execute-Triple :
      (command : RuntimeCommand) (r p s : LocalReaderRuntime)
      → At c p
      → conclude command p ≡ ok s
      → mark_command_completed s c ≡ ok (executed r c)
      → Triple (λ _. Unit {0}) (Settled r c) Esc (execute command env c p)
  execute-Triple start = start-Triple
  execute-Triple stop = stop-Triple
  execute-Triple abort = abort-Triple

  new-Triple :
      (r p : LocalReaderRuntime)
      → c.session_key ≢ ""
      → Planned r c p
      → Triple (λ _. Unit {0}) (Settled r c) Esc (execute c.command env c p)
  new-Triple r p key planned =
      let (s, h, e) =
        >>=-eq-ok (conclude c.command p) (λ t. mark_command_completed t c)
          (conclude-executed r p c planned key) in
      execute-Triple c.command r p s planned.revision h e

  reject-Triple :
      (r : LocalReaderRuntime) (message : String)
      → Triple (λ t. t ≡ r) (Settled r c) Esc (reject_command env c message)
  unfolding reject_command
  reject-Triple r message =
      bind-Triple (λ t. t ≡ r) (λ _ t. t ≡ r) (Settled r c) Esc _ _
        (ignoring-Triple (λ t. t ≡ r) Esc _
          (perform-Triple (λ t. t ≡ r) (λ t. t ≡ r) (λ t q. q) env _))
        (λ _ w q. record { current = refl; outcome = inl q; succeeded = λ h. cc })

  resend-Triple :
      (r : LocalReaderRuntime)
      → is_completed r c ≡ true
      → Triple (λ t. t ≡ r) (Settled r c) Esc (resend_completed_ack env c)
  unfolding resend_completed_ack
  resend-Triple r h =
      acknowledge-Triple env c r r _ _
        (λ res e. record { current = e; outcome = inl refl; succeeded = λ _. inr (refl, h) })

  process-Post :
      (w : World) → c.session_key ≢ "" → Post (Settled w.runtime c) Esc (process_command env c w)
  unfolding process_command
  process-Post w key = elim (Result-cases (plan_command w.runtime c)) [
    | inr (x, h) ↦ rw (h) (reject-Triple w.runtime _ w refl)
    | inl (t, h) ↦ elim (plan_command-Planned w.runtime c h) [
      | inl (d, same, done) ↦ rw (h, d) (resend-Triple w.runtime done w refl)
      | inr (d, planned) ↦ rw (h, d) (new-Triple w.runtime t.after key planned w tt)
    ]
  ]

  -- How processing a command ends.
  abbrev Ends : LocalReaderRuntime → Result Failure CommandExecutionResult × World → Type 0
  Ends r out =
      ((res : CommandExecutionResult) × (out.0 ≡ ok res) × Settled r c res out.1.runtime)
      ⊎ ((out.0 ≡ err (runtime_state no_error_message)) × BlankRaise env c × At c out.1.runtime)

  ended :
      (r : LocalReaderRuntime) (out : Result Failure CommandExecutionResult × World)
      → Post (Settled r c) Esc out
      → Ends r out
  ended r (ok res, w) p = inl (res, refl, p)
  ended r (err f, w) (same, blank, a) = inr (ap err same, blank, a)

  -- If the command has a session key, then processing it returns, however the reader, the hooks, Odoo
  -- and the database answer, unless the work of the command, that is the opening of its session and
  -- the start, stop or abortion of the reading, may raise an exception with a blank text. It returns
  -- the runtime that is then current, which is the one before, the one that has executed the command,
  -- or a degraded one with the revision of the command; and the result is a success only if the
  -- command has been executed now, or was the completed one before. Where the work may raise an
  -- exception with a blank text, processing may also raise, and then only that the runtime refuses a
  -- blank message, with the revision of the command in the runtime.
  pub process-Settled :
      (w : World)
      → c.session_key ≢ ""
      → ((res : CommandExecutionResult) × ((process_command env c w).0 ≡ ok res)
          × Settled w.runtime c res (process_command env c w).1.runtime)
        ⊎ (((process_command env c w).0 ≡ err (runtime_state no_error_message))
            × BlankRaise env c
            × At c (process_command env c w).1.runtime)
  process-Settled w key = ended w.runtime (process_command env c w) (process-Post w key)
