-- ===== src/Worker/Delivered.antt =====
-- A STOP is acknowledged as done only when the events of its session have been delivered.
use rfid.Prelude.{
  inl, inr, Bool, true, false, String, List, [], ◌∷◌, ◌==◌, string_eq, Bool-cases, Option,
}
use rfid.Result.{Result-cases}
use rfid.Models.{Database}
use rfid.Runtime.{
  RuntimeCommand, start, stop, abort, command_eq, OdooRfidCommand, CommandPayload, from_payload,
  plan_command, LocalReaderRuntime,
}
use rfid.Session.{cancel_local_session}
use rfid.Orchestrator.{
  Failure, Call, reader_start, reader_stop, World, Environment, Action, perform, hook, session_call,
  ack_of, process_if_mine, parsed, poll_commands, is_final_session_error, CommandExecutionResult,
  verify_idle, acknowledge, completed, begin_reading, emergency_stop, stop_if_active, cleanup_if,
  failed, start_failed, execute_start, stop_reader, execute_stop, stop_or_verify, abort_reader,
  pass_session_error, execute_abort, reject_command, resend_completed_ack, process_command, execute,
  Keeps, bind-Keeps, try_except-Keeps, caught-Keeps, ignoring-Keeps, session_call-Keeps,
  set_runtime-Keeps, hook-Keeps,
}
use rfid.Worker.Barrier.{Justified, AllJustified, IsWired, perform-Keeps, send-Keeps}

module _ (env : Environment) (device_code : String) (wired : IsWired env device_code) where
  hooked :
      (given : Bool) (call : Call)
      → ((db : Database) → Justified call db)
      → Keeps AllJustified (hook env given call)
  hooked given call j =
      hook-Keeps AllJustified env given call (perform-Keeps env device_code wired call j)

  acknowledge-Keeps :
      (c : OdooRfidCommand) (pending done : String)
      → Keeps AllJustified (acknowledge env c pending done)
  unfolding acknowledge
  acknowledge-Keeps c pending done =
      try_except-Keeps AllJustified _ _ _ (send-Keeps env device_code wired c) (λ f w p. p)
        (λ a w p. p)

  completed-Keeps :
      (c : OdooRfidCommand) (pending done : String)
      → Keeps AllJustified (completed env c pending done)
  unfolding completed
  completed-Keeps c pending done =
      bind-Keeps AllJustified _ _ (set_runtime-Keeps AllJustified _)
        (λ _. acknowledge-Keeps c pending done)

  tell-Keeps :
      (c : OdooRfidCommand) (message : String)
      → Keeps AllJustified (perform env (ack_of c false message))
  tell-Keeps c message = perform-Keeps env device_code wired (ack_of c false message) (λ db s t. cc)

  failed-Keeps :
      (c : OdooRfidCommand) (tell : Bool) (message : String)
      → Keeps AllJustified (failed env c tell message)
  unfolding failed
  failed-Keeps c true message = bind-Keeps AllJustified _ _ (set_runtime-Keeps AllJustified _) (λ _.
      bind-Keeps AllJustified _ _ (ignoring-Keeps AllJustified _ (tell-Keeps c message))
        (λ _ w p. p))
  failed-Keeps c false message =
      bind-Keeps AllJustified _ _ (set_runtime-Keeps AllJustified _)
        (λ _. bind-Keeps AllJustified _ _ (λ w p. p) (λ _ w p. p))

  begin_reading-Keeps : (c : OdooRfidCommand) → Keeps AllJustified (begin_reading env c)
  unfolding begin_reading
  begin_reading-Keeps c =
      bind-Keeps AllJustified _ _
        (perform-Keeps env device_code wired (reader_start c.session_key c.reader_code) (λ db. tt))
        (λ _.
          bind-Keeps AllJustified _ _ (set_runtime-Keeps AllJustified _)
            (λ _. hooked _ _ (λ db. tt)))

  emergency_stop-Keeps : (c : OdooRfidCommand) → Keeps AllJustified (emergency_stop env c)
  unfolding emergency_stop
  emergency_stop-Keeps c = bind-Keeps AllJustified _ _ (hooked _ _ (λ db. tt)) (λ _.
      bind-Keeps AllJustified _ _ (perform-Keeps env device_code wired _ (λ db. tt))
        (λ _. hooked _ _ (λ db. tt)))

  stop_if_active-Keeps : (c : OdooRfidCommand) → Keeps AllJustified (stop_if_active env c)
  stop_if_active-Keeps c w p = elim (Bool-cases (env.is_active w.trace)) [
    | inl h ↦ rw (h) (caught-Keeps AllJustified (emergency_stop env c) (emergency_stop-Keeps c) w p)
    | inr h ↦ rw (h) p
  ]

  cleanup_if-Keeps : (b : Bool) (c : OdooRfidCommand) → Keeps AllJustified (cleanup_if b c)
  cleanup_if-Keeps true c w p =
      let cancel = cancel_local_session c.session_key c.reader_code in
      caught-Keeps AllJustified (session_call cancel) (session_call-Keeps AllJustified cancel) w p
  cleanup_if-Keeps false c w p = p

  start_failed-Keeps :
      (c : OdooRfidCommand) (created : Bool) (f : Failure)
      → Keeps AllJustified (start_failed env c created f)
  unfolding start_failed
  start_failed-Keeps c created f =
      bind-Keeps AllJustified _ _ (stop_if_active-Keeps c)
        (λ _. bind-Keeps AllJustified _ _ (cleanup_if-Keeps created c) (λ _. failed-Keeps c true _))

  start-Keeps :
      (c : OdooRfidCommand) (planned : LocalReaderRuntime)
      → Keeps AllJustified (execute_start env c planned)
  unfolding execute_start
  start-Keeps c planned =
      bind-Keeps AllJustified _ _ (λ w p. p)
        (λ _.
          try_except-Keeps AllJustified _ _ _ (session_call-Keeps AllJustified _)
            (λ f. start_failed-Keeps c false f)
            (λ sync.
              try_except-Keeps AllJustified _ _ _ (begin_reading-Keeps c)
                (λ f. start_failed-Keeps c sync.created f) (λ _. completed-Keeps c _ _)))

  stop_reader-Keeps : (c : OdooRfidCommand) → Keeps AllJustified (stop_reader env c)
  unfolding stop_reader
  stop_reader-Keeps c = bind-Keeps AllJustified _ _ (hooked _ _ (λ db. tt)) (λ _.
      bind-Keeps AllJustified _ _ (perform-Keeps env device_code wired _ (λ db. tt)) (λ _.
        bind-Keeps AllJustified _ _ (set_runtime-Keeps AllJustified _) (λ _.
          bind-Keeps AllJustified _ _ (hooked _ _ (λ db. tt))
            (λ _. bind-Keeps AllJustified _ _ (session_call-Keeps AllJustified _) (λ _ w p. p)))))

  stop-Keeps :
      (c : OdooRfidCommand) (planned : LocalReaderRuntime)
      → Keeps AllJustified (execute_stop env c planned)
  unfolding execute_stop
  stop-Keeps c planned =
      bind-Keeps AllJustified _ _ (λ w p. p)
        (λ _.
          try_except-Keeps AllJustified _ _ _ (stop_reader-Keeps c) (λ f. failed-Keeps c true _)
            (λ _. completed-Keeps c _ _))

  stop_or_verify-Keeps : (c : OdooRfidCommand) → Keeps AllJustified (stop_or_verify env c)
  unfolding stop_or_verify
  stop_or_verify-Keeps c w p = elim (Bool-cases (env.is_active w.trace)) [
    | inl h ↦ rw (h) (
        perform-Keeps env device_code wired (reader_stop c.session_key c.reader_code) (λ db. tt) w
          p)
    | inr h ↦ rw (h) (perform-Keeps env device_code wired verify_idle (λ db. tt) w p)
  ]

  pass-Keeps : (f : Failure) → Keeps AllJustified (pass_session_error f)
  pass-Keeps f w p = elim (Bool-cases (is_final_session_error f)) [
    | inl h ↦ rw (h) p
    | inr h ↦ rw (h) p
  ]

  abort_reader-Keeps : (c : OdooRfidCommand) → Keeps AllJustified (abort_reader env c)
  unfolding abort_reader
  abort_reader-Keeps c = bind-Keeps AllJustified _ _ (hooked _ _ (λ db. tt)) (λ _.
      bind-Keeps AllJustified _ _ (stop_or_verify-Keeps c) (λ _.
        bind-Keeps AllJustified _ _ (set_runtime-Keeps AllJustified _) (λ _.
          bind-Keeps AllJustified _ _ (hooked _ _ (λ db. tt)) (λ _.
            try_except-Keeps AllJustified _ _ _ (session_call-Keeps AllJustified _)
              (λ f. pass-Keeps f) (λ _ w p. p)))))

  abort-Keeps :
      (c : OdooRfidCommand) (planned : LocalReaderRuntime)
      → Keeps AllJustified (execute_abort env c planned)
  unfolding execute_abort
  abort-Keeps c planned =
      bind-Keeps AllJustified _ _ (λ w p. p)
        (λ _.
          try_except-Keeps AllJustified _ _ _ (abort_reader-Keeps c) (λ f. failed-Keeps c false _)
            (λ _. completed-Keeps c _ _))

  execute-Keeps :
      (command : RuntimeCommand) (c : OdooRfidCommand) (planned : LocalReaderRuntime)
      → Keeps AllJustified (execute command env c planned)
  execute-Keeps start = start-Keeps
  execute-Keeps stop = stop-Keeps
  execute-Keeps abort = abort-Keeps

  reject-Keeps :
      (c : OdooRfidCommand) (message : String) → Keeps AllJustified (reject_command env c message)
  unfolding reject_command
  reject-Keeps c message =
      bind-Keeps AllJustified _ _ (ignoring-Keeps AllJustified _ (tell-Keeps c message))
        (λ _ w p. p)

  resend-Keeps : (c : OdooRfidCommand) → Keeps AllJustified (resend_completed_ack env c)
  unfolding resend_completed_ack
  resend-Keeps c = acknowledge-Keeps c _ _

  process-Keeps : (c : OdooRfidCommand) → Keeps AllJustified (process_command env c)
  unfolding process_command
  process-Keeps c w p = elim (Result-cases (plan_command w.runtime c)) [
    | inr (e, h) ↦ rw (h) (reject-Keeps c _ w p)
    | inl (t, h) ↦ elim (Bool-cases t.duplicate) [
      | inl d ↦ rw (h, d) (resend-Keeps c w p)
      | inr d ↦ rw (h, d) (execute-Keeps c.command c t.after w p)
    ]
  ]

  rest-Keeps :
      (c : OdooRfidCommand) (rest : Action (List CommandExecutionResult))
      → Keeps AllJustified rest
      → Keeps AllJustified (process_if_mine env c rest)
  rest-Keeps c rest h w p = elim (Bool-cases (c.reader_code == w.runtime.reader_code)) [
    | inl e ↦ rw (e) (
        bind-Keeps AllJustified (process_command env c) _ (process-Keeps c)
          (λ _. bind-Keeps AllJustified rest _ h (λ _ v q. q)) w p)
    | inr e ↦ rw (e) (h w p)
  ]

  parsed-Keeps : (payload : Option CommandPayload) → Keeps AllJustified (parsed payload)
  parsed-Keeps payload w p = elim (Result-cases (from_payload payload)) [
    | inl (c, h) ↦ rw (h, parsed) p
    | inr (e, h) ↦ rw (h, parsed) p
  ]

  -- If the worker's barrier is set as the hook before a success acknowledgement, and whenever Odoo
  -- was told that a STOP is done the final events of that session and reader had been sent, then this
  -- is still so after any commands that Odoo gives, however the reader, the other hooks and Odoo
  -- answer.
  pub poll-delivered :
      (payloads : List (Option CommandPayload)) (w : World)
      → AllJustified w.trace
      → AllJustified (poll_commands env payloads w).1.trace
  unfolding poll_commands
  poll-delivered [] w p = p
  poll-delivered (payload ∷ payloads) w p =
      bind-Keeps AllJustified (parsed payload)
        (λ c. process_if_mine env c (poll_commands env payloads)) (parsed-Keeps payload)
        (λ c. rest-Keeps c (poll_commands env payloads) (poll-delivered payloads)) w p
