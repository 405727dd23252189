-- ===== src/Orchestrator/Trace.antt =====
-- Properties of the trace that an action keeps, composed as the actions are.
use rfid.Prelude.{Bool, true, false, List}
use rfid.Result.{Result, ok, err}
use rfid.Models.{Database}
use rfid.Models.Orm.{Transaction}
use rfid.Runtime.{LocalReaderRuntime, RuntimeStateError}
use rfid.Orchestrator.Actions.{
  Failure, Call, Entry, World, Environment, Action, and_then, ◌>>=◌, handled, try_except, caught,
  ignoring, perform, hook, in_session, session_call, stored, set_runtime,
}

module _ (P : List Entry → Type 0) where
  -- An action keeps a property of the trace, whether it returns or raises.
  abbrev pub Keeps : {A : Type 0} → Action A → Type 0
  Keeps m = (w : World) → P w.trace → P (m w).1.trace

  pub and_then-Keeps :
      {A B : Type 0} (k : A → Action B) (r : Result Failure A × World)
      → ((a : A) → Keeps (k a))
      → P r.1.trace
      → P (and_then k r).1.trace
  unfolding and_then
  and_then-Keeps k (ok a, w) h p = h a w p
  and_then-Keeps k (err f, w) h p = p

  pub bind-Keeps :
      {A B : Type 0} (m : Action A) (k : A → Action B)
      → Keeps m
      → ((a : A) → Keeps (k a))
      → Keeps (m >>= k)
  bind-Keeps m k hm hk w p = and_then-Keeps k (m w) hk (hm w p)

  handled-Keeps :
      {A B : Type 0} (on_error : Failure → Action B) (k : A → Action B)
      (r : Result Failure A × World)
      → ((f : Failure) → Keeps (on_error f))
      → ((a : A) → Keeps (k a))
      → P r.1.trace
      → P (handled on_error k r).1.trace
  unfolding handled
  handled-Keeps on_error k (ok a, w) he hk p = hk a w p
  handled-Keeps on_error k (err f, w) he hk p = he f w p

  pub try_except-Keeps :
      {A B : Type 0} (m : Action A) (on_error : Failure → Action B) (k : A → Action B)
      → Keeps m
      → ((f : Failure) → Keeps (on_error f))
      → ((a : A) → Keeps (k a))
      → Keeps (try_except m on_error k)
  try_except-Keeps m on_error k hm he hk w p = handled-Keeps on_error k (m w) he hk (hm w p)

  pub caught-Keeps : {A : Type 0} (m : Action A) → Keeps m → Keeps (caught m)
  caught-Keeps m h = try_except-Keeps m _ _ h (λ f w p. p) (λ a w p. p)

  pub ignoring-Keeps : {A : Type 0} (m : Action A) → Keeps m → Keeps (ignoring m)
  ignoring-Keeps m h = try_except-Keeps m _ _ h (λ f w p. p) (λ a w p. p)

  in_session-Keeps :
      {A : Type 0} (w : World) (r : Result _ (A × Database))
      → P w.trace
      → P (in_session w r).1.trace
  in_session-Keeps w (ok (a, db)) p = p
  in_session-Keeps w (err e) p = p

  pub session_call-Keeps : {A : Type 0} (t : Transaction A) → Keeps (session_call t)
  unfolding session_call
  session_call-Keeps t w p = in_session-Keeps w (t w.db) p

  stored-Keeps :
      (w : World) (r : Result RuntimeStateError LocalReaderRuntime)
      → P w.trace
      → P (stored w r).1.trace
  stored-Keeps w (ok r) p = p
  stored-Keeps w (err e) p = p

  pub set_runtime-Keeps :
      (mark : LocalReaderRuntime → Result RuntimeStateError LocalReaderRuntime)
      → Keeps (set_runtime mark)
  unfolding set_runtime
  set_runtime-Keeps mark w p = stored-Keeps w (mark w.runtime) p

  pub hook-Keeps :
      (env : Environment) (given : Bool) (c : Call)
      → Keeps (perform env c)
      → Keeps (hook env given c)
  unfolding hook
  hook-Keeps env false c h w p = p
  hook-Keeps env true c h w p = bind-Keeps (perform env c) _ h (λ a w' q. q) w p
