-- ===== src/Orchestrator/Triples.antt =====
-- What an action makes of the runtime, by pre- and postconditions, composed as the actions are.
use rfid.Prelude.{◌≡◌, refl, Bool, true, false}
use rfid.Result.{Result, ok, err}
use rfid.Models.{Database, Exception}
use rfid.Models.Orm.{Transaction}
use rfid.Runtime.{LocalReaderRuntime, RuntimeStateError}
use rfid.Orchestrator.Actions.{
  Failure, Call, World, Environment, Action, and_then, ◌>>=◌, handled, try_except, caught, ignoring,
  perform, recorded, hook, in_session, session_call, set_runtime,
}

abbrev pub Pred : Type 1
Pred = LocalReaderRuntime → Type 0

-- The condition on the runtime that holds after a value, and the one after an exception.
abbrev pub Post : {A : Type 0} → (A → Pred) → (Failure → Pred) → Result Failure A × World → Type 0
Post Q E (ok a, w) = Q a w.runtime
Post Q E (err f, w) = E f w.runtime

-- Whatever the exception is.
abbrev pub Raising : Pred → Failure → Pred
Raising E f = E

-- From a runtime that satisfies the precondition, an action ends in its postcondition.
abbrev pub Triple : {A : Type 0} → Pred → (A → Pred) → (Failure → Pred) → Action A → Type 0
Triple P Q E m = (w : World) → P w.runtime → Post Q E (m w)

and_then-Post :
    {A B : Type 0} (Q : A → Pred) (R : B → Pred) (E : Failure → Pred) (k : A → Action B)
    (r : Result Failure A × World)
    → ((a : A) → Triple (Q a) R E (k a))
    → Post Q E r
    → Post R E (and_then k r)
unfolding and_then
and_then-Post Q R E k (ok a, w) h p = h a w p
and_then-Post Q R E k (err f, w) h p = p

pub bind-Triple :
    {A B : Type 0} (P : Pred) (Q : A → Pred) (R : B → Pred) (E : Failure → Pred) (m : Action A)
    (k : A → Action B)
    → Triple P Q E m
    → ((a : A) → Triple (Q a) R E (k a))
    → Triple P R E (m >>= k)
bind-Triple P Q R E m k hm hk w p = and_then-Post Q R E k (m w) hk (hm w p)

-- Somewhere the action raises the exception.
abbrev pub Raises : {A : Type 0} → Action A → Failure → Type 0
Raises m f = (w : World) × (w' : World) × (m w ≡ (err f, w'))

handled-Post :
    {A B : Type 0} (Q : A → Pred) (F : Pred) (R : B → Pred) (E : Failure → Pred) (m : Action A)
    (on_error : Failure → Action B) (k : A → Action B) (w : World) (r : Result Failure A × World)
    → m w ≡ r
    → ((f : Failure) → Raises m f → Triple F R E (on_error f))
    → ((a : A) → Triple (Q a) R E (k a))
    → Post Q (Raising F) r
    → Post R E (handled on_error k r)
unfolding handled
handled-Post Q F R E m on_error k w (ok a, w') same he hk p = hk a w' p
handled-Post Q F R E m on_error k w (err f, w') same he hk p = he f (w, w', same) w' p

pub try_except-Triple :
    {A B : Type 0} (P : Pred) (Q : A → Pred) (F : Pred) (R : B → Pred) (E : Failure → Pred)
    (m : Action A) (on_error : Failure → Action B) (k : A → Action B)
    → Triple P Q (Raising F) m
    → ((f : Failure) → Raises m f → Triple F R E (on_error f))
    → ((a : A) → Triple (Q a) R E (k a))
    → Triple P R E (try_except m on_error k)
try_except-Triple P Q F R E m on_error k hm he hk w p =
    handled-Post Q F R E m on_error k w (m w) refl he hk (hm w p)

-- What is caught leaves the runtime as it is, if the action does.
pub caught-Triple :
    {A : Type 0} (P : Pred) (E : Failure → Pred) (m : Action A)
    → Triple P (λ _. P) (Raising P) m
    → Triple P (λ _. P) E (caught m)
caught-Triple P E m h =
    try_except-Triple P (λ _. P) P (λ _. P) E m _ _ h (λ f raised w p. p) (λ a w p. p)

pub ignoring-Triple :
    {A : Type 0} (P : Pred) (E : Failure → Pred) (m : Action A)
    → Triple P (λ _. P) (Raising P) m
    → Triple P (λ _. P) E (ignoring m)
ignoring-Triple P E m h =
    try_except-Triple P (λ _. P) P (λ _. P) E m _ _ h (λ f raised w p. p) (λ a w p. p)

module _ (P E : Pred) (weaker : (r : LocalReaderRuntime) → P r → E r) where
  recorded-Post :
      (w : World) (c : Call) (r : Result Failure Bool × Database)
      → P w.runtime
      → Post (λ _. P) (Raising E) (recorded w c r)
  recorded-Post w c (ok b, db) p = p
  recorded-Post w c (err f, db) p = weaker w.runtime p

  -- Calls of other objects leave the runtime alone.
  pub perform-Triple :
      (env : Environment) (c : Call) → Triple P (λ _. P) (Raising E) (perform env c)
  unfolding perform
  perform-Triple env c w p = recorded-Post w c (env.respond w.trace w.db c) p

  pub hook-Triple :
      (env : Environment) (given : Bool) (c : Call)
      → Triple P (λ _. P) (Raising E) (hook env given c)
  unfolding hook
  hook-Triple env false c w p = p
  hook-Triple env true c w p =
      bind-Triple P (λ _. P) (λ _. P) (Raising E) (perform env c) _ (perform-Triple env c)
        (λ _ v q. q) w p

  in_session-Post :
      {A : Type 0} (w : World) (r : Result Exception (A × Database))
      → P w.runtime
      → Post (λ _. P) (Raising E) (in_session w r)
  in_session-Post w (ok (a, db)) p = p
  in_session-Post w (err e) p = weaker w.runtime p

  pub session_call-Triple :
      {A : Type 0} (t : Transaction A) → Triple P (λ _. P) (Raising E) (session_call t)
  unfolding session_call
  session_call-Triple t w p = in_session-Post w (t w.db) p

-- A transition of the runtime that cannot raise.
pub set_runtime-Triple :
    (P Q : Pred) (E : Failure → Pred)
    (mark : LocalReaderRuntime → Result RuntimeStateError LocalReaderRuntime)
    → ((r : LocalReaderRuntime) → P r → (r' : LocalReaderRuntime) × (mark r ≡ ok r') × Q r')
    → Triple P (λ _. Q) E (set_runtime mark)
unfolding set_runtime
set_runtime-Triple P Q E mark h w p = let (r', e, q) = h w.runtime p in rw e q
