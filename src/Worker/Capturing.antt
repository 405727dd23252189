-- ===== src/Worker/Capturing.antt =====
-- What holds of the capture service between any two steps.
use rfid.Prelude.{
  ◌≡◌, ◌≢◌, refl, sym, subst, inl, inr, Bool, true, false, Option, none, some, String, List, [],
  ◌∷◌, ◌==◌, string_eq, arith, Bool-cases,
}
use rfid.Prelude.Text.{strip}
use rfid.Result.{Result, ok, err}
use rfid.Protocol.{RfidFrame}
use rfid.Orchestrator.{Failure}
use rfid.Worker.Capture.{
  looping, polling, holding, leaving, closing, Thread, no_thread, alive, ended, Capture,
  new_capture, is_running, is_none, after_ingestion, has_key, capture_start, looped, polled,
  run_step, thread_step, stop_begin, stop_end, CaptureStep, starting, stopping, joined, running,
  capture_step, capture_steps,
}
use text.Mathlib.TextEquality.{eq_iff}

-- There is a session key, which is not empty.
abbrev pub Keyed : Option String → Type 0
Keyed none = ⊥
Keyed (some key) = key ≢ ""

-- And no error has been kept.
pub record Running (key : Option String) (error : Option Failure) : Type 0 where
  pub is_keyed : Keyed key
  pub is_well : error ≡ none

-- What holds with the thread of the service.
abbrev pub Holds : Thread → Option String → Option Failure → Type 0
Holds (alive leaving) key error = Keyed key
Holds (alive closing) key error = Keyed key
Holds (alive _) key error = Running key error
Holds no_thread key error = key ≡ none
Holds ended key error = Unit

abbrev pub IsCoherent : Capture → Type 0
IsCoherent c = Holds c.thread c.session_key c.error

none_is : (t : Thread) → is_none t ≡ true → t ≡ no_thread
none_is t h = ground arith

start-IsCoherent :
    (code : String) (active : Bool) (active_key : Option String) (session_key reader_code : String)
    (c : Capture)
    → IsCoherent c
    → IsCoherent (capture_start code active active_key session_key reader_code c).1
unfolding capture_start
start-IsCoherent code active active_key session_key reader_code c h =
    elim (Bool-cases (strip reader_code == code)) [
      | inr e ↦ rw (e) h
      | inl e ↦ elim (Bool-cases (strip session_key == "")) [
        | inl f ↦ rw (e, f) h
        | inr f ↦ elim (Bool-cases (is_running c.thread)) [
          | inl g ↦ rw (e, f, g) h
          | inr g ↦ elim (Bool-cases active) [
            | inr k ↦ rw (e, f, g, k) h
            | inl k ↦ elim (Bool-cases (has_key (strip session_key) active_key)) [
              | inr m ↦ rw (e, f, g, k, m) h
              | inl m ↦ rw (e, f, g, k, m) (record { is_keyed = key_given f; is_well = refl })
            ]
          ]
        ]
      ]
    ]
  where
    key_given : (strip session_key == "") ≡ false → strip session_key ≢ ""
    key_given f same = let t = (eq_iff (strip session_key) "").1 same in cc

looped-IsCoherent : (c : Capture) → Running c.session_key c.error → IsCoherent (looped c)
unfolding looped
looped-IsCoherent c h = elim (Bool-cases c.stop_event) [
  | inl e ↦ rw (e) h.is_keyed
  | inr e ↦ rw (e) h
]

polled-IsCoherent :
    (poll : Result Failure (List RfidFrame)) (c : Capture)
    → Running c.session_key c.error
    → IsCoherent (polled poll c)
polled-IsCoherent (err f) c h = h.is_keyed
polled-IsCoherent (ok []) c h = h
polled-IsCoherent (ok (frame ∷ frames)) c h = h

ingested-IsCoherent :
    (r : Result Failure (Unit {0})) (c : Capture)
    → Running c.session_key c.error
    → IsCoherent (after_ingestion r c)
ingested-IsCoherent (err f) c h = h.is_keyed
ingested-IsCoherent (ok u) c h = h

run-IsCoherent :
    (ingest : Option String → List RfidFrame → Result Failure (Unit {0}))
    (poll : Result Failure (List RfidFrame)) (t : Thread) (c : Capture)
    → Holds t c.session_key c.error
    → IsCoherent c
    → IsCoherent (run_step ingest poll t c)
run-IsCoherent ingest poll (alive looping) c h k = looped-IsCoherent c h
run-IsCoherent ingest poll (alive polling) c h k = polled-IsCoherent poll c h
run-IsCoherent ingest poll (alive (holding frames)) c h k =
    ingested-IsCoherent (ingest c.session_key frames) c h
run-IsCoherent ingest poll (alive leaving) c h k = h
run-IsCoherent ingest poll (alive closing) c h k = tt
run-IsCoherent ingest poll no_thread c h k = k
run-IsCoherent ingest poll ended c h k = k

thread-IsCoherent :
    (ingest : Option String → List RfidFrame → Result Failure (Unit {0}))
    (poll : Result Failure (List RfidFrame)) (c : Capture)
    → IsCoherent c
    → IsCoherent (thread_step ingest poll c)
unfolding thread_step
thread-IsCoherent ingest poll c h = run-IsCoherent ingest poll c.thread c h h

begin-IsCoherent : (c : Capture) → IsCoherent c → IsCoherent (stop_begin c).1
unfolding stop_begin
begin-IsCoherent c h = elim (Bool-cases (is_none c.thread)) [
  | inr e ↦ rw (e) h
  | inl e ↦ rw (e) (subst (λ t. Holds t none c.error) (sym (none_is c.thread e)) refl)
]

end-IsCoherent : (c : Capture) → IsCoherent c → IsCoherent (stop_end c).1
unfolding stop_end
end-IsCoherent c h = elim (Bool-cases (is_running c.thread)) [
  | inl e ↦ rw (e) h
  | inr e ↦ rw (e) refl
]

step-IsCoherent :
    (code : String) (s : CaptureStep) (c : Capture)
    → IsCoherent c
    → IsCoherent (capture_step code s c)
unfolding capture_step
step-IsCoherent code (starting active key session_key reader_code) c h =
    start-IsCoherent code active key session_key reader_code c h
step-IsCoherent code stopping c h = begin-IsCoherent c h
step-IsCoherent code joined c h = end-IsCoherent c h
step-IsCoherent code (running ingest poll) c h = thread-IsCoherent ingest poll c h

steps-IsCoherent :
    (code : String) (steps : List CaptureStep) (c : Capture)
    → IsCoherent c
    → IsCoherent (capture_steps code steps c)
unfolding capture_steps
steps-IsCoherent code [] c h = h
steps-IsCoherent code (s ∷ steps) c h = steps-IsCoherent code steps _ (step-IsCoherent code s c h)

-- Whatever steps the worker and the capture thread make, in any order: as long as the thread is alive,
-- it has a session key to ingest under, which is not empty; as long as it has not left its loop, no
-- error is kept; and a service without a thread has no session key.
pub capture-IsCoherent :
    (code : String) (steps : List CaptureStep) → IsCoherent (capture_steps code steps new_capture)
capture-IsCoherent code steps = steps-IsCoherent code steps new_capture refl
