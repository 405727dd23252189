-- ===== src/Tests/FinalCycle.antt =====
-- The final delivery cycle on a small database.
use rfid.Prelude.{ℕ, ◌≤◌, ◌+◌, ◌≡◌, ◌≢◌, refl, subst, arith, some, [], ◌∷◌}
use rfid.Prelude.Text.{strip}
use rfid.Result.{ok, err}
use rfid.Models.{Database, RawRfidEvent, inflight, cancelled, Exception}
use rfid.Queue.{transition_event_queue_state, validate_states}
use rfid.Delivery.{
  IsSound, History, Sender, RetryPolicy, Emptied, is_cancelled_event, is_exhausted_event,
  device_has_code, session_is_cancelled, bury, dead_letter_cancelled_session_final_events,
  dead_letter_exhausted_final_events, FinalDeliveryCycleResult, process_delivery_candidate,
  state_of, process_strands, run_final_delivery_cycle, cancelled-Emptied, exhausted-Emptied,
  run_final-IsSound, run_final-returns,
}
use rfid.Tests.Sample.{open_session, queued_event, sample}
use text.Mathlib.TextEquality.{eq_iff}

abbrev policy : RetryPolicy
policy = record { max_delivery_attempts = 3; retry_initial_seconds = 30; retry_max_seconds = 3600 }

abbrev unreachable : Sender
unreachable event db = (err (record { type_name = "TimeoutError"; text = "timed out" }), db)

abbrev abandoned : Database
abandoned = record sample { sessions = record open_session { status = cancelled } ∷ [] }

named : strip "receiving-door-01" ≢ ""
unfolding strip
named e = let h = (eq_iff "receiving-door-01" "").1 e in cc

-- The queued event of the cancelled session is buried.
buries_one : (dead_letter_cancelled_session_final_events "receiving-door-01" abandoned).0 ≡ ok 1
unfolding dead_letter_cancelled_session_final_events is_cancelled_event device_has_code
    session_is_cancelled strip bury transition_event_queue_state validate_states
buries_one = refl

cancelled-Emptied_example :
    (n : ℕ) × ((dead_letter_cancelled_session_final_events "receiving-door-01" abandoned).0 ≡ ok n)
    × Emptied
        (is_cancelled_event abandoned (strip "receiving-door-01"))
        abandoned
        (dead_letter_cancelled_session_final_events "receiving-door-01" abandoned).1
cancelled-Emptied_example = cancelled-Emptied "receiving-door-01" abandoned named

exhausted-Emptied_example :
    (n : ℕ) × ((dead_letter_exhausted_final_events "receiving-door-01" 3 sample).0 ≡ ok n)
    × Emptied
        (is_exhausted_event sample (strip "receiving-door-01") 3)
        sample
        (dead_letter_exhausted_final_events "receiving-door-01" 3 sample).1
exhausted-Emptied_example = exhausted-Emptied "receiving-door-01" 3 sample named (omega arith)

sample-IsSound : IsSound policy sample
sample-IsSound = record {
  logged = record {
    agrees = λ i e h.
        let row : queued_event ≡ e = ground arith in
        subst (λ (x : RawRfidEvent). History x.queue_state []) row tt;
    numbered = λ i. tt;
    fresh = tt;
  };
  bounded = λ i. omega arith;
}

run_final-IsSound_example :
    IsSound policy (run_final_delivery_cycle unreachable "receiving-door-01" 10 policy sample).1
run_final-IsSound_example =
    run_final-IsSound policy "receiving-door-01" 10 unreachable (λ e db v. v) sample sample-IsSound

run_final-returns_example :
    (r : FinalDeliveryCycleResult) × ((run_final_delivery_cycle unreachable "receiving-door-01" 10
        policy sample).0
      ≡ ok r)
    × (r.selected_count ≤ 10)
    × (r.counters.processed + r.counters.failed ≡ r.selected_count)
    × (r.counters.processed
        ≡ r.counters.sent + r.counters.retry + r.counters.rejected + r.counters.dead)
run_final-returns_example =
    run_final-returns unreachable "receiving-door-01" 10 policy sample named (omega arith)
      (omega arith)

-- The maximal delay is below the initial one.
abbrev refused_policy : RetryPolicy
refused_policy = record policy { retry_max_seconds = 10 }

process_strands_example :
    (x : Exception) × ((process_delivery_candidate refused_policy unreachable queued_event sample).0
      ≡ err x)
    × (state_of 3 (process_delivery_candidate refused_policy unreachable queued_event sample).1
        ≡ some inflight)
process_strands_example =
    process_strands refused_policy unreachable queued_event sample sample-IsSound.logged
      (omega arith) refl refl (omega arith) refl refl
