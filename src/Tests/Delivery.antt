-- ===== src/Tests/Delivery.antt =====
-- The delivery services on a small database.
use rfid.Prelude.{ℕ, ◌≤◌, ◌+◌, ◌≡◌, refl, subst, arith, ◌≢◌, ◌↔◌, true, some, []}
use rfid.Result.{ok, err, is_ok}
use rfid.Prelude.Text.{strip}
use rfid.Models.{Database, RawRfidEvent, QueueState, queued, Outcome, barrier_pending}
use rfid.Models.Orm.{after}
use rfid.Queue.{validate_states, calculate_retry_delay_seconds}
use rfid.Tests.Sample.{queued_event, sample}
use rfid.Delivery.{
  History, IsLogged, IsBounded, IsSound, Sender, DeliverySenderResult, RetryPolicy,
  SingleEventDeliveryResult, report_fits, start_delivery_attempt, complete_delivery_attempt,
  process_delivery_candidate, start-IsLogged, start-IsBounded, complete-IsLogged, process-IsSound,
  process_settles, run_batch-returns, run_batch_delivery_cycle, Counters, state_of,
  require-passes_iff, AllSent, is_final_event, device_has_code, session_has_key,
  require_final_session_delivery_complete, inspect_final_session_delivery, counts, latest,
  next_attempt_number, target_state, check_retry_seconds, next_retry_time,
}

abbrev policy : RetryPolicy
policy = record { max_delivery_attempts = 3; retry_initial_seconds = 30; retry_max_seconds = 3600 }

abbrev unreachable : Sender
unreachable event db = (err (record { type_name = "TimeoutError"; text = "timed out" }), db)

services : Unit {0}
unfolding start_delivery_attempt complete_delivery_attempt process_delivery_candidate latest
    next_attempt_number target_state check_retry_seconds next_retry_time validate_states
    calculate_retry_delay_seconds
services = tt

first_retry :
    state_of 3 (process_delivery_candidate policy unreachable queued_event sample).1
    ≡ some QueueState.retry
unfolding services report_fits
first_retry = refl

sample-IsLogged : IsLogged sample
sample-IsLogged = record {
  agrees = λ i e h.
      let row : queued_event ≡ e = ground arith in
      subst (λ (x : RawRfidEvent). History x.queue_state []) row tt;
  numbered = λ i. tt;
  fresh = tt;
}

sample-IsSound : IsSound policy sample
sample-IsSound = record { logged = sample-IsLogged; bounded = λ i. omega arith }

start-IsLogged_example : IsLogged (after (start_delivery_attempt 3 queued 3 sample) sample)
start-IsLogged_example = start-IsLogged 3 queued 3 sample sample-IsLogged

start-IsBounded_example : IsBounded 3 (after (start_delivery_attempt 3 queued 3 sample) sample)
start-IsBounded_example = start-IsBounded 3 queued 3 sample sample-IsLogged (λ i. omega arith)

abbrev delivered : DeliverySenderResult
delivered = record { outcome = Outcome.sent; response_code = "200"; error_kind = ""; detail = "" }

abbrev waiting : Database
waiting = after (start_delivery_attempt 3 queued 3 sample) sample

complete-IsLogged_example :
    IsLogged (after (complete_delivery_attempt 3 4 delivered (some 30) (some 3600) waiting) waiting)
complete-IsLogged_example =
    complete-IsLogged 3 4 delivered (some 30) (some 3600) waiting start-IsLogged_example

process-IsSound_example :
    IsSound policy (process_delivery_candidate policy unreachable queued_event sample).1
process-IsSound_example =
    process-IsSound policy unreachable (λ e db v. v) queued_event sample sample-IsSound

process_settles_example :
    (r : SingleEventDeliveryResult) × ((process_delivery_candidate policy unreachable queued_event
        sample).0
      ≡ ok r)
    × (r.outcome ≡ Outcome.retry)
    × (r.current_state ≡ QueueState.retry)
    × (state_of 3 (process_delivery_candidate policy unreachable queued_event sample).1
        ≡ some QueueState.retry)
unfolding target_state report_fits
process_settles_example =
    process_settles policy unreachable queued_event sample QueueState.retry sample-IsLogged
      (omega arith) refl refl (omega arith) refl refl refl

require-passes_iff_example :
    (is_ok (require_final_session_delivery_complete "S1" "receiving-door-01" sample) ≡ true) ↔ (
      (strip "S1" ≢ "")
      × (strip "receiving-door-01" ≢ "")
      × AllSent (is_final_event sample (strip "S1") (strip "receiving-door-01")) sample.events)
require-passes_iff_example = require-passes_iff "S1" "receiving-door-01" sample

-- The queued event of the session holds the STOP back.
holds_back :
    require_final_session_delivery_complete "S1" "receiving-door-01" sample
    ≡ err (barrier_pending 1)
unfolding require_final_session_delivery_complete inspect_final_session_delivery counts strip
    is_final_event device_has_code session_has_key
holds_back = refl

run_batch-returns_example :
    (n : ℕ) × (c : Counters) × ((run_batch_delivery_cycle 10 policy unreachable sample).0
      ≡ ok (n, c))
    × (n ≤ 10)
    × (c.processed + c.failed ≡ n)
    × (c.processed ≡ c.sent + c.retry + c.rejected + c.dead)
run_batch-returns_example =
    run_batch-returns 10 policy unreachable sample (omega arith) (omega arith)
      (record { initial = omega arith; maximum = omega arith })
