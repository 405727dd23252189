-- ===== src/Queue/Backoff.antt =====
-- The delay before a retry: exponential growth up to a bound.
use rfid.Prelude.{ℕ, zero, suc, ◌-◌, ◌*◌, ◌^◌, ◌≤◌, ◌≡◌, refl, ◌↔◌, true, arith, min}
use rfid.Result.{ok, is_ok}
use rfid.Queue.Policy.{calculate_retry_delay_seconds}
use native.Mathlib.Nat.{pow-suc}

abbrev IsConfig : ℕ → ℕ → Type 0
IsConfig initial maximum = (1 ≤ initial) × (initial ≤ maximum)

power_pos : (n : ℕ) → 1 ≤ 2 ^ n
power_pos zero = omega arith
power_pos (suc n) = rw pow-suc (omega (arith, power_pos n))

module _ (initial maximum : ℕ) where
  delay-eq :
      (n : ℕ)
      → IsConfig initial maximum
      → calculate_retry_delay_seconds (suc n) initial maximum
        ≡ ok (min (initial * 2 ^ (suc n - 1)) maximum)
  unfolding calculate_retry_delay_seconds
  delay-eq n c = ground arith

  -- A delay is returned exactly for a positive attempt number and a sane configuration.
  pub delay-defined :
      (n : ℕ)
      → (is_ok (calculate_retry_delay_seconds n initial maximum) ≡ true)
        ↔ ((1 ≤ n) × (1 ≤ initial) × (initial ≤ maximum))
  unfolding calculate_retry_delay_seconds
  delay-defined n = (λ h. ground arith, λ h. ground arith)

  power : (n : ℕ) → initial * 2 ^ (suc (suc n) - 1) ≡ 2 * (initial * 2 ^ (suc n - 1))
  power n =
      let e : suc (suc n) - 1 ≡ suc n = omega arith in
      let e' : suc n - 1 ≡ n = omega arith in rw (e, e', pow-suc) (omega arith)

  grows : (n : ℕ) → initial ≤ initial * 2 ^ (suc n - 1)
  grows n = let p : 1 ≤ 2 ^ (suc n - 1) = power_pos (suc n - 1) in grind arith

  -- With a positive initial delay not above the maximum: the first delay is the initial one, each
  -- later one doubles the one before up to the maximum, and each is between the two settings.
  pub delay_doubles :
      (n d : ℕ)
      → IsConfig initial maximum
      → calculate_retry_delay_seconds (suc n) initial maximum ≡ ok d
      → (calculate_retry_delay_seconds 1 initial maximum ≡ ok initial)
        × (calculate_retry_delay_seconds (suc (suc n)) initial maximum ≡ ok (min (2 * d) maximum))
        × (initial ≤ d)
        × (d ≤ maximum)
  delay_doubles n d c h =
      let first : 2 ^ (1 - 1) ≡ 1 = refl in
      ground (arith, first, delay-eq 0 c, delay-eq n c, delay-eq (suc n) c, power n, grows n)
