-- ===== src/Delivery/Backoff.antt =====
-- `calculateBackoff`. A `time.Duration` is an int64 of nanoseconds, here its bit pattern.
-- `math.Pow(2, n)` is exact as a float64, and so is `maxBackoffSeconds` below 2^53.
use native.Mathlib.Nat.{pow-suc}
use Prim.Native.Nat.{min}
use slurpee.Prelude.{ℕ, suc, ◌*◌, ◌%◌, ◌^◌, ◌-◌, ◌≤◌, ◌≡◌, arith, ltb, if◌then◌else◌}
use slurpee.Prelude.Int.{ℤ, pos, negsuc}

abbrev pub second : ℕ
second = 1000000000

-- The largest number of seconds that a `time.Duration` holds.
abbrev pub max_seconds : ℕ
max_seconds = 9223372036

unfoldable pub delay_seconds : ℕ → ℕ → ℕ
delay_seconds attempt_num max_backoff_seconds =
    let delay = 2 ^ attempt_num in
    if ltb max_backoff_seconds delay then max_backoff_seconds else delay

-- A negative maximum is below every power of two.
unfoldable pub calculate_backoff : ℕ → ℤ → ℕ
unfolding delay_seconds
calculate_backoff attempt_num (pos max_backoff_seconds) =
    (delay_seconds attempt_num max_backoff_seconds * second) % 2 ^ 64
calculate_backoff attempt_num (negsuc n) = (2 ^ 64 - (suc n * second) % 2 ^ 64) % 2 ^ 64

-- How long `time.AfterFunc` waits: not at all for a negative duration.
unfoldable pub wait_of : ℕ → ℕ
wait_of duration = if ltb duration (2 ^ 63) then duration else 0

delay_seconds-le : (n max : ℕ) → delay_seconds n max ≤ max
unfolding delay_seconds
delay_seconds-le n max = ground arith

delay_seconds-suc : (n max : ℕ) → delay_seconds (suc n) max ≡ min (2 * delay_seconds n max) max
unfolding delay_seconds
delay_seconds-suc n max = ground (arith, pow-suc 2 n)

delay_seconds-zero : (max : ℕ) → delay_seconds 0 max ≡ min 1 max
unfolding delay_seconds
delay_seconds-zero max = ground arith

calculate_backoff-exact :
    (n max : ℕ) → max ≤ max_seconds → calculate_backoff n (pos max) ≡ delay_seconds n max * second
unfolding calculate_backoff
calculate_backoff-exact n max h = omega (arith, delay_seconds-le n max)

-- While the configured cap fits a Duration, the first delay is one second and each later one is
-- twice the one before it, except that none passes the cap: no power of two, however large the
-- attempt number, makes a delay overflow.
pub calculate_backoff_schedule :
    (n max : ℕ)
    → max ≤ max_seconds
    → (calculate_backoff 0 (pos max) ≡ min second (max * second))
      × (calculate_backoff (suc n) (pos max)
          ≡ min (2 * calculate_backoff n (pos max)) (max * second))
calculate_backoff_schedule n max h =
    let now = calculate_backoff-exact n max h in
    let next = calculate_backoff-exact (suc n) max h in
    (
      omega (arith, calculate_backoff-exact 0 max h, delay_seconds-zero max),
      omega (arith, now, next, delay_seconds-suc n max),
    )
