-- ===== src/Scheduler/Retry/Backoff.antt =====
-- The delay of internal/scheduler/retry.go against its formula, with nothing lost to wrapping.
use redline.Base.{
  ℕ, zero, suc, ◌+◌, ◌-◌, ◌*◌, ◌^◌, ◌≤◌, ◌<◌, min, ◌≡◌, ◌↔◌, false, Option, some, arith, ltb,
  if◌then◌else◌, ℤ, pos, negsuc, pos_part, ◌+ℤ◌, ◌*ℤ◌, ltb_ℤ, leb_ℤ, wrap64, IsInt64,
}
use native.Mathlib.Nat.{pow-suc}
use redline.Scheduler.Failures.{AllocationFailureError, placement}
use redline.Scheduler.Retry.{
  RetryPolicy, normalize, double_up, backoff_ceiling, draw, next_delay, decide, retry, is_retryable,
}

abbrev clamp : ℤ → ℤ → ℤ
clamp cap x = if ltb_ℤ cap x then cap else x

pow_pos : (k : ℕ) → 1 ≤ 2 ^ k
pow_pos zero = omega arith
pow_pos (suc k) = omega (arith, pow-suc 2 k, pow_pos k)

mul_pow : (b k : ℕ) → b * 2 ^ suc k ≡ b * 2 * 2 ^ k
mul_pow b k = rw (pow-suc 2 k) (grind arith)

le-mul_pow : (b k : ℕ) → b ≤ b * 2 ^ k
le-mul_pow b k = grind (arith, pow_pos k)

-- One doubling of a positive int64.
doubled :
    (b : ℕ)
    → b < 2 ^ 63
    → wrap64 (pos b *ℤ pos 2)
      ≡ (if ltb (b * 2) (2 ^ 63) then pos (b * 2) else negsuc (2 ^ 64 - b * 2 - 1))
unfolding wrap64 ◌*ℤ◌
doubled b h = ground arith

double_up-min :
    (k b m : ℕ)
    → 0 < b
    → b < 2 ^ 63
    → m < 2 ^ 63
    → clamp (pos m) (double_up k (pos m) (pos b)) ≡ pos (min (b * 2 ^ k) m)
unfolding double_up
double_up-min zero b m h1 h2 h3 = ground arith
double_up-min (suc k) b m h1 h2 h3 = ground (
  arith,
  doubled b h2,
  mul_pow b k,
  le-mul_pow b (suc k),
  le-mul_pow (b * 2) k,
  double_up-min k (b * 2) m,
)

-- The policy's durations are values of an int64.
pub record InRange (p : RetryPolicy) : Type 0 where
  pub base : IsInt64 p.base_delay
  pub cap : IsInt64 p.max_delay

-- The exponential formula: the base doubled once for each attempt after the first, up to the cap.
abbrev pub ceiling : RetryPolicy → ℤ → ℕ
ceiling p attempt =
    min (pos_part (normalize p).base_delay * 2 ^ (pos_part attempt - 1))
      (pos_part (normalize p).max_delay)

normalize_positive :
    (p : RetryPolicy)
    → InRange p
    → (b m : ℕ) × ((normalize p).base_delay ≡ pos b)
      × ((normalize p).max_delay ≡ pos m)
      × (0 < b)
      × (b < 2 ^ 63)
      × (0 < m)
      × (m < 2 ^ 63)
unfolding normalize
normalize_positive p h = (
  pos_part (normalize p).base_delay,
  pos_part (normalize p).max_delay,
  ground arith,
  ground arith,
  ground arith,
  ground arith,
  ground arith,
  ground arith,
)

-- The top of the delay's range is the exponential formula, whatever the attempt.
pub backoff_ceiling-exact :
    (p : RetryPolicy) (attempt : ℤ)
    → InRange p
    → backoff_ceiling (normalize p) attempt ≡ pos (ceiling p attempt)
unfolding backoff_ceiling
backoff_ceiling-exact p attempt h =
    let (b, m, eb, em, b0, b1, m0, m1) = normalize_positive p h in
    rw (eb, em) (double_up-min (pos_part attempt - 1) b m b0 b1 m1)

plus_one : (n : ℕ) → n < 2 ^ 63 - 1 → wrap64 (pos n +ℤ pos 1) ≡ pos (n + 1)
unfolding wrap64 ◌+ℤ◌
plus_one n h = ground arith

draw_bounded :
    (rand_int64n : ℕ → ℕ) (n : ℕ)
    → ((k : ℕ) → 0 < k → rand_int64n k < k)
    → n < 2 ^ 63 - 1
    → (d : ℕ) × (draw rand_int64n (pos n) ≡ some (pos d)) × (d ≤ n)
unfolding draw
draw_bounded rand_int64n zero h k = (0, ground arith, omega arith)
draw_bounded rand_int64n (suc n) h k = (
  rand_int64n (suc n + 1),
  ground (arith, plus_one (suc n) k),
  omega (arith, h (suc n + 1) (omega arith)),
)

ceiling-lt :
    (p : RetryPolicy) (attempt : ℤ) (n : ℕ)
    → pos_part p.max_delay < n
    → 300000000000 < n
    → ceiling p attempt < n
unfolding normalize
ceiling-lt p attempt n h k = ground arith

-- With durations of an int64 and a cap below its largest value, a delay is drawn for every
-- attempt, and it lies between 0 and the exponential formula.
pub next_delay_bounded :
    (rand_int64n : ℕ → ℕ) (p : RetryPolicy) (attempt : ℤ)
    → ((k : ℕ) → 0 < k → rand_int64n k < k)
    → InRange p
    → pos_part p.max_delay < 2 ^ 63 - 1
    → (d : ℕ) × (next_delay rand_int64n p attempt ≡ some (pos d)) × (d ≤ ceiling p attempt)
unfolding next_delay
next_delay_bounded rand_int64n p attempt h r top =
    rw (backoff_ceiling-exact p attempt r)
      (draw_bounded rand_int64n (ceiling p attempt) h (ceiling-lt p attempt _ top (omega arith)))

-- A failure is tried again exactly when it is a placement failure and fewer attempts than the
-- policy allows have been made; the delay is then that of `NextDelay` under the normalised policy.
pub decide-retry :
    (rand_int64n : ℕ → ℕ) (p : RetryPolicy) (f : AllocationFailureError) (attempt : ℤ)
    (delay : Option ℤ)
    → (decide rand_int64n p (some f) attempt ≡ retry delay) ↔ (
        (f.class ≡ placement)
        × (leb_ℤ (normalize p).max_attempts attempt ≡ false)
        × (delay ≡ next_delay rand_int64n (normalize p) attempt))
unfolding decide is_retryable
decide-retry rand_int64n p f attempt delay = ground arith
