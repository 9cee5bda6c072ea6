-- ===== src/Scheduler/Retry.antt =====
-- internal/scheduler/retry.go: whether and when a failed deployment is tried again. Durations are
-- nanoseconds, which the source holds in an int64. `rand_int64n n` is Go's `rand.Int64N`, a number
-- from 0 up to n.
pub mod Backoff
use redline.Base.{
  ℕ, zero, suc, ◌+◌, ◌-◌, ◌*◌, ◌/◌, ◌%◌, ◌^◌, ◌≤◌, ◌<◌, min, max, String, ◌≡◌, refl, sym, ap, subst,
  ◌∙◌, ◌≢◌, ◌↔◌, ◌⊎◌, inl, inr, Bool, true, false, not, ◌&&◌, ◌||◌, Option, none, some, List, [],
  ◌∷◌, ◌++◌, map, arith, str_eq, eq_iff, ltb, leb, ◌==◌, if◌then◌else◌, Bool-cases, Option-cases,
  length, length-append, keep_if, length-keep_if-le, all_of, any_of, All, contains, ℤ, pos, negsuc,
  pos_part, neg_part, ◌+ℤ◌, ◌*ℤ◌, ◌≤ℤ◌, ltb_ℤ, leb_ℤ, wrap64, IsInt64, wrap64_exact, wrap64-IsInt64,
  +ℤ_parts, eq_of_parts, lookup, insert, delete, lookup-insert, lookup-delete, Call, served,
  refused, lost, is_empty, cut_prefix, has_prefix, cut_prefix-append, In, str_contains, has_suffix,
}
use redline.Scheduler.Failures.{FailureClass, placement, AllocationFailureError}

pub record RetryPolicy : Type 0 where
  pub base_delay : ℤ
  pub max_delay : ℤ
  pub max_attempts : ℤ

abbrev pub default_retry_policy : RetryPolicy
default_retry_policy = record {
  base_delay = pos 2000000000;
  max_delay = pos 300000000000;
  max_attempts = pos 8;
}

abbrev pub or_default : ℤ → ℤ → ℤ
or_default value default = if leb_ℤ value (pos 0) then default else value

unfoldable pub normalize : RetryPolicy → RetryPolicy
normalize p = record {
  base_delay = or_default p.base_delay (pos 2000000000);
  max_delay = or_default p.max_delay (pos 300000000000);
  max_attempts = or_default p.max_attempts (pos 8);
}

unfoldable pub is_retryable : FailureClass → Bool
is_retryable placement = true
is_retryable _ = false

-- The loop of `NextDelay`: at most the given number of doublings, stopped at the cap, and set to
-- the cap when a product wraps.
unfoldable pub double_up : ℕ → ℤ → ℤ → ℤ
double_up zero cap backoff = backoff
double_up (suc rounds) cap backoff =
    let next = wrap64 (backoff *ℤ pos 2) in
    let rest = double_up rounds cap next in
    if ltb_ℤ backoff cap then if leb_ℤ next (pos 0) then cap else rest else backoff

-- The top of the range that the delay is drawn from. An attempt below 1 counts as 1.
unfoldable pub backoff_ceiling : RetryPolicy → ℤ → ℤ
unfolding double_up
backoff_ceiling p attempt =
    let backoff = double_up (pos_part attempt - 1) p.max_delay p.base_delay in
    if ltb_ℤ p.max_delay backoff then p.max_delay else backoff

-- `none` is the panic of `rand.Int64N` at a bound that is not positive.
unfoldable pub draw : (ℕ → ℕ) → ℤ → Option ℤ
draw rand_int64n backoff =
    let bound = wrap64 (backoff +ℤ pos 1) in
    if leb_ℤ backoff (pos 0)
    then some (pos 0)
    else if leb_ℤ bound (pos 0)
    then none
    else some (pos (rand_int64n (pos_part bound)))

unfoldable pub next_delay : (ℕ → ℕ) → RetryPolicy → ℤ → Option ℤ
unfolding normalize backoff_ceiling draw
next_delay rand_int64n p attempt = draw rand_int64n (backoff_ceiling (normalize p) attempt)

-- The reason of a refusal carries what the source prints of it.
pub data RetryDecision : Type 0 where
  no_failure : RetryDecision
  non_retryable : FailureClass → RetryDecision
  exhausted : ℤ → RetryDecision
  retry : Option ℤ → RetryDecision

unfoldable pub decide : (ℕ → ℕ) → RetryPolicy → Option AllocationFailureError → ℤ → RetryDecision
unfolding normalize is_retryable next_delay
decide rand_int64n p none attempt = no_failure
decide rand_int64n p (some failure) attempt =
    let q = normalize p in
    if not (is_retryable failure.class)
    then non_retryable failure.class
    else if leb_ℤ q.max_attempts attempt
    then exhausted q.max_attempts
    else retry (next_delay rand_int64n q attempt)
