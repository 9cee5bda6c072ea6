-- ===== src/Queue/Workers.antt =====
-- internal/queue/workerpool.go: a worker's loop over the queue. A handler is a test of a job, true for
-- the nil error.
pub mod Deliveries
pub mod Settled
pub mod Drained
use redline.Base.{
  ℕ, zero, suc, ◌+◌, ◌-◌, ◌*◌, ◌/◌, ◌%◌, ◌^◌, ◌≤◌, ◌<◌, min, max, String, ◌≡◌, refl, sym, ap, subst,
  ◌∙◌, ◌≢◌, ◌↔◌, ◌⊎◌, inl, inr, Bool, true, false, not, ◌&&◌, ◌||◌, Option, none, some, List, [],
  ◌∷◌, ◌++◌, map, arith, str_eq, eq_iff, ltb, leb, ◌==◌, if◌then◌else◌, Bool-cases, Option-cases,
  length, length-append, keep_if, length-keep_if-le, all_of, any_of, All, contains, ℤ, pos, negsuc,
  pos_part, neg_part, ◌+ℤ◌, ◌*ℤ◌, ◌≤ℤ◌, ltb_ℤ, leb_ℤ, wrap64, IsInt64, wrap64_exact, wrap64-IsInt64,
  +ℤ_parts, eq_of_parts, lookup, insert, delete, lookup-insert, lookup-delete, Call, served,
  refused, lost, is_empty, cut_prefix, has_prefix, cut_prefix-append, In, str_contains, has_suffix,
  sub_ℕ,
}
use redline.Redis.{JobStore}
use redline.Queue.{Dequeued, empty, dequeue_failed, parse_failed, job, try_dequeue, ack, nack}

-- `NewWorkerPool`.
unfoldable pub worker_count : ℤ → ℤ
worker_count concurrency = if leb_ℤ concurrency (pos 0) then pos 1 else concurrency

-- What a round of the loop is answered, and the visibility deadline of its dequeue.
pub record Round : Type 0 where
  pub deadline : ℕ
  pub on_dequeue : Call
  pub on_ack : Call
  pub on_nack : Call

module _ (R : JobStore) (name : String) (max_attempts : ℤ)
    (handler : String → String → ℕ → Bool) where
  open R use {Db}

  unfoldable pub process : Round → Db → String → String → ℕ → Db
  unfolding ack nack
  process r d id payload attempts =
      if handler id payload attempts
      then (ack R name r.on_ack d id).0
      else (nack R name r.on_nack d max_attempts id).0

  -- `workerLoop`, with as many polls of the queue as come before the context ends. An empty queue is
  -- polled again; an error of the dequeue stops the worker.
  unfoldable pub worker_loop : ℕ → (ℕ → Round) → Db → Db
  unfolding try_dequeue process
  worker_loop zero rounds d = d
  worker_loop (suc k) rounds d =
      let (d', o) = try_dequeue R name (rounds k).on_dequeue d (rounds k).deadline in
      elim o [
        | empty ↦ worker_loop k rounds d'
        | dequeue_failed ↦ d'
        | parse_failed id ↦ d'
        | job id payload attempts ↦ worker_loop k rounds (process (rounds k) d' id payload attempts)
      ]
