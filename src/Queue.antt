-- ===== src/Queue.antt =====
-- internal/queue/queue.go and ops.go: a durable job queue on Redis. The deadline and the time of a
-- call are arguments; the polling loop of `Dequeue` repeats `try_dequeue`. What the errors say is
-- not modelled.
pub mod Places
pub mod Conserved
pub mod Workers
use redline.Base.{
  ℕ, zero, suc, ◌+◌, ◌-◌, ◌*◌, ◌/◌, ◌%◌, ◌^◌, ◌≤◌, ◌<◌, min, max, String, ◌≡◌, refl, sym, ap, subst,
  ◌∙◌, ◌≢◌, ◌↔◌, ◌⊎◌, inl, inr, Bool, true, false, not, ◌&&◌, ◌||◌, Option, none, some, List, [],
  ◌∷◌, ◌++◌, map, arith, str_eq, eq_iff, ltb, leb, ◌==◌, if◌then◌else◌, Bool-cases, Option-cases,
  length, length-append, keep_if, length-keep_if-le, all_of, any_of, All, contains, ℤ, pos, negsuc,
  pos_part, neg_part, ◌+ℤ◌, ◌*ℤ◌, ◌≤ℤ◌, ltb_ℤ, leb_ℤ, wrap64, IsInt64, wrap64_exact, wrap64-IsInt64,
  +ℤ_parts, eq_of_parts, lookup, insert, delete, lookup-insert, lookup-delete, Call, served,
  refused, lost, is_empty, cut_prefix, has_prefix, cut_prefix-append, In, str_contains, has_suffix,
  sub_ℕ,
}
use Prim.Native.String.{◌++◌ as str_append}
use redline.Redis.{JobStore}

pub record Options : Type 0 where
  pub max_attempts : ℤ
  pub visibility_timeout : ℤ
  pub poll_interval : ℤ

-- Times are in milliseconds.
unfoldable pub normalize : Options → Options
normalize o = record {
  max_attempts = if leb_ℤ o.max_attempts (pos 0) then pos 5 else o.max_attempts;
  visibility_timeout =
      if leb_ℤ o.visibility_timeout (pos 0) then pos 30000 else o.visibility_timeout;
  poll_interval = if leb_ℤ o.poll_interval (pos 0) then pos 200 else o.poll_interval;
}

unfoldable pub pending_key : String → String
pending_key name = str_append "queue:" (str_append name ":pending")

unfoldable pub processing_key : String → String
processing_key name = str_append "queue:" (str_append name ":processing")

unfoldable pub visibility_key : String → String
visibility_key name = str_append "queue:" (str_append name ":visibility")

unfoldable pub dead_letter_key : String → String
dead_letter_key name = str_append "queue:" (str_append name ":deadletter")

unfoldable pub job_key : String → String → String
job_key name id = str_append "queue:" (str_append name (str_append ":job:" id))

-- The last item of a list, which RPOPLPUSH returns.
unfoldable pub last_item : List String → Option String
last_item [] = none
last_item (x ∷ xs) = elim (last_item xs) [ none ↦ some x | some y ↦ some y ]

-- A job whose fields are gone has no number of attempts, which `strconv.Atoi` rejects.
pub data Dequeued : Type 0 where
  empty dequeue_failed : Dequeued
  parse_failed : String → Dequeued
  job : String → String → ℕ → Dequeued

pub data NackResult : Type 0 where
  retried dead_lettered : ℕ → NackResult
  nack_failed : NackResult

abbrev pub or_empty : Option String → String
or_empty none = ""
or_empty (some s) = s

module _ (R : JobStore) (name : String) where
  open R use {
    Db, items, lpush, rpoplpush, lrem, zadd, zrem, due_by, payload_of, attempts_of, hset_job,
    incr_attempts, del_job,
  }

  -- Two calls: the job's fields, then its place in the list. The second is made if the first
  -- reports success.
  unfoldable pub enqueue : Call → Call → Db → String → String → Db × Bool
  enqueue refused on_push d id payload = (d, false)
  enqueue lost on_push d id payload = (hset_job d (job_key name id) payload 0, false)
  enqueue served refused d id payload = (hset_job d (job_key name id) payload 0, false)
  enqueue served lost d id payload =
      (lpush (hset_job d (job_key name id) payload 0) (pending_key name) id, false)
  enqueue served served d id payload =
      (lpush (hset_job d (job_key name id) payload 0) (pending_key name) id, true)

  unfoldable pub dequeue_script : Db → ℕ → Db
  unfolding last_item
  dequeue_script d deadline = elim (last_item (items d (pending_key name))) [
    | none ↦ d
    | some id ↦
        zadd (rpoplpush d (pending_key name) (processing_key name)) (visibility_key name) deadline
          id
  ]

  -- The reply of the script, as the client reads it.
  unfoldable pub dequeue_reply : Db → Dequeued
  unfolding last_item
  dequeue_reply d = elim (last_item (items d (pending_key name))) [
    | none ↦ empty
    | some id ↦ elim (attempts_of d (job_key name id)) [
      | none ↦ parse_failed id
      | some n ↦ job id (or_empty (payload_of d (job_key name id))) n
    ]
  ]

  unfoldable pub try_dequeue : Call → Db → ℕ → Db × Dequeued
  unfolding dequeue_script dequeue_reply
  try_dequeue served d deadline = (dequeue_script d deadline, dequeue_reply d)
  try_dequeue refused d deadline = (d, dequeue_failed)
  try_dequeue lost d deadline = (dequeue_script d deadline, dequeue_failed)

  unfoldable pub ack_script : Db → String → Db
  ack_script d id =
      del_job (zrem (lrem d (processing_key name) id) (visibility_key name) id) (job_key name id)

  unfoldable pub ack : Call → Db → String → Db × Bool
  unfolding ack_script
  ack served d id = (ack_script d id, true)
  ack refused d id = (d, false)
  ack lost d id = (ack_script d id, false)

  -- HINCRBY of a field that is not there counts from 0.
  abbrev pub next_attempt : Db → String → ℕ
  next_attempt d id = elim (attempts_of d (job_key name id)) [ none ↦ 1 | some n ↦ suc n ]

  unfoldable pub nack_script : Db → ℤ → String → Db
  nack_script d max_attempts id =
      let d' =
        incr_attempts (zrem (lrem d (processing_key name) id) (visibility_key name) id)
          (job_key name id) in
      if leb_ℤ max_attempts (pos (next_attempt d id))
      then lpush d' (dead_letter_key name) id
      else lpush d' (pending_key name) id

  unfoldable pub nack_reply : Db → ℤ → String → NackResult
  nack_reply d max_attempts id =
      if leb_ℤ max_attempts (pos (next_attempt d id))
      then dead_lettered (next_attempt d id)
      else retried (next_attempt d id)

  unfoldable pub nack : Call → Db → ℤ → String → Db × NackResult
  unfolding nack_script nack_reply
  nack served d max_attempts id = (nack_script d max_attempts id, nack_reply d max_attempts id)
  nack refused d max_attempts id = (d, nack_failed)
  nack lost d max_attempts id = (nack_script d max_attempts id, nack_failed)

  -- The loop of `Reap`, which stops at the first nack that fails.
  unfoldable pub reap_each : (String → Call) → Db → ℤ → List String → Db × Bool
  unfolding nack
  reap_each calls d max_attempts [] = (d, true)
  reap_each calls d max_attempts (id ∷ ids) =
      let rest = reap_each calls (nack (calls id) d max_attempts id).0 max_attempts ids in
      elim (calls id) [
        | served ↦ rest
        | refused ↦ ((nack (calls id) d max_attempts id).0, false)
        | lost ↦ ((nack (calls id) d max_attempts id).0, false)
      ]

  -- `none` is an error.
  unfoldable pub reap : Call → (String → Call) → Db → ℤ → ℕ → Db × Option ℕ
  unfolding reap_each
  reap served calls d max_attempts now =
      let expired = due_by d (visibility_key name) now in
      let (d', all) = reap_each calls d max_attempts expired in
      (d', if all then some (length expired) else none)
  reap _ calls d max_attempts now = (d, none)
