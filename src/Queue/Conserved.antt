-- ===== src/Queue/Conserved.antt =====
-- internal/queue: no job is lost and none is doubled, over any calls in good order.
use redline.Base.{
  ℕ, suc, ◌≤◌, String, ◌≡◌, ap, ◌∙◌, ◌⊎◌, inl, Bool, true, false, ◌&&◌, List, [], ◌∷◌, arith,
  str_eq, eq_iff, ◌==◌, if◌then◌else◌, any_of, ℤ, Call, served, refused, lost,
}
use redline.Redis.{JobStore}
use redline.Queue.{
  pending_key, processing_key, dead_letter_key, job_key, enqueue, try_dequeue, ack, nack,
}
use redline.Queue.Places.{
  occurrences, total, processing_count, pushed-total, ack-total, nack-total, dequeue-total,
}

-- A call on the queue, with how its requests end.
pub data Op : Type 0 where
  enqueues : Call → Call → String → String → Op
  dequeues : Call → ℕ → Op
  acks nacks : Call → String → Op

-- Whether a call is an ack of a job that reaches Redis.
abbrev pub acks_job : String → Op → Bool
acks_job j (acks refused id) = false
acks_job j (acks _ id) = str_eq id j
acks_job j _ = false

module _ (R : JobStore) (name : String) (max : ℤ) where
  open R use {Db, hset_job, lpush, items-hset, items-lpush}

  unfoldable pub step : Db → Op → Db
  step d (enqueues c p id payload) = (enqueue R name c p d id payload).0
  step d (dequeues c deadline) = (try_dequeue R name c d deadline).0
  step d (acks c id) = (ack R name c d id).0
  step d (nacks c id) = (nack R name c d max id).0

  unfoldable pub run : Db → List Op → Db
  run d [] = d
  run d (op ∷ ops) = run (step d op) ops

  -- Good order: a job that is enqueued is nowhere in the queue, and one that is acked or nacked is
  -- in processing, once.
  abbrev pub orderly : Db → Op → Bool
  orderly d (enqueues c p id payload) = total R name d id == 0
  orderly d (dequeues c deadline) = true
  orderly d (acks c id) = processing_count R name d id == 1
  orderly d (nacks c id) = processing_count R name d id == 1

  abbrev pub orderly_run : Db → List Op → Bool
  orderly_run d [] = true
  orderly_run d (op ∷ ops) = orderly d op && orderly_run (step d op) ops

  enqueue-total :
      (c p : Call) (d : Db) (id payload j : String)
      → (total R name (enqueue R name c p d id payload).0 j ≡ total R name d j)
        ⊎ (total R name (enqueue R name c p d id payload).0 j
            ≡ (if str_eq j id then suc (total R name d j) else total R name d j))
  unfolding enqueue
  enqueue-total c p d id payload j =
      let d' = hset_job d (job_key name id) payload 0 in
      let kept : total R name d' j ≡ total R name d j = ground (
        arith,
        ap (occurrences j) (items-hset d (job_key name id) payload 0 (pending_key name)),
        ap (occurrences j) (items-hset d (job_key name id) payload 0 (processing_key name)),
        ap (occurrences j) (items-hset d (job_key name id) payload 0 (dead_letter_key name)),
      ) in
      ground (
        arith,
        kept,
        pushed-total R name d' (lpush d' (pending_key name) id) (pending_key name) id j
            (items-lpush d' (pending_key name) id)
            (inl (ground (arith, eq_iff (pending_key name) (pending_key name)))),
      )

  step-total :
      (d : Db) (op : Op) (j : String)
      → orderly d op ≡ true
      → total R name d j ≤ 1
      → (total R name (step d op) j ≤ 1)
        × (total R name d j ≡ 1 → acks_job j op ≡ false → total R name (step d op) j ≡ 1)
  unfolding step try_dequeue ack nack
  step-total d (enqueues c p id payload) j o h =
      let t = enqueue-total c p d id payload j in
      (ground (arith, o, h, t, eq_iff j id), λ one _. ground (arith, o, one, t, eq_iff j id))
  step-total d (dequeues served deadline) j o h =
      let t = dequeue-total R name d deadline j in (omega (arith, t, h), λ one _. t ∙ one)
  step-total d (dequeues refused deadline) j o h = (h, λ one _. one)
  step-total d (dequeues lost deadline) j o h =
      let t = dequeue-total R name d deadline j in (omega (arith, t, h), λ one _. t ∙ one)
  step-total d (acks refused id) j o h = (h, λ one _. one)
  step-total d (acks served id) j o h =
      let t = ack-total R name d id j in
      (ground (arith, h, t), λ one other. ground (arith, one, other, t))
  step-total d (acks lost id) j o h =
      let t = ack-total R name d id j in
      (ground (arith, h, t), λ one other. ground (arith, one, other, t))
  step-total d (nacks refused id) j o h = (h, λ one _. one)
  step-total d (nacks served id) j o h =
      let t = nack-total R name d max id j in
      (ground (arith, o, h, t, eq_iff id j), λ one _. ground (arith, o, one, t, eq_iff id j))
  step-total d (nacks lost id) j o h =
      let t = nack-total R name d max id j in
      (ground (arith, o, h, t, eq_iff id j), λ one _. ground (arith, o, one, t, eq_iff id j))

  run-total :
      (ops : List Op) (d : Db) (j : String)
      → orderly_run d ops ≡ true
      → total R name d j ≤ 1
      → (total R name (run d ops) j ≤ 1)
        × (total R name d j ≡ 1 → any_of (acks_job j) ops ≡ false → total R name (run d ops) j ≡ 1)
  unfolding run
  run-total [] d j o h = (h, λ one _. one)
  run-total (op ∷ ops) d j o h =
      let (less, kept) = step-total d op j (ground (arith, o)) h in
      let (less', kept') = run-total ops (step d op) j (ground (arith, o)) less in
      (
        less',
        λ one none_acked.
            kept' (kept one (ground (arith, none_acked))) (ground (arith, none_acked)),
      )

  -- Over calls in good order, however their requests end, a job that is in at most one place of the
  -- lists pending, processing and dead-letter stays in at most one.
  pub run-undoubled :
      (ops : List Op) (d : Db) (j : String)
      → orderly_run d ops ≡ true
      → total R name d j ≤ 1
      → total R name (run d ops) j ≤ 1
  run-undoubled ops d j o h = (run-total ops d j o h).0

  -- Over calls in good order, however their requests end, a job that is in one place of the lists
  -- pending, processing and dead-letter stays in one, unless an ack of it reaches Redis.
  pub run-kept :
      (ops : List Op) (d : Db) (j : String)
      → orderly_run d ops ≡ true
      → total R name d j ≡ 1
      → any_of (acks_job j) ops ≡ false
      → total R name (run d ops) j ≡ 1
  run-kept ops d j o one none_acked = (run-total ops d j o (omega (arith, one))).1 one none_acked
