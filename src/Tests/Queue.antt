-- ===== src/Tests/Queue.antt =====
-- The queue's store filled by plain functions, witnesses for internal/queue, and what calls in bad
-- order lead to.
use redline.Base.{
  ℕ, ◌≤◌, String, ◌≡◌, refl, sym, ap, subst, ◌∙◌, Bool, true, false, not, ◌&&◌, Option, none, some,
  List, [], ◌∷◌, ◌++◌, arith, str_eq, eq_iff, if◌then◌else◌, keep_if, pos, served, lost,
}
use redline.Redis.{JobStore, counted_up}
use redline.Queue.{
  parse_failed, last_item, enqueue, try_dequeue, dequeue_reply, dequeue_script, nack, nack_script,
  ack, ack_script, job_key, pending_key, processing_key, visibility_key, dead_letter_key,
}
use redline.Queue.Places.{total}
use redline.Queue.Conserved.{Op, enqueues, dequeues, acks, nacks, acks_job, orderly_run, run, step}
use redline.Queue.Conserved
use redline.Queue.Workers.{worker_loop}
use redline.Queue.Workers.Deliveries.{IsReady, is_some}
use redline.Queue.Workers.Settled.{tries, waiting}
use redline.Queue.Workers.Drained.{all_served, Drained}
use redline.Queue.Workers.Drained

pub record Memory : Type 0 where
  pub lists : String → List String
  pub scores : String → String → Option ℕ
  pub payloads : String → Option String
  pub attempts : String → Option ℕ

abbrev pub but_last : List String → List String
but_last [] = []
but_last (x ∷ xs) = elim xs [ [] ↦ [] | y ∷ ys ↦ x ∷ but_last xs ]

abbrev pub to_front : Option String → List String → List String
to_front none xs = xs
to_front (some v) xs = v ∷ xs

last_item-end : (xs : List String) (v : String) → last_item (xs ++ (v ∷ [])) ≡ some v
unfolding last_item
last_item-end [] v = refl
last_item-end (x ∷ xs) v = ground (arith, last_item-end xs v)

but_last-end : (xs : List String) (v : String) → but_last (xs ++ (v ∷ [])) ≡ xs
but_last-end [] v = refl
but_last-end (x ∷ []) v = refl
but_last-end (x ∷ y ∷ xs) v = ap (λ ys. x ∷ ys) (but_last-end (y ∷ xs) v)

abbrev pub moved : (String → List String) → String → String → String → List String
moved lists k l j =
    if str_eq k j
    then but_last (lists k)
    else if str_eq l j
    then to_front (last_item (lists k)) (lists j)
    else lists j

pub moved_lem :
    (lists : String → List String) (k l j v : String) (xs : List String)
    → lists k ≡ xs ++ (v ∷ [])
    → moved lists k l j ≡ (if str_eq k j then xs else if str_eq l j then v ∷ lists j else lists j)
moved_lem lists k l j v xs p =
    ap
      (λ ys.
        if str_eq k j
        then but_last ys
        else if str_eq l j
        then to_front (last_item ys) (lists j)
        else lists j)
      p
    ∙ ground (arith, but_last-end xs v, last_item-end xs v)

abbrev pub memory : JobStore
memory = record {
  Db = Memory;
  items = λ d k. d.lists k;
  lpush = λ d k v. record d { lists = λ j. if str_eq k j then v ∷ d.lists j else d.lists j };
  rpoplpush = λ d k l. record d { lists = moved d.lists k l };
  lrem = λ d k v. record d {
    lists = λ j. if str_eq k j then keep_if (λ x. not (str_eq v x)) (d.lists j) else d.lists j;
  };
  zadd = λ d k s v. record d {
    scores = λ j w. if str_eq k j && str_eq v w then some s else d.scores j w;
  };
  zrem =
      λ d k v. record d { scores = λ j w. if str_eq k j && str_eq v w then none else d.scores j w };
  zscore = λ d k v. d.scores k v;
  due_by = λ d k now. [];
  payload_of = λ d k. d.payloads k;
  attempts_of = λ d k. d.attempts k;
  hset_job = λ d k p n. record d {
    payloads = λ j. if str_eq k j then some p else d.payloads j;
    attempts = λ j. if str_eq k j then some n else d.attempts j;
  };
  incr_attempts = λ d k. record d {
    attempts = λ j. if str_eq k j then some (counted_up (d.attempts k)) else d.attempts j;
  };
  del_job = λ d k. record d {
    payloads = λ j. if str_eq k j then none else d.payloads j;
    attempts = λ j. if str_eq k j then none else d.attempts j;
  };
  items-lpush = λ d k v j. refl;
  items-rpoplpush = λ d k l j v xs neq p. moved_lem d.lists k l j v xs p;
  items-lrem = λ d k v j. refl;
  items-zadd = λ d k s v j. refl;
  items-zrem = λ d k v j. refl;
  items-hset = λ d k p n j. refl;
  items-incr = λ d k j. refl;
  items-del = λ d k j. refl;
  attempts-incr = λ d k j. refl;
  attempts-del = λ d k j. refl;
  attempts-lpush = λ d k v j. refl;
  attempts-rpoplpush = λ d k l j. refl;
  attempts-lrem = λ d k v j. refl;
  attempts-zadd = λ d k s v j. refl;
  attempts-zrem = λ d k v j. refl;
}

abbrev pub new_memory : Memory
new_memory = record {
  lists = λ k. [];
  scores = λ k v. none;
  payloads = λ k. none;
  attempts = λ k. none;
}

abbrev pub one_job : Memory
one_job = (enqueue memory "q" served served new_memory "d1" "d1").0

abbrev failing : List Op
failing = dequeues served 30 ∷ nacks served "d1" ∷ dequeues lost 60 ∷ nacks served "d1" ∷ []

failing_orderly : orderly_run memory "q" (pos 2) one_job failing ≡ true
unfolding step enqueue try_dequeue dequeue_script last_item nack nack_script pending_key
    processing_key dead_letter_key visibility_key job_key
failing_orderly = refl

one_job_total : total memory "q" one_job "d1" ≡ 1
unfolding enqueue pending_key processing_key dead_letter_key job_key
one_job_total = refl

failing_undoubled : total memory "q" (run memory "q" (pos 2) one_job failing) "d1" ≤ 1
failing_undoubled =
    Conserved.run-undoubled memory "q" (pos 2) failing one_job "d1" failing_orderly
      (omega (arith, one_job_total))

run-kept_example : total memory "q" (run memory "q" (pos 2) one_job failing) "d1" ≡ 1
run-kept_example =
    Conserved.run-kept memory "q" (pos 2) failing one_job "d1" failing_orderly one_job_total refl

-- The visibility timeout passes, the job goes back to pending, and then the slow worker's own nack
-- comes: the job is there twice.
abbrev late_nack : List Op
late_nack = dequeues served 30 ∷ nacks served "d1" ∷ nacks served "d1" ∷ []

late_nack_doubles : total memory "q" (run memory "q" (pos 5) one_job late_nack) "d1" ≡ 2
unfolding run step enqueue try_dequeue dequeue_script last_item nack nack_script pending_key
    processing_key dead_letter_key visibility_key job_key
late_nack_doubles = refl

-- With an ack in its place the job's fields are gone while its id is pending: the next dequeue
-- fails with an error, on which a worker stops.
abbrev late_ack : List Op
late_ack = dequeues served 30 ∷ nacks served "d1" ∷ acks served "d1" ∷ []

late_ack_fails :
    (try_dequeue memory "q" served (run memory "q" (pos 5) one_job late_ack) 90).1
    ≡ parse_failed "d1"
unfolding run step enqueue try_dequeue dequeue_script dequeue_reply last_item nack nack_script ack
    ack_script pending_key processing_key dead_letter_key visibility_key job_key
late_ack_fails = refl

-- A handler that always fails, with two attempts.
abbrev always_fails : String → String → ℕ → Bool
always_fails id payload attempts = false

abbrev minute : ℕ → ℕ
minute k = 60

one_job-IsReady : IsReady (tries memory "q" one_job) (waiting memory "q" one_job)
unfolding enqueue pending_key job_key
one_job-IsReady = record {
  undoubled = λ j. ground arith;
  has_fields = λ j le.
      let e : str_eq j "d1" ≡ true = ground (arith, le) in
      subst (λ x. is_some (tries memory "q" one_job x) ≡ true) (sym ((eq_iff j "d1").0 e)) refl;
}

worker_loop-Drained_example : Drained memory "q" 2 always_fails minute one_job (
    worker_loop memory "q"
      (pos 2)
      always_fails
      2
      (all_served memory "q" 2 always_fails minute)
      one_job)
unfolding enqueue pending_key job_key
worker_loop-Drained_example =
    Drained.worker_loop-Drained memory "q" 2 always_fails minute 2 one_job one_job-IsReady
      (omega arith)
