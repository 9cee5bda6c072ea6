-- ===== src/Queue/Workers/Settled.antt =====
-- internal/queue/ops.go: what the scripts that take and settle a job do to the jobs that wait, the jobs
-- that were given up and the tries.
use redline.Base.{
  ℕ, suc, max, String, ◌≡◌, sym, subst, ◌∙◌, Bool, true, false, Option, none, some, List, [], ◌∷◌,
  ◌++◌, arith, str_eq, leb, if◌then◌else◌, pos,
}
use redline.Redis.{JobStore}
use redline.Queue.{
  pending_key, processing_key, visibility_key, dead_letter_key, job_key, last_item, dequeue_script,
  ack_script, nack_script,
}
use redline.Queue.Places.{
  items-removed, pending≢processing, processing≢pending, pending≢dead, dead≢pending,
  processing≢dead, self,
}
use redline.Queue.Workers.Deliveries.{job_key-eq}

module _ (R : JobStore) (name : String) where
  open R use {
    Db, items, attempts_of, payload_of, lpush, rpoplpush, lrem, zadd, zrem, incr_attempts, del_job,
    items-lpush, items-rpoplpush, items-zadd, items-incr, items-del, attempts-incr, attempts-del,
    attempts-lpush, attempts-rpoplpush, attempts-lrem, attempts-zadd, attempts-zrem,
  }

  -- How often each job was delivered.
  abbrev pub tries : Db → String → Option ℕ
  tries d id = attempts_of d (job_key name id)

  -- The jobs that wait, and those that were given up.
  abbrev pub waiting : Db → List String
  waiting d = items d (pending_key name)

  abbrev pub given_up : Db → List String
  given_up d = items d (dead_letter_key name)

  -- After a script that takes the last waiting job.
  pub record Taken (d e : Db) (ids : List String) : Type 0 where
    pub waits : waiting e ≡ ids
    pub gave_up : given_up e ≡ given_up d
    pub same_tries : (j : String) → tries e j ≡ tries d j

  pub dequeue-Taken :
      (d : Db) (deadline : ℕ) (ids : List String) (id : String)
      → last_item (waiting d) ≡ some id
      → waiting d ≡ ids ++ (id ∷ [])
      → Taken d (dequeue_script R name d deadline) ids
  unfolding dequeue_script
  dequeue-Taken d deadline ids id e p =
      rw (e, dequeue_script)
        (record {
          waits = moved (pending_key name) ∙ ground (arith, self name (pending_key name));
          gave_up =
              moved (dead_letter_key name)
              ∙ ground (arith, pending≢dead name, processing≢dead name);
          same_tries = λ j. attempts-zadd _ _ _ _ _ ∙ attempts-rpoplpush _ _ _ _;
        })
    where
      moved :
          (l : String)
          → items
              (zadd
                (rpoplpush d (pending_key name) (processing_key name))
                (visibility_key name)
                deadline
                id)
              l
            ≡ (if str_eq (pending_key name) l
                then ids
                else if str_eq (processing_key name) l
                then id ∷ items d l
                else items d l)
      moved l =
          items-zadd _ _ _ _ l
          ∙ items-rpoplpush d (pending_key name) (processing_key name) l id ids
              (pending≢processing name) p

  -- After a script that settles a job: what waits, and the tries.
  pub record Settled (d e : Db) (id : String) (ids dead : List String) (v : Option ℕ) : Type 0 where
    pub waits : waiting e ≡ ids
    pub gave_up : given_up e ≡ dead
    pub tried : (j : String) → tries e j ≡ (if str_eq id j then v else tries d j)

  off_list :
      (d : Db) (id l : String)
      → str_eq (processing_key name) l ≡ false
      → items (zrem (lrem d (processing_key name) id) (visibility_key name) id) l ≡ items d l
  off_list d id l h = items-removed R name d id l ∙ ground (arith, h)

  off_tries :
      (d : Db) (id k : String)
      → attempts_of (zrem (lrem d (processing_key name) id) (visibility_key name) id) k
        ≡ attempts_of d k
  off_tries d id k = attempts-zrem _ _ _ _ ∙ attempts-lrem _ _ _ _

  pub ack-Settled :
      (d : Db) (id : String) → Settled d (ack_script R name d id) id (waiting d) (given_up d) none
  unfolding ack_script
  ack-Settled d id = record {
    waits = items-del _ _ _ ∙ off_list d id (pending_key name) (processing≢pending name);
    gave_up = items-del _ _ _ ∙ off_list d id (dead_letter_key name) (processing≢dead name);
    tried = λ j. ground (
      arith,
      attempts-del (zrem (lrem d (processing_key name) id) (visibility_key name) id)
          (job_key name id) (job_key name j),
      job_key-eq name id j,
      off_tries d id (job_key name j),
    );
  }

  -- The job's count after a failure, before it is pushed.
  counted : Db → String → Db
  counted d id =
      incr_attempts (zrem (lrem d (processing_key name) id) (visibility_key name) id)
        (job_key name id)

  pushed-Settled :
      (d : Db) (id : String) (n : ℕ)
      → tries d id ≡ some n
      → Settled d
          (lpush (counted d id) (dead_letter_key name) id)
          id
          (waiting d)
          (id ∷ given_up d)
          (some (suc n))
        × Settled d
            (lpush (counted d id) (pending_key name) id)
            id
            (id ∷ waiting d)
            (given_up d)
            (some (suc n))
  unfolding counted
  pushed-Settled d id n has = (
    record {
      waits =
          items-lpush _ _ _ _
          ∙ ground (
            arith,
            dead≢pending name,
            items-incr off (job_key name id) (pending_key name),
            off_list d id (pending_key name) (processing≢pending name),
          );
      gave_up =
          items-lpush _ _ _ _
          ∙ ground (
            arith,
            self name (dead_letter_key name),
            items-incr off (job_key name id) (dead_letter_key name),
            off_list d id (dead_letter_key name) (processing≢dead name),
          );
      tried = λ j. attempts-lpush _ _ _ _ ∙ recount j;
    },
    record {
      waits =
          items-lpush _ _ _ _
          ∙ ground (
            arith,
            self name (pending_key name),
            items-incr off (job_key name id) (pending_key name),
            off_list d id (pending_key name) (processing≢pending name),
          );
      gave_up =
          items-lpush _ _ _ _
          ∙ ground (
            arith,
            pending≢dead name,
            items-incr off (job_key name id) (dead_letter_key name),
            off_list d id (dead_letter_key name) (processing≢dead name),
          );
      tried = λ j. attempts-lpush _ _ _ _ ∙ recount j;
    },
  )
    where
      off : Db
      off = zrem (lrem d (processing_key name) id) (visibility_key name) id

      recount :
          (j : String)
          → attempts_of (incr_attempts off (job_key name id)) (job_key name j)
            ≡ (if str_eq id j then some (suc n) else tries d j)
      recount j =
          let own : attempts_of off (job_key name id) ≡ some n =
            off_tries d id (job_key name id) ∙ has in
          ground (
            arith,
            attempts-incr off (job_key name id) (job_key name j),
            own,
            job_key-eq name id j,
            off_tries d id (job_key name j),
          )

  nack_script_lem :
      (max : ℕ) (d : Db) (id : String) (n : ℕ)
      → tries d id ≡ some n
      → nack_script R name d (pos max) id ≡ (
          if leb max (suc n)
          then lpush (counted d id) (dead_letter_key name) id
          else lpush (counted d id) (pending_key name) id)
  unfolding nack_script counted
  nack_script_lem max d id n has = ground (arith, has)

  pub nack-Settled :
      (max : ℕ) (d : Db) (id : String) (n : ℕ)
      → tries d id ≡ some n
      → Settled d
          (nack_script R name d (pos max) id)
          id
          (if leb max (suc n) then waiting d else id ∷ waiting d)
          (if leb max (suc n) then id ∷ given_up d else given_up d)
          (some (suc n))
  nack-Settled max d id n has =
      subst
        (λ e.
          Settled d e id (if leb max (suc n) then waiting d else id ∷ waiting d)
            (if leb max (suc n) then id ∷ given_up d else given_up d) (some (suc n)))
        (sym (nack_script_lem max d id n has)) (either (leb max (suc n)))
    where
      either :
          (b : Bool)
          → Settled d
              (if b
                then lpush (counted d id) (dead_letter_key name) id
                else lpush (counted d id) (pending_key name) id)
              id
              (if b then waiting d else id ∷ waiting d)
              (if b then id ∷ given_up d else given_up d)
              (some (suc n))
      either true = (pushed-Settled d id n has).0
      either false = (pushed-Settled d id n has).1
