-- ===== src/Scheduler/Degraded.antt =====
-- internal/scheduler/degraded.go, and internal/nomadclient/idempotent.go that it submits through.
-- Nomad is an interface: which job it knows under an id, and what registering one does. What the
-- errors say is not modelled.
use redline.Base.{
  String, ◌≡◌, ◌⊎◌, Bool, true, false, not, ◌&&◌, Option, none, some, List, ◌∷◌, arith, str_eq,
  eq_iff, if◌then◌else◌, Option-cases, Call, served, refused, lost, is_empty,
}

-- Nomad's `Jobs().Info` and the registration of a job. `status_of` is the status of the job that
-- is registered under an id; a job that has none there reads as `none`.
pub record Nomad : Type 1 where
  pub World : Type 0
  pub info : World → String → Option (Option String)
  pub register : Call → World → String → World
  pub evaluation : World → String → String
  pub register-refused : (w : World) (id : String) → register refused w id ≡ w
  pub register-lost : (w : World) (id : String) → register lost w id ≡ register served w id
  -- a job is pending from its registration on
  pub info-register :
      (w : World) (id j : String)
      → info (register served w id) j ≡ (if str_eq id j then some (some "pending") else info w j)

pub data Submission : Type 0 where
  submitted : String → Submission
  already_existed : Submission
  submit_failed missing_id : Submission

pub record Submitted (W : Type 0) : Type 0 where
  pub world : W
  pub outcome : Submission

abbrev pub dead_status : String
dead_status = "dead"

-- Whether a job that `Info` returned is live: its status is missing or not "dead".
unfoldable pub is_live : Option String → Bool
is_live none = true
is_live (some status) = not (str_eq status dead_status)

module _ (N : Nomad) where
  open N use {World, info, register, evaluation, register-lost, info-register}

  unfoldable pub submit_job : Call → World → String → Submitted World
  submit_job served w id = record {
    world = register served w id;
    outcome = submitted (evaluation w id);
  }
  submit_job refused w id = record { world = register refused w id; outcome = submit_failed }
  submit_job lost w id = record { world = register lost w id; outcome = submit_failed }

  -- `info` of a job that Nomad does not know is an error, as is a call that does not come through.
  unfoldable pub submit_job_idempotent : Call → Call → World → Option String → Submitted World
  unfolding is_live submit_job
  submit_job_idempotent on_info on_register w none = record { world = w; outcome = missing_id }
  submit_job_idempotent served on_register w (some id) =
      if is_empty id then record { world = w; outcome = missing_id } else elim (info w id) [
        | none ↦ submit_job on_register w id
        | some status ↦
            if is_live status
            then record { world = w; outcome = already_existed }
            else submit_job on_register w id
      ]
  submit_job_idempotent _ on_register w (some id) =
      if is_empty id
      then record { world = w; outcome = missing_id }
      else submit_job on_register w id

-- The dispatcher's own state is the flag; the retry queue is the list of the payloads in it.
pub record Dispatcher (W : Type 0) : Type 0 where
  pub nomad : W
  pub retry_queue : List String
  pub degraded : Bool

pub data DispatchResult : Type 0 where
  dispatched : String → DispatchResult
  queued_for_retry dispatch_failed : DispatchResult

pub record Dispatched (W : Type 0) : Type 0 where
  pub dispatcher : Dispatcher W
  pub result : DispatchResult

-- Whether an enqueue reached the queue, and whether it reports so.
unfoldable pub enqueue_deployment : Call → List String → String → List String
enqueue_deployment refused queue deployment = queue
enqueue_deployment _ queue deployment = deployment ∷ queue

unfoldable pub fall_back : {W : Type 0} → Call → Dispatcher W → W → String → Dispatched W
unfolding enqueue_deployment
fall_back on_enqueue d w deployment = record {
  dispatcher = record {
    nomad = w;
    retry_queue = enqueue_deployment on_enqueue d.retry_queue deployment;
    degraded = true;
  };
  result = elim on_enqueue [
    | served ↦ queued_for_retry
    | refused ↦ dispatch_failed
    | lost ↦ dispatch_failed
  ];
}

unfoldable pub settle : {W : Type 0} → Call → Dispatcher W → String → Submitted W → Dispatched W
unfolding fall_back
settle on_enqueue d deployment r = elim r.outcome [
  | submitted evaluation ↦ record {
    dispatcher = record { nomad = r.world; retry_queue = d.retry_queue; degraded = false };
    result = dispatched evaluation;
  }
  | already_existed ↦ record {
    dispatcher = record { nomad = r.world; retry_queue = d.retry_queue; degraded = false };
    result = dispatched "";
  }
  | submit_failed ↦ fall_back on_enqueue d r.world deployment
  | missing_id ↦ fall_back on_enqueue d r.world deployment
]

unfoldable pub dispatch :
    (N : Nomad)
    → Call
    → Call
    → Call
    → Dispatcher N.World
    → String
    → Option String
    → Dispatched N.World
unfolding settle
dispatch N on_info on_register on_enqueue d deployment job =
    settle on_enqueue d deployment (submit_job_idempotent N on_info on_register d.nomad job)

abbrev pub is_served : Call → Bool
is_served served = true
is_served _ = false

abbrev pub is_dispatched : DispatchResult → Bool
is_dispatched (dispatched evaluation) = true
is_dispatched _ = false

abbrev pub is_dead : Option String → Bool
is_dead none = false
is_dead (some status) = str_eq status "dead"

abbrev pub has_id : Option String → Bool
has_id none = false
has_id (some id) = not (is_empty id)

module _ (N : Nomad) where
  open N use {World, info, register, info-register}

  -- Nomad knows the job, and not as a dead one.
  abbrev pub IsRunning : World → Option String → Type 0
  IsRunning w job =
      (id : String) × (status : Option String) × (job ≡ some id)
      × (info w id ≡ some status)
      × (is_dead status ≡ false)

  -- What a submission ends in.
  abbrev SubmitEnd : Call → Option String → Submitted World → Type 0
  SubmitEnd on_register job r = elim r.outcome [
    | submitted evaluation ↦ IsRunning r.world job
    | already_existed ↦ IsRunning r.world job
    | submit_failed ↦ (is_served on_register && has_id job) ≡ false
    | missing_id ↦ (is_served on_register && has_id job) ≡ false
  ]

  -- What a dispatch ends in: the job runs, and the queue is as it was; or the deployment is put into
  -- the queue by an enqueue that the result tells of, and Nomad was not served the registration.
  abbrev pub Accounted :
      Call → Call → Dispatcher World → String → Option String → Dispatched World → Type 0
  Accounted on_register on_enqueue d deployment job r =
      (IsRunning r.dispatcher.nomad job
        × (r.dispatcher.degraded ≡ false)
        × (r.dispatcher.retry_queue ≡ d.retry_queue)
        × (is_dispatched r.result ≡ true))
      ⊎ (((is_served on_register && has_id job) ≡ false)
          × (r.dispatcher.degraded ≡ true)
          × (r.dispatcher.retry_queue ≡ enqueue_deployment on_enqueue d.retry_queue deployment)
          × (r.result ≡ (if is_served on_enqueue then queued_for_retry else dispatch_failed)))

module _ (N : Nomad) where
  open N use {World, info, register, register-lost, info-register}

  -- A submission whose reply was lost and that is sent again registers nothing more: the second
  -- call, if its lookup is served, leaves Nomad as it is and reports that the job already existed.
  pub resubmit-idempotent :
      (w : World) (id : String) (on_info c : Call)
      → is_empty id ≡ false
      → (submit_job_idempotent N served c
          (submit_job_idempotent N on_info lost w (some id)).world
          (some id))
        ≡ record {
          world = (submit_job_idempotent N on_info lost w (some id)).world;
          outcome = already_existed;
        }
  unfolding submit_job_idempotent
  resubmit-idempotent w id on_info c h =
      ground (
        arith,
        h,
        Option-cases (info w id),
        register-lost w id,
        info-register w id id,
        eq_iff id id,
      )
