-- ===== src/Scheduler/Sweeps.antt =====
-- internal/scheduler/reaper.go, orphan.go and warmpool.go: the sweeps that stop idle and orphaned
-- allocations, and the choice of a warm deployment. What Nomad answers to a stop is an argument, a
-- Boolean for each allocation. Logging and the GPU-hours, a float, are not modelled.
use redline.Base.{
  suc, String, ◌≡◌, refl, ap, ◌∙◌, Bool, true, false, not, ◌&&◌, ◌||◌, Option, none, some, List, [],
  ◌∷◌, arith, str_eq, eq_iff, if◌then◌else◌, Bool-cases, Option-cases, length, keep_if, all_of,
  any_of, contains, ℤ, pos, ltb_ℤ, leb_ℤ, Call, is_empty,
}
use redline.Scheduler.State.{
  DeploymentState, ready, draining, same_state, validate_transition, executed, DeploymentStateStore,
}
use redline.Scheduler.Idle.{IdleDuration, idle_for, no_idle_record, idle_unreadable}
use redline.Scheduler.StatusStream.{deployment_id_from_job_id}

-- The fields of `db.Deployment` that the sweeps read.
pub record Deployment : Type 0 where
  pub id : String
  pub allocation_id : Option String
  pub state : DeploymentState

pub record ReapResult : Type 0 where
  pub deployment_id : String
  pub allocation : String
  pub idle : ℤ

-- What the sweep does to one deployment: the store after it, and the result it reports, if any.
pub record Reaped (St : Type 0) : Type 0 where
  pub store : St
  pub reported : Option ReapResult

-- A deployment's allocation id, unless it is missing or empty.
unfoldable pub allocation_of : Deployment → Option String
allocation_of d = elim d.allocation_id [
  | none ↦ none
  | some a ↦ if is_empty a then none else some a
]

-- `NewIdleReaper`: 300 seconds, in milliseconds, unless the threshold is positive.
unfoldable pub idle_threshold : ℤ → ℤ
idle_threshold threshold = if leb_ℤ threshold (pos 0) then pos 300000 else threshold

module _ (S : DeploymentStateStore) (read_idle : String → IdleDuration) (stops : String → Bool)
    (on_update : String → Call) (threshold : ℤ) where
  open S use {Store, state_of, update_state, state_of-update}

  unfoldable pub reap_stopped : Store → Deployment → String → ℤ → Reaped Store
  unfolding validate_transition
  reap_stopped s d a idle = record {
    store = elim (validate_transition ready draining) [
      | none ↦ update_state (on_update d.id) s d.id draining
      | some _ ↦ s
    ];
    reported = some (record { deployment_id = d.id; allocation = a; idle = idle });
  }

  unfoldable pub reap_idle : Store → Deployment → String → ℤ → Reaped Store
  unfolding reap_stopped
  reap_idle s d a idle =
      if ltb_ℤ idle threshold
      then record { store = s; reported = none }
      else if stops a
      then reap_stopped s d a idle
      else record { store = s; reported = none }

  unfoldable pub reap_deployment : Store → Deployment → Reaped Store
  unfolding reap_idle
  reap_deployment s d = elim (allocation_of d) [
    | none ↦ record { store = s; reported = none }
    | some a ↦ elim (read_idle a) [
      | idle_for idle ↦ reap_idle s d a idle
      | no_idle_record ↦ record { store = s; reported = none }
      | idle_unreadable ↦ record { store = s; reported = none }
    ]
  ]

  unfoldable pub reap_store : Store → List Deployment → Store
  reap_store s [] = s
  reap_store s (d ∷ ds) = reap_store (reap_deployment s d).store ds

  abbrev pub report : Option ReapResult → List ReapResult → List ReapResult
  report none rest = rest
  report (some r) rest = r ∷ rest

  unfoldable pub reap_results : Store → List Deployment → List ReapResult
  reap_results s [] = []
  reap_results s (d ∷ ds) =
      let r = reap_deployment s d in report r.reported (reap_results r.store ds)

  -- Whether a deployment's allocation is known to have been idle for the threshold, and stops.
  abbrev pub is_due_after : String → IdleDuration → Bool
  is_due_after a (idle_for idle) = not (ltb_ℤ idle threshold) && stops a
  is_due_after a no_idle_record = false
  is_due_after a idle_unreadable = false

  abbrev pub is_due : Deployment → Bool
  is_due d = elim (allocation_of d) [ none ↦ false | some a ↦ is_due_after a (read_idle a) ]

  state_of-reap :
      (s : Store) (d : Deployment) (j : String)
      → state_of (reap_deployment s d).store j ≡ (
          if is_due d && executed (on_update d.id) && str_eq d.id j
          then elim (state_of s j) [ none ↦ none | some _ ↦ some draining ]
          else state_of s j)
  unfolding reap_deployment
  state_of-reap s d j =
      ground
        (arith, Option-cases (allocation_of d), state_of-update (on_update d.id) s d.id draining j)

  -- What the sweep leaves of one deployment's state.
  abbrev pub swept : List Deployment → String → Option DeploymentState → Option DeploymentState
  swept ds j none = none
  swept ds j (some state) =
      if any_of (λ d. is_due d && executed (on_update d.id) && str_eq d.id j) ds
      then some draining
      else some state

  state_of-reap_store :
      (ds : List Deployment) (s : Store) (j : String)
      → state_of (reap_store s ds) j ≡ swept ds j (state_of s j)
  unfolding reap_store
  state_of-reap_store [] s j = ground (arith, Option-cases (state_of s j))
  state_of-reap_store (d ∷ ds) s j = ground (
    arith,
    Option-cases (state_of s j),
    state_of-reap s d j,
    state_of-reap_store ds (reap_deployment s d).store j,
  )

  abbrev pub justified : ReapResult → Bool
  justified r = not (ltb_ℤ r.idle threshold) && stops r.allocation

  reported-justified :
      (s : Store) (d : Deployment) (rest : List ReapResult)
      → (all_of justified (report (reap_deployment s d).reported rest) ≡ all_of justified rest)
        × (length (report (reap_deployment s d).reported rest)
            ≡ (if is_due d then suc (length rest) else length rest))
  unfolding reap_deployment
  reported-justified s d rest = (
    ground (arith, Option-cases (allocation_of d)),
    ground (arith, Option-cases (allocation_of d)),
  )

  -- What is reported of an allocation, in front of the rest.
  abbrev pub report_after : Deployment → String → IdleDuration → List ReapResult → List ReapResult
  report_after d a (idle_for idle) rest =
      if not (ltb_ℤ idle threshold) && stops a
      then record { deployment_id = d.id; allocation = a; idle = idle } ∷ rest
      else rest
  report_after d a no_idle_record rest = rest
  report_after d a idle_unreadable rest = rest

  abbrev pub reports : List Deployment → List ReapResult
  reports [] = []
  reports (d ∷ ds) =
      let rest = reports ds in
      elim (allocation_of d) [ none ↦ rest | some a ↦ report_after d a (read_idle a) rest ]

  report-after :
      (s : Store) (d : Deployment) (rest : List ReapResult)
      → report (reap_deployment s d).reported rest
        ≡ elim (allocation_of d) [ none ↦ rest | some a ↦ report_after d a (read_idle a) rest ]
  unfolding reap_deployment
  report-after s d rest = ground (arith, Option-cases (allocation_of d))

  reap_results-reports : (ds : List Deployment) (s : Store) → reap_results s ds ≡ reports ds
  unfolding reap_results
  reap_results-reports [] s = refl
  reap_results-reports (d ∷ ds) s =
      ap (λ rest. report (reap_deployment s d).reported rest)
        (reap_results-reports ds (reap_deployment s d).store)
      ∙ report-after s d (reports ds)

  results-justified :
      (ds : List Deployment) (s : Store)
      → (all_of justified (reap_results s ds) ≡ true)
        × (length (reap_results s ds) ≡ length (keep_if is_due ds))
  unfolding reap_results
  results-justified [] s = (refl, refl)
  results-justified (d ∷ ds) s =
      let (all, size) = results-justified ds (reap_deployment s d).store in
      let (one, grows) = reported-justified s d (reap_results (reap_deployment s d).store ds) in
      (ground (arith, all, one), ground (arith, size, grows))

module _ (S : DeploymentStateStore) (read_idle : String → IdleDuration) (stops : String → Bool)
    (on_update : String → Call) (threshold : ℤ) where
  open S use {Store, state_of}

  -- A sweep reports, in order, the deployment, the allocation and the idle time of each deployment
  -- whose idle time can be read and is at least the threshold and whose stop succeeded: of as
  -- many as were due. It sets to draining the deployments
  -- that were due and whose update comes through, and changes no other state.
  pub reap-drains :
      (ds : List Deployment) (s : Store)
      → (reap_results S read_idle stops on_update threshold s ds
          ≡ reports S read_idle stops on_update threshold ds)
        × (all_of
              (justified S read_idle stops on_update threshold)
              (reap_results S read_idle stops on_update threshold s ds)
            ≡ true)
        × (length (reap_results S read_idle stops on_update threshold s ds)
            ≡ length (keep_if (is_due S read_idle stops on_update threshold) ds))
        × ((j : String)
            → state_of (reap_store S read_idle stops on_update threshold s ds) j
              ≡ swept S read_idle stops on_update threshold ds j (state_of s j))
  reap-drains ds s =
      let (all, size) = results-justified S read_idle stops on_update threshold ds s in
      (
        reap_results-reports S read_idle stops on_update threshold ds s,
        all,
        size,
        λ j. state_of-reap_store S read_idle stops on_update threshold ds s j,
      )

-- `ListByState` that fails has `none`; so has `Reap` then.
unfoldable pub reap :
    (S : DeploymentStateStore)
    → (String → IdleDuration)
    → (String → Bool)
    → (String → Call)
    → ℤ
    → S.Store
    → Option (List Deployment)
    → Option (List ReapResult)
unfolding idle_threshold reap_results
reap S read_idle stops on_update threshold s none = none
reap S read_idle stops on_update threshold s (some ds) =
    some (reap_results S read_idle stops on_update (idle_threshold threshold) s ds)

-- The allocation stubs that Nomad lists.
pub record AllocationStub : Type 0 where
  pub stub_id : String
  pub stub_job : String
  pub stub_status : String

unfoldable pub live_allocation_status : String → Bool
live_allocation_status status = str_eq status "pending" || str_eq status "running"

-- The keys of `knownAllocationIDs`.
unfoldable pub known_allocation_ids : List Deployment → List String
unfolding allocation_of
known_allocation_ids [] = []
known_allocation_ids (d ∷ ds) =
    let rest = known_allocation_ids ds in elim (allocation_of d) [ none ↦ rest | some a ↦ a ∷ rest ]

-- The checks of the loop: the job is the gateway's, the allocation lives, no record knows it.
unfoldable pub is_orphan : List String → AllocationStub → Bool
unfolding live_allocation_status
is_orphan known alloc = elim (deployment_id_from_job_id alloc.stub_job) [
  | none ↦ false
  | some _ ↦ live_allocation_status alloc.stub_status && not (contains alloc.stub_id known)
]

-- The ids for which `StopAllocation` is called, in order.
unfoldable pub stop_calls : List String → List AllocationStub → List String
unfolding is_orphan
stop_calls known [] = []
stop_calls known (alloc ∷ allocs) =
    let rest = stop_calls known allocs in
    if is_orphan known alloc then alloc.stub_id ∷ rest else rest

-- The ids that `Reconcile` returns: those whose stop succeeds. A list that fails has `none`.
unfoldable pub reconcile :
    (String → Bool) → Option (List AllocationStub) → Option (List Deployment) → Option (List String)
unfolding stop_calls known_allocation_ids
reconcile stops none active = none
reconcile stops (some allocs) none = none
reconcile stops (some allocs) (some active) =
    some (keep_if stops (stop_calls (known_allocation_ids active) allocs))

-- `FindWarmDeployment`: the first ready one; a list that fails has `none` as its result.
unfoldable pub first_ready : List Deployment → Option Deployment
first_ready [] = none
first_ready (d ∷ ds) =
    let rest = first_ready ds in if same_state d.state ready then some d else rest

unfoldable pub find_warm_deployment : Option (List Deployment) → Option (Option Deployment)
unfolding first_ready
find_warm_deployment none = none
find_warm_deployment (some ds) = some (first_ready ds)

contains-known :
    (ds : List Deployment) (a : String)
    → contains a (known_allocation_ids ds)
      ≡ any_of (λ d. elim (allocation_of d) [ none ↦ false | some b ↦ str_eq a b ]) ds
unfolding known_allocation_ids
contains-known [] a = refl
contains-known (d ∷ ds) a = ground (arith, Option-cases (allocation_of d), contains-known ds a)

-- Whether an allocation is a live one of the gateway's.
abbrev pub is_live_inference : AllocationStub → Bool
is_live_inference alloc = elim (deployment_id_from_job_id alloc.stub_job) [
  | none ↦ false
  | some _ ↦ contains alloc.stub_status ("pending" ∷ "running" ∷ [])
]

abbrev pub backs : String → Deployment → Bool
backs a d = elim (allocation_of d) [ none ↦ false | some b ↦ str_eq a b ]

contains-stopped :
    (stops : String → Bool) (known : List String) (allocs : List AllocationStub) (a : String)
    → contains a (keep_if stops (stop_calls known allocs)) ≡ (
        stops a
        && not (contains a known)
        && any_of (λ alloc. is_live_inference alloc && str_eq a alloc.stub_id) allocs)
unfolding stop_calls is_orphan live_allocation_status
contains-stopped stops known [] a =
    ground (arith, Bool-cases (stops a), Bool-cases (contains a known))
contains-stopped stops known (alloc ∷ allocs) a = ground (
  arith,
  eq_iff a alloc.stub_id,
  contains-stopped stops known allocs a,
  Option-cases (deployment_id_from_job_id alloc.stub_job),
)

-- Where both lists arrive, the reconciler returns exactly the allocations that Nomad lists as
-- pending or running ones of the gateway's, that no active deployment holds, and whose stop succeeds.
pub reconcile-exact :
    (stops : String → Bool) (allocs : List AllocationStub) (active : List Deployment)
    → (stopped : List String) × (reconcile stops (some allocs) (some active) ≡ some stopped)
      × ((a : String)
          → contains a stopped ≡ (
              stops a
              && not (any_of (backs a) active)
              && any_of (λ alloc. is_live_inference alloc && str_eq a alloc.stub_id) allocs))
unfolding reconcile
reconcile-exact stops allocs active = (
  _,
  refl,
  λ a. ground (
    arith,
    contains-stopped stops (known_allocation_ids active) allocs a,
    contains-known active a,
  ),
)
