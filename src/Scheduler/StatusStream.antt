-- ===== src/Scheduler/StatusStream.antt =====
-- internal/scheduler/statusstream.go: allocation events from Nomad become deployment states.
-- The stream is a list of the batches that arrive until it closes or the context ends; each event
-- comes with how the three calls of the store end.
pub mod Traces
use redline.Base.{
  ℕ, zero, suc, ◌+◌, ◌-◌, ◌*◌, ◌/◌, ◌%◌, ◌^◌, ◌≤◌, ◌<◌, min, max, String, ◌≡◌, refl, sym, ap, subst,
  ◌∙◌, ◌≢◌, ◌↔◌, ◌⊎◌, inl, inr, Bool, true, false, not, ◌&&◌, ◌||◌, Option, none, some, List, [],
  ◌∷◌, ◌++◌, map, arith, str_eq, eq_iff, ltb, leb, ◌==◌, if◌then◌else◌, Bool-cases, Option-cases,
  length, length-append, keep_if, length-keep_if-le, all_of, any_of, All, contains, ℤ, pos, negsuc,
  pos_part, neg_part, ◌+ℤ◌, ◌*ℤ◌, ◌≤ℤ◌, ltb_ℤ, leb_ℤ, wrap64, IsInt64, wrap64_exact, wrap64-IsInt64,
  +ℤ_parts, eq_of_parts, lookup, insert, delete, lookup-insert, lookup-delete, Call, served,
  refused, lost, is_empty, cut_prefix, has_prefix, cut_prefix-append,
}
use Prim.Native.String.{◌++◌ as str_append}
use redline.Scheduler.State.{
  DeploymentState, provisioning, ready, terminated, failed, other, same_state, validate_transition,
  ReadResult, read, read_failed, DeploymentStateStore,
}

abbrev pub inference_job_prefix : String
inference_job_prefix = "inference-"

-- `InferenceJobID` of internal/nomadclient/jobspec.go.
unfoldable pub inference_job_id : String → String
inference_job_id deployment_id = str_append "inference-" deployment_id

-- `none` is the pair of "" and false.
unfoldable pub deployment_id_from_job_id : String → Option String
deployment_id_from_job_id job_id = elim (cut_prefix job_id inference_job_prefix) [
  | none ↦ none
  | some deployment_id ↦ if is_empty deployment_id then none else some deployment_id
]

-- `none` is the empty state, "no meaningful transition".
unfoldable pub map_allocation_state : String → Option DeploymentState
map_allocation_state status =
    if str_eq status "pending"
    then some provisioning
    else if str_eq status "running"
    then some ready
    else if str_eq status "complete"
    then some terminated
    else if str_eq status "failed" || str_eq status "lost"
    then some failed
    else none

-- The fields of Nomad's allocation that the handler reads.
pub record Allocation : Type 0 where
  pub alloc_id : String
  pub job_id : String
  pub client_status : String

-- An event whose payload does not decode to an allocation has `none`.
pub record Event : Type 0 where
  pub allocation : Option Allocation
  pub on_set : Call
  pub on_read : Call
  pub on_update : Call

pub data Batch : Type 0 where
  nil_batch err_batch : Batch
  events : List Event → Batch

module _ (S : DeploymentStateStore) where
  open S use {Store, state_of, current_state, update_state, set_allocation_id}

  -- What the handler does once it knows the current state.
  unfoldable pub apply_transition : Call → Store → String → DeploymentState → ReadResult → Store
  apply_transition c s id next read_failed = s
  apply_transition c s id next (read current) = elim (validate_transition current next) [
    | some _ ↦ s
    | none ↦ if same_state current next then s else update_state c s id next
  ]

  -- What the handler does for one of the gateway's own allocations.
  unfoldable pub record_allocation : Event → Store → String → Allocation → Store
  unfolding apply_transition
  record_allocation ev s id alloc =
      let s' = set_allocation_id ev.on_set s id alloc.alloc_id in
      elim (map_allocation_state alloc.client_status) [
        | none ↦ s'
        | some next ↦ apply_transition ev.on_update s' id next (current_state ev.on_read s' id)
      ]

  unfoldable pub handle_event : Store → Event → Store
  unfolding record_allocation
  handle_event s ev = elim ev.allocation [
    | none ↦ s
    | some alloc ↦ elim (deployment_id_from_job_id alloc.job_id) [
      | none ↦ s
      | some id ↦ record_allocation ev s id alloc
    ]
  ]

  unfoldable pub handle_events : Store → List Event → Store
  handle_events s [] = s
  handle_events s (ev ∷ evs) = handle_events (handle_event s ev) evs

  unfoldable pub handle_batch : Store → Batch → Store
  handle_batch s nil_batch = s
  handle_batch s err_batch = s
  handle_batch s (events evs) = handle_events s evs

  unfoldable pub run : Store → List Batch → Store
  run s [] = s
  run s (b ∷ bs) = run (handle_batch s b) bs
