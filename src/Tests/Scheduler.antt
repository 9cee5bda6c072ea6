-- ===== src/Tests/Scheduler.antt =====
-- Witnesses for the modules of internal/scheduler.
use redline.Base.{
  ℕ, ◌-◌, ◌≤◌, ◌≡◌, refl, ◌↔◌, ◌⊎◌, inl, false, ◌&&◌, none, some, List, [], ◌∷◌, arith, str_eq,
  if◌then◌else◌, any_of, pos, ◌*ℤ◌, leb_ℤ, wrap64, served,
}
use redline.Tests.Memory.{hashes, HashDb, state_table, StateTable}
use redline.Scheduler.State.{
  DeploymentState, queued, ready, failed, same_state, legal_transitions, validate_transition,
  is_terminal, illegal_transition,
}
use redline.Scheduler.State.Legal
use redline.Scheduler.State.Legal.{Legal}
use redline.Scheduler.StatusStream.{
  Event, Batch, err_batch, events, run, inference_job_id, deployment_id_from_job_id,
}
use redline.Scheduler.StatusStream.Traces
use redline.Scheduler.GpuBinding.{gpu_binding_key, tenant_for}
use redline.Scheduler.GpuBinding.Refinement.{Stands, held}
use redline.Scheduler.GpuBinding.Isolation
use redline.Scheduler.GpuBinding.Isolation.{binds, releases, zeroes}
use redline.Scheduler.Retry.{
  default_retry_policy, next_delay, backoff_ceiling, normalize, decide, retry,
}
use redline.Scheduler.Retry.Backoff
use redline.Scheduler.Retry.Backoff.{InRange, ceiling}
use redline.Scheduler.BinPacking.{NodeCapacity, select_node}
use redline.Scheduler.BinPacking.BestFit
use redline.Scheduler.BinPacking.BestFit.{IsRight}
use redline.Scheduler.Failures.{
  AllocationFailureError, placement, Allocation as FailedAllocation, classify_allocation_failure,
}
use redline.Scheduler.Failures.Classified

-- One deployment, "d1", which is ready.
abbrev one_ready : StateTable
one_ready id = if str_eq "d1" id then some ready else none

abbrev lost_event : Event
lost_event = record {
  allocation = some (record { alloc_id = "a1"; job_id = "inference-d1"; client_status = "lost" });
  on_set = served;
  on_read = served;
  on_update = served;
}

abbrev pending_event : Event
pending_event = record lost_event {
  allocation =
      some (record { alloc_id = "a1"; job_id = "inference-d1"; client_status = "pending" });
}

abbrev two_batches : List Batch
two_batches =
    events (pending_event ∷ lost_event ∷ []) ∷ err_batch ∷ events (pending_event ∷ []) ∷ []

run-Legal_example :
    (e : DeploymentState) × (run state_table one_ready two_batches "d1" ≡ some e) × Legal ready e
run-Legal_example = Traces.run-Legal state_table one_ready two_batches "d1" ready refl

abbrev one_failed : StateTable
one_failed id = some failed

run-terminal_example : run state_table one_failed two_batches "d1" ≡ some failed
unfolding is_terminal
run-terminal_example = Traces.run-terminal state_table one_failed two_batches "d1" failed refl refl

id_of_d1 : deployment_id_from_job_id (inference_job_id "d1") ≡ some "d1"
id_of_d1 = Traces.deployment_id-job_id "d1" refl

validate-fails_example :
    (validate_transition ready queued ≡ some (illegal_transition ready queued)) ↔ (
      (same_state ready queued ≡ false)
      × (any_of (λ f. same_state f queued) (legal_transitions ready) ≡ false))
validate-fails_example = Legal.validate-fails ready queued

abbrev held_by_t : HashDb
held_by_t k f =
    if str_eq k "gpu:binding:g1" && str_eq f "tenant_id"
    then some "t"
    else if str_eq k "gpu:binding:g1" && str_eq f "allocation_id"
    then some "a"
    else none

held_by_t-Stands : Stands hashes held_by_t (gpu_binding_key "g1") (held "t" "a")
unfolding gpu_binding_key
held_by_t-Stands = record { tenant = refl; allocation = refl; zeroing = refl }

abbrev ops : List Isolation.Op
ops = releases served "g1" "a" ∷ binds served "g1" "u" "b" ∷ zeroes false served "g1" ∷ []

run-refines_example :
    Stands hashes
      (Isolation.run hashes held_by_t ops)
      (gpu_binding_key "g1")
      (Isolation.spec_run "g1" (held "t" "a") ops)
run-refines_example =
    Isolation.run-refines hashes ops held_by_t "g1" (held "t" "a") held_by_t-Stands

tenant-isolation_example :
    (tenant_for hashes (Isolation.run hashes held_by_t ops) "g1" ≡ none)
    ⊎ (tenant_for hashes (Isolation.run hashes held_by_t ops) "g1" ≡ some "t")
tenant-isolation_example =
    Isolation.tenant-isolation hashes ops held_by_t "g1" "t" "a" (inl held_by_t-Stands) refl

default-InRange : InRange default_retry_policy
default-InRange = record { base = omega arith; cap = omega arith }

backoff_ceiling-exact_example :
    backoff_ceiling (normalize default_retry_policy) (pos 5)
    ≡ pos (ceiling default_retry_policy (pos 5))
backoff_ceiling-exact_example =
    Backoff.backoff_ceiling-exact default_retry_policy (pos 5) default-InRange

delay_bounded :
    (d : ℕ) × (next_delay (λ n. n - 1) default_retry_policy (pos 70) ≡ some (pos d))
    × (d ≤ ceiling default_retry_policy (pos 70))
delay_bounded =
    Backoff.next_delay_bounded (λ n. n - 1) default_retry_policy (pos 70) (λ k h. omega arith)
      default-InRange (omega arith)

-- The fifth delay is drawn from up to 32 seconds.
fifth_ceiling : backoff_ceiling default_retry_policy (pos 5) ≡ pos 32000000000
unfolding backoff_ceiling wrap64 ◌*ℤ◌
fifth_ceiling = refl

abbrev no_node : AllocationFailureError
no_node = record { class = placement; alloc_id = ""; task_name = "inference"; message = "none" }

no_node_retried : (decide (λ _. 0) default_retry_policy (some no_node) (pos 8) ≡ retry none) ↔ (
    (no_node.class ≡ placement)
    × (leb_ℤ (normalize default_retry_policy).max_attempts (pos 8) ≡ false)
    × (none ≡ next_delay (λ _. 0) (normalize default_retry_policy) (pos 8)))
no_node_retried = Backoff.decide-retry (λ _. 0) default_retry_policy no_node (pos 8) none

abbrev nodes : List NodeCapacity
nodes =
    record { node_id = "n1"; free_vram_bytes = pos 80 }
    ∷ record { node_id = "n2"; free_vram_bytes = pos 40 }
    ∷ record { node_id = "n3"; free_vram_bytes = pos 24 }
    ∷ []

select_node-best_fit_example : IsRight nodes (pos 30) (select_node nodes (pos 30))
select_node-best_fit_example = BestFit.select_node-best_fit nodes (pos 30)

abbrev quiet : FailedAllocation
quiet = record { id = "a1"; client_status = "failed"; task_states = ("engine", none) ∷ [] }

unclassified_allocation :
    (classify_allocation_failure (λ s. s) "df" "nr" "t" (some quiet) ≡ none) ↔ (
      Classified.NoTask (λ s. s) "df" "nr" "t" "a1" quiet.task_states
      × (str_eq "failed" "failed" ≡ false))
unclassified_allocation = Classified.classify-none (λ s. s) "df" "nr" "t" quiet
