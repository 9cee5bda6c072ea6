-- ===== src/Tests/Sweeps.antt =====
-- Witnesses for the sweeps, the ceilings and the degraded dispatch of internal/scheduler.
use redline.Base.{
  String, ◌≡◌, refl, true, false, not, ◌&&◌, Option, none, some, List, [], ◌∷◌, str_eq,
  if◌then◌else◌, length, keep_if, all_of, any_of, contains, ℤ, pos, Call, served, refused, lost,
  sub_ℕ,
}
use redline.Tests.Memory.{state_table, StateTable, numbers, job_table, JobTable}
use redline.Scheduler.State.{ready}
use redline.Scheduler.Idle.{IdleDuration, idle_for, no_idle_record, idle_duration, touch, forget}
use redline.Scheduler.Idle
use redline.Scheduler.Ceiling.{
  ceiling_for, ceiling, no_ceiling, downgrades, lowest, vram_ceiling_key,
}
use redline.Scheduler.Ceiling
use redline.Scheduler.Sweeps.{
  Deployment, AllocationStub, reap_results, reports, reap_store, justified, is_due, swept,
  reconcile, backs, is_live_inference,
}
use redline.Scheduler.Sweeps
use redline.Scheduler.Degraded.{Dispatcher, submit_job_idempotent, already_existed}
use redline.Scheduler.Degraded

abbrev no_numbers : String → Option ℤ
no_numbers k = none

idle_after_touch :
    (idle_duration numbers served (touch numbers served no_numbers "a" 10) "a" 25 ≡ (
      if str_eq "a" "a"
      then idle_for (sub_ℕ 25 10)
      else idle_duration numbers served no_numbers "a" 25))
    × (idle_duration numbers served (forget numbers served no_numbers "a") "a" 25 ≡ (
        if str_eq "a" "a" then no_idle_record else idle_duration numbers served no_numbers "a" 25))
idle_after_touch = Idle.idle_duration_lem numbers no_numbers "a" "a" 10 25

abbrev failures : List (Call × String × ℤ)
failures = (served, "n1", pos 70) ∷ (lost, "n1", pos 60) ∷ (refused, "n1", pos 10) ∷ []

ceiling_of_two :
    ceiling_for numbers served (downgrades numbers no_numbers failures) "n1"
    ≡ elim (lowest "n1" (no_numbers (vram_ceiling_key "n1")) failures) [
      | none ↦ no_ceiling
      | some bytes ↦ ceiling bytes
    ]
ceiling_of_two = Ceiling.ceiling_for-downgrades numbers failures no_numbers "n1"

abbrev two_ready : StateTable
two_ready id = some ready

abbrev idle_of : String → IdleDuration
idle_of a = if str_eq a "a1" then idle_for (pos 400000) else idle_for (pos 10)

abbrev deployments : List Deployment
deployments =
    record { id = "d1"; allocation_id = some "a1"; state = ready }
    ∷ record { id = "d2"; allocation_id = some "a2"; state = ready }
    ∷ []

reap-drains_example :
    (reap_results state_table idle_of (λ _. true) (λ _. served) (pos 300000) two_ready deployments
      ≡ reports state_table idle_of (λ _. true) (λ _. served) (pos 300000) deployments)
    × (all_of (justified state_table idle_of (λ _. true) (λ _. served) (pos 300000)) (
          reap_results state_table idle_of
            (λ _. true)
            (λ _. served)
            (pos 300000)
            two_ready
            deployments)
        ≡ true)
    × (length (
          reap_results state_table idle_of
            (λ _. true)
            (λ _. served)
            (pos 300000)
            two_ready
            deployments)
        ≡ length (
            keep_if
              (is_due state_table idle_of (λ _. true) (λ _. served) (pos 300000))
              deployments))
    × ((j : String)
        → reap_store state_table idle_of
            (λ _. true)
            (λ _. served)
            (pos 300000)
            two_ready
            deployments
            j
          ≡ swept state_table idle_of
              (λ _. true)
              (λ _. served)
              (pos 300000)
              deployments
              j
              (two_ready j))
reap-drains_example =
    Sweeps.reap-drains state_table idle_of (λ _. true) (λ _. served) (pos 300000) deployments
      two_ready

abbrev stubs : List AllocationStub
stubs =
    record { stub_id = "a1"; stub_job = "inference-d1"; stub_status = "running" }
    ∷ record { stub_id = "a9"; stub_job = "inference-d9"; stub_status = "running" }
    ∷ []

reconcile-exact_example :
    (stopped : List String) × (reconcile (λ _. true) (some stubs) (some deployments) ≡ some stopped)
    × ((a : String)
        → contains a stopped ≡ (
            true
            && not (any_of (backs a) deployments)
            && any_of (λ alloc. is_live_inference alloc && str_eq a alloc.stub_id) stubs))
reconcile-exact_example = Sweeps.reconcile-exact (λ _. true) stubs deployments

abbrev no_jobs : JobTable
no_jobs id = none

abbrev idle_dispatcher : Dispatcher JobTable
idle_dispatcher = record { nomad = no_jobs; retry_queue = []; degraded = false }

resubmitted_once :
    submit_job_idempotent job_table served served
      (submit_job_idempotent job_table refused lost no_jobs (some "inference-d1")).world
      (some "inference-d1")
    ≡ record {
      world = (submit_job_idempotent job_table refused lost no_jobs (some "inference-d1")).world;
      outcome = already_existed;
    }
resubmitted_once = Degraded.resubmit-idempotent job_table no_jobs "inference-d1" refused served refl
