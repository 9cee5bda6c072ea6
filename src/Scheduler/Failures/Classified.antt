-- ===== src/Scheduler/Failures/Classified.antt =====
-- When internal/scheduler/failures.go reports a failure, and which.
use redline.Base.{String, ◌≡◌, ◌↔◌, false, Option, none, some, List, [], ◌∷◌, arith, str_eq}
use mathlib.Core.List.{reverse}
use redline.Scheduler.Failures.{
  TaskEvent, Allocation, classify_task_event, classify_events, classify_tasks,
  classify_allocation_failure,
}

module _ (lower : String → String) (driver_failure not_restarting terminated : String) where
  -- No event of the list, last first, is one that `classifyTaskEvent` classifies.
  abbrev pub NoEvent : String → String → List (Option TaskEvent) → Type 0
  NoEvent id task [] = Unit {0}
  NoEvent id task (ev ∷ evs) =
      (classify_task_event lower driver_failure not_restarting terminated id task ev ≡ none)
      × NoEvent id task evs

  -- No event of any task is.
  abbrev pub NoTask : String → List (String × Option (List (Option TaskEvent))) → Type 0
  NoTask id [] = Unit {0}
  NoTask id ((task, none) ∷ tasks) = NoTask id tasks
  NoTask id ((task, some evs) ∷ tasks) = NoEvent id task (reverse evs) × NoTask id tasks

  classify_events-none :
      (id task : String) (evs : List (Option TaskEvent))
      → (classify_events lower driver_failure not_restarting terminated id task evs ≡ none)
        ↔ NoEvent id task evs
  unfolding classify_events
  classify_events-none id task [] = ground arith
  classify_events-none id task (ev ∷ evs) = ground (arith, classify_events-none id task evs)

  classify_tasks-none :
      (id : String) (tasks : List (String × Option (List (Option TaskEvent))))
      → (classify_tasks lower driver_failure not_restarting terminated id tasks ≡ none)
        ↔ NoTask id tasks
  unfolding classify_tasks
  classify_tasks-none id [] = ground arith
  classify_tasks-none id ((task, none) ∷ tasks) = classify_tasks-none id tasks
  classify_tasks-none id ((task, some evs) ∷ tasks) =
      ground (arith, classify_events-none id task (reverse evs), classify_tasks-none id tasks)

  -- An allocation has no failure exactly when none of its tasks' events is classified and its
  -- status is not "failed".
  pub classify-none :
      (a : Allocation)
      → (classify_allocation_failure lower driver_failure not_restarting terminated (some a) ≡ none)
        ↔ (NoTask a.id a.task_states × (str_eq a.client_status "failed" ≡ false))
  unfolding classify_allocation_failure
  classify-none a = ground (arith, classify_tasks-none a.id a.task_states)
