-- ===== src/Scheduler/Failures.antt =====
-- internal/scheduler/failures.go: why an allocation failed. Nomad's records hold what the code
-- reads of them; a nil pointer is `none`, and a map is the list of its entries in the order of
-- one iteration. `lower` is `strings.ToLower`; the three event types are constants of Nomad's.
pub mod Classified
use redline.Base.{
  ℕ, zero, suc, ◌+◌, ◌-◌, ◌*◌, ◌/◌, ◌%◌, ◌^◌, ◌≤◌, ◌<◌, min, max, String, ◌≡◌, refl, sym, ap, subst,
  ◌∙◌, ◌≢◌, ◌↔◌, ◌⊎◌, inl, inr, Bool, true, false, not, ◌&&◌, ◌||◌, Option, none, some, List, [],
  ◌∷◌, ◌++◌, map, arith, str_eq, eq_iff, ltb, leb, ◌==◌, if◌then◌else◌, Bool-cases, Option-cases,
  length, length-append, keep_if, length-keep_if-le, all_of, any_of, All, contains, ℤ, pos, negsuc,
  pos_part, neg_part, ◌+ℤ◌, ◌*ℤ◌, ◌≤ℤ◌, ltb_ℤ, leb_ℤ, wrap64, IsInt64, wrap64_exact, wrap64-IsInt64,
  +ℤ_parts, eq_of_parts, lookup, insert, delete, lookup-insert, lookup-delete, Call, served,
  refused, lost, is_empty, cut_prefix, has_prefix, cut_prefix-append, In, str_contains, has_suffix,
}
use Prim.Native.String.{◌++◌ as str_append}
use mathlib.Core.List.{reverse}

pub data FailureClass : Type 0 where
  placement image_pull oom_killed task_crash unknown : FailureClass

pub record AllocationFailureError : Type 0 where
  pub class : FailureClass
  pub alloc_id : String
  pub task_name : String
  pub message : String

pub record TaskEvent : Type 0 where
  pub event_type : String
  pub display_message : String
  pub event_message : String
  pub details : List (String × String)

pub record Allocation : Type 0 where
  pub id : String
  pub client_status : String
  pub task_states : List (String × Option (List (Option TaskEvent)))

pub record AllocationMetric : Type 0 where
  pub nodes_exhausted : ℕ
  pub dimension_exhausted : List (String × ℕ)
  pub constraint_filtered : List (String × ℕ)

abbrev pub reads : String → String → List (String × String) → Bool
reads key value details = elim (lookup key details) [ none ↦ false | some v ↦ str_eq v value ]

module _ (lower : String → String) (driver_failure not_restarting terminated : String) where
  unfoldable pub event_text : TaskEvent → String
  event_text ev = lower (str_append ev.display_message (str_append " " ev.event_message))

  unfoldable pub looks_like_image_pull_failure : TaskEvent → Bool
  unfolding event_text
  looks_like_image_pull_failure ev =
      let msg = event_text ev in
      str_contains msg "pull"
      || str_contains msg "manifest unknown"
      || str_contains msg "no such image"

  unfoldable pub is_oom_event : TaskEvent → Bool
  unfolding event_text
  is_oom_event ev =
      let msg = event_text ev in
      if reads "oom_killed" "true" ev.details
      then true
      else str_contains msg "oom" || str_contains msg "out of memory"

  -- A missing "exit_code" reads as "", which is not "0".
  unfoldable pub is_crash_event : TaskEvent → Bool
  is_crash_event ev =
      str_eq ev.event_type not_restarting
      || (str_eq ev.event_type terminated && not (reads "exit_code" "0" ev.details))

  unfoldable pub classify_task_event :
      String → String → Option TaskEvent → Option AllocationFailureError
  classify_task_event alloc_id task none = none
  classify_task_event alloc_id task (some ev) =
      if str_eq ev.event_type driver_failure && looks_like_image_pull_failure ev
      then some (record {
        class = image_pull;
        alloc_id = alloc_id;
        task_name = task;
        message = ev.display_message;
      })
      else if is_oom_event ev
      then some (record {
        class = oom_killed;
        alloc_id = alloc_id;
        task_name = task;
        message = ev.display_message;
      })
      else if is_crash_event ev
      then some (record {
        class = task_crash;
        alloc_id = alloc_id;
        task_name = task;
        message = ev.display_message;
      })
      else none

  -- The loop over a task's events; the caller hands them over last first.
  unfoldable pub classify_events :
      String → String → List (Option TaskEvent) → Option AllocationFailureError
  classify_events alloc_id task [] = none
  classify_events alloc_id task (ev ∷ evs) =
      let rest = classify_events alloc_id task evs in
      elim (classify_task_event alloc_id task ev) [ some failure ↦ some failure | none ↦ rest ]

  unfoldable pub classify_tasks :
      String → List (String × Option (List (Option TaskEvent))) → Option AllocationFailureError
  classify_tasks alloc_id [] = none
  classify_tasks alloc_id ((task, none) ∷ tasks) = classify_tasks alloc_id tasks
  classify_tasks alloc_id ((task, some evs) ∷ tasks) =
      let rest = classify_tasks alloc_id tasks in
      elim (classify_events alloc_id task (reverse evs)) [
        | some failure ↦ some failure
        | none ↦ rest
      ]

  unfoldable pub classify_allocation_failure : Option Allocation → Option AllocationFailureError
  classify_allocation_failure none = none
  classify_allocation_failure (some alloc) = elim (classify_tasks alloc.id alloc.task_states) [
    | some failure ↦ some failure
    | none ↦
        if str_eq alloc.client_status "failed"
        then some (record {
          class = unknown;
          alloc_id = alloc.id;
          task_name = "";
          message = "allocation failed with no classifiable task event";
        })
        else none
  ]

-- What the placement failure's message reports; the text with its numbers is left out.
pub data PlacementSummary : Type 0 where
  no_metric exhausted no_eligible_node : PlacementSummary
  dimension constraint : String → ℕ → PlacementSummary

unfoldable pub summarize_placement_failure : Option AllocationMetric → PlacementSummary
summarize_placement_failure none = no_metric
summarize_placement_failure (some metric) =
    if ltb 0 metric.nodes_exhausted then exhausted else elim metric.dimension_exhausted [
      | (dim, count) ∷ _ ↦ dimension dim count
      | [] ↦ elim metric.constraint_filtered [
        | (c, count) ∷ _ ↦ constraint c count
        | [] ↦ no_eligible_node
      ]
    ]

-- The failed task groups of an evaluation: the class of the failure, its group, and its summary.
unfoldable pub classify_evaluation_failure :
    Option (List (String × Option AllocationMetric))
    → Option (FailureClass × String × PlacementSummary)
unfolding summarize_placement_failure
classify_evaluation_failure none = none
classify_evaluation_failure (some []) = none
classify_evaluation_failure (some ((group, metric) ∷ _)) =
    some (placement, group, summarize_placement_failure metric)
