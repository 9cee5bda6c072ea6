-- ===== src/Policy.antt =====
-- internal/policy: the automatic response to abuse (escalation.go) and the suspension of an account
-- (suspension.go). What a violation counter, the tables and Nomad answer are arguments; a call
-- that is lost has its effect. What the errors say is not modelled.
pub mod Enforced
use redline.Base.{
  ℕ, zero, suc, ◌+◌, ◌-◌, ◌*◌, ◌/◌, ◌%◌, ◌^◌, ◌≤◌, ◌<◌, min, max, String, ◌≡◌, refl, sym, ap, subst,
  ◌∙◌, ◌≢◌, ◌↔◌, ◌⊎◌, inl, inr, Bool, true, false, not, ◌&&◌, ◌||◌, Option, none, some, List, [],
  ◌∷◌, ◌++◌, map, arith, str_eq, eq_iff, ltb, leb, ◌==◌, if◌then◌else◌, Bool-cases, Option-cases,
  length, length-append, keep_if, length-keep_if-le, all_of, any_of, All, contains, ℤ, pos, negsuc,
  pos_part, neg_part, ◌+ℤ◌, ◌*ℤ◌, ◌≤ℤ◌, ltb_ℤ, leb_ℤ, wrap64, IsInt64, wrap64_exact, wrap64-IsInt64,
  +ℤ_parts, eq_of_parts, lookup, insert, delete, lookup-insert, lookup-delete, Call, served,
  refused, lost, is_empty, cut_prefix, has_prefix, cut_prefix-append, In, str_contains, has_suffix,
  sub_ℕ,
}
use redline.Scheduler.State.{executed}

pub data EscalationLevel : Type 0 where
  level_none level_reduced level_suspended : EscalationLevel

pub record EscalationThresholds : Type 0 where
  pub reduce_at : ℤ
  pub suspend_at : ℤ

abbrev pub default_escalation_thresholds : EscalationThresholds
default_escalation_thresholds = record { reduce_at = pos 3; suspend_at = pos 6 }

-- `NewEscalator`.
unfoldable pub effective_thresholds : EscalationThresholds → EscalationThresholds
effective_thresholds t = if leb_ℤ t.reduce_at (pos 0) then default_escalation_thresholds else t

-- A live deployment of the account, with how the stop of its job and the update of its row end.
pub record LiveDeployment : Type 0 where
  pub id : String
  pub on_stop : Call
  pub on_terminate : Call

-- What a suspension has done so far: the rows it terminated, and of its `Result` the ids that it
-- reports and the failed stops. The lists have the newest first.
pub record Suspension : Type 0 where
  pub suspended : Bool
  pub keys_revoked : Bool
  pub stopped : List String
  pub terminated : List String
  pub reported : List String
  pub stop_errors : List String
  pub failed : Bool

abbrev pub is_served : Call → Bool
is_served served = true
is_served _ = false

-- One round of the loop, for a suspension that has not failed.
unfoldable pub terminate_one : Suspension → LiveDeployment → Suspension
terminate_one s d = record s {
  stopped = if executed d.on_stop then d.id ∷ s.stopped else s.stopped;
  stop_errors = if is_served d.on_stop then s.stop_errors else d.id ∷ s.stop_errors;
  terminated = if executed d.on_terminate then d.id ∷ s.terminated else s.terminated;
  reported = if is_served d.on_terminate then d.id ∷ s.reported else s.reported;
  failed = not (is_served d.on_terminate);
}

unfoldable pub terminate_all : Suspension → List LiveDeployment → Suspension
unfolding terminate_one
terminate_all s [] = s
terminate_all s (d ∷ ds) =
    let rest = terminate_all (terminate_one s d) ds in
    if is_served d.on_terminate then rest else terminate_one s d

abbrev pub not_suspended : Suspension
not_suspended = record {
  suspended = false;
  keys_revoked = false;
  stopped = [];
  terminated = [];
  reported = [];
  stop_errors = [];
  failed = false;
}

-- A list of the live deployments that fails is `none`.
unfoldable pub suspend : Call → Call → Option (List LiveDeployment) → Suspension
unfolding terminate_all
suspend on_user on_keys deployments =
    let s = record not_suspended { suspended = executed on_user } in
    let k = record s { keys_revoked = executed on_keys } in
    if not (is_served on_user)
    then record s { failed = true }
    else if not (is_served on_keys)
    then record k { failed = true }
    else elim deployments [ none ↦ record k { failed = true } | some ds ↦ terminate_all k ds ]

-- What a recorded violation leads to. `none` as the level is an error.
pub record Response : Type 0 where
  pub window_set : Bool
  pub reduced : Bool
  pub suspension : Suspension
  pub level : Option EscalationLevel

abbrev pub no_response : Response
no_response = record {
  window_set = false;
  reduced = false;
  suspension = not_suspended;
  level = none;
}

unfoldable pub escalate : EscalationThresholds → ℤ → Response → Suspension → Call → Response
escalate t count r suspension on_reduce =
    if leb_ℤ t.suspend_at count
    then record r {
      suspension = suspension;
      level = if suspension.failed then none else some level_suspended;
    }
    else if leb_ℤ t.reduce_at count
    then record r {
      reduced = executed on_reduce;
      level = if is_served on_reduce then some level_reduced else none;
    }
    else record r { level = some level_none }

-- The count is what the increment returns; `none` is an error. The suspension is what `Suspend` does
-- if it is called.
unfoldable pub record_violation :
    EscalationThresholds → Option ℤ → Call → Suspension → Call → Response
unfolding escalate effective_thresholds
record_violation thresholds none on_expire suspension on_reduce = no_response
record_violation thresholds (some count) on_expire suspension on_reduce =
    let first = leb_ℤ count (pos 1) && leb_ℤ (pos 1) count in
    let r = record no_response { window_set = first && executed on_expire } in
    if first && not (is_served on_expire)
    then r
    else escalate (effective_thresholds thresholds) count r suspension on_reduce
