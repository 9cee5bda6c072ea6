-- ===== src/Scheduler/State.antt =====
-- internal/scheduler/state.go: the life of a deployment as a state machine, and the store that
-- keeps each deployment's state.
pub mod Legal
use redline.Base.{
  ℕ, zero, suc, ◌+◌, ◌-◌, ◌*◌, ◌/◌, ◌%◌, ◌^◌, ◌≤◌, ◌<◌, min, max, String, ◌≡◌, refl, sym, ap, subst,
  ◌∙◌, ◌≢◌, ◌↔◌, ◌⊎◌, inl, inr, Bool, true, false, not, ◌&&◌, ◌||◌, Option, none, some, List, [],
  ◌∷◌, ◌++◌, map, arith, str_eq, eq_iff, ltb, leb, ◌==◌, if◌then◌else◌, Bool-cases, Option-cases,
  length, length-append, keep_if, length-keep_if-le, all_of, any_of, All, contains, ℤ, pos, negsuc,
  pos_part, neg_part, ◌+ℤ◌, ◌*ℤ◌, ◌≤ℤ◌, ltb_ℤ, leb_ℤ, wrap64, IsInt64, wrap64_exact, wrap64-IsInt64,
  +ℤ_parts, eq_of_parts, lookup, insert, delete, lookup-insert, lookup-delete, Call, served,
  refused, lost,
}

-- `DeploymentState` is a string in the source; `other` is any string that no constant names.
pub data DeploymentState : Type 0 where
  queued provisioning warming ready draining terminated failed : DeploymentState
  other : String → DeploymentState

-- `==` on the strings that the states are.
unfoldable pub same_state : DeploymentState → DeploymentState → Bool
same_state queued queued = true
same_state provisioning provisioning = true
same_state warming warming = true
same_state ready ready = true
same_state draining draining = true
same_state terminated terminated = true
same_state failed failed = true
same_state (other s) (other t) = str_eq s t
same_state _ _ = false

unfoldable pub legal_transitions : DeploymentState → List DeploymentState
legal_transitions queued = provisioning ∷ failed ∷ []
legal_transitions provisioning = warming ∷ ready ∷ failed ∷ []
legal_transitions warming = ready ∷ failed ∷ []
legal_transitions ready = draining ∷ failed ∷ []
legal_transitions draining = terminated ∷ failed ∷ []
legal_transitions _ = []

pub data TransitionError : Type 0 where
  illegal_transition : DeploymentState → DeploymentState → TransitionError

-- `none` is the nil error.
unfoldable pub validate_transition : DeploymentState → DeploymentState → Option TransitionError
unfolding same_state legal_transitions
validate_transition from to =
    if same_state from to
    then none
    else if any_of (λ allowed. same_state allowed to) (legal_transitions from)
    then none
    else some (illegal_transition from to)

unfoldable pub is_terminal : DeploymentState → Bool
unfolding legal_transitions
is_terminal state = length (legal_transitions state) == 0

-- `CurrentState` fails where there is no such deployment or the call does not come through.
pub data ReadResult : Type 0 where
  read : DeploymentState → ReadResult
  read_failed : ReadResult

abbrev pub executed : Call → Bool
executed refused = false
executed _ = true

-- The interface `DeploymentStateStore`, which the source fills from the database. `state_of` is
-- the state column of the row with an id, if there is such a row.
pub record DeploymentStateStore : Type 1 where
  pub Store : Type 0
  pub state_of : Store → String → Option DeploymentState
  pub current_state : Call → Store → String → ReadResult
  pub update_state : Call → Store → String → DeploymentState → Store
  pub set_allocation_id : Call → Store → String → String → Store
  pub current-state_of :
      (s : Store) (id : String)
      → current_state served s id ≡ elim (state_of s id) [ none ↦ read_failed | some d ↦ read d ]
  pub current-read :
      (c : Call) (s : Store) (id : String) (d : DeploymentState)
      → current_state c s id ≡ read d
      → state_of s id ≡ some d
  -- an update of a row that is not there changes nothing
  pub state_of-update :
      (c : Call) (s : Store) (id : String) (d : DeploymentState) (j : String)
      → state_of (update_state c s id d) j ≡ (
          if executed c && str_eq id j
          then elim (state_of s j) [ none ↦ none | some _ ↦ some d ]
          else state_of s j)
  pub state_of-set_allocation :
      (c : Call) (s : Store) (id alloc : String) (j : String)
      → state_of (set_allocation_id c s id alloc) j ≡ state_of s j
