-- ===== src/Deployments/Stored.antt =====
-- internal/db/deployments.go as the store of states that internal/scheduler/state.go asks for: the rows
-- meet the interface's laws.
use redline.Base.{
  String, ◌≡◌, refl, ◌∙◌, ◌⊎◌, inl, inr, Bool, ◌&&◌, Option, none, some, List, [], ◌∷◌, arith,
  str_eq, eq_iff, if◌then◌else◌, Call, served, refused, lost,
}
use redline.Scheduler.State.{
  DeploymentState, DeploymentStateStore, ReadResult, read, read_failed, executed,
}
use redline.Auth.Sessions.{StoreError}
use redline.Deployments.{
  DeploymentRow, row_with_id, change_row, change_deployment, get_deployment,
  update_deployment_state, set_deployment_allocation,
}

abbrev pub state_of_row : Option DeploymentRow → Option DeploymentState
state_of_row none = none
state_of_row (some r) = some r.state

unfoldable pub stored_state : List DeploymentRow → String → Option DeploymentState
stored_state rows id = state_of_row (row_with_id id rows)

abbrev pub read_row : DeploymentRow ⊎ StoreError → ReadResult
read_row (inl r) = read r.state
read_row (inr e) = read_failed

unfoldable pub read_state : Call → List DeploymentRow → String → ReadResult
read_state c rows id = read_row (get_deployment c rows id)

pub current_lem :
    (rows : List DeploymentRow) (id : String)
    → read_state served rows id
      ≡ elim (stored_state rows id) [ none ↦ read_failed | some d ↦ read d ]
unfolding read_state stored_state get_deployment
current_lem rows id = ground arith

pub current-read_lem :
    (c : Call) (rows : List DeploymentRow) (id : String) (d : DeploymentState)
    → read_state c rows id ≡ read d
    → stored_state rows id ≡ some d
unfolding read_state stored_state get_deployment
current-read_lem c rows id d h = ground (arith, h)

changed_state :
    (f : DeploymentRow → DeploymentRow) (g : DeploymentState → DeploymentState) (id : String)
    (rows : List DeploymentRow) (j : String)
    → ((r : DeploymentRow) → ((f r).state ≡ g r.state) × ((f r).id ≡ r.id))
    → stored_state (change_row f id rows) j ≡ (
        if str_eq id j
        then elim (stored_state rows j) [ none ↦ none | some s ↦ some (g s) ]
        else stored_state rows j)
unfolding stored_state change_row row_with_id
changed_state f g id [] j h = ground arith
changed_state f g id (r ∷ rows) j h =
    ground (arith, h r, eq_iff id j, eq_iff id r.id, eq_iff j r.id, changed_state f g id rows j h)

pub state_of-update_lem :
    (c : Call) (rows : List DeploymentRow) (id : String) (d : DeploymentState) (j : String)
    → stored_state (update_deployment_state c rows id d) j ≡ (
        if executed c && str_eq id j
        then elim (stored_state rows j) [ none ↦ none | some _ ↦ some d ]
        else stored_state rows j)
unfolding update_deployment_state change_deployment
state_of-update_lem refused rows id d j = refl
state_of-update_lem served rows id d j =
    changed_state (λ r. record r { state = d }) (λ s. d) id rows j (λ r. (refl, refl))
state_of-update_lem lost rows id d j =
    changed_state (λ r. record r { state = d }) (λ s. d) id rows j (λ r. (refl, refl))

same_update :
    (b : Bool) (o : Option DeploymentState)
    → (if b then elim o [ none ↦ none | some s ↦ some s ] else o) ≡ o
same_update b o = ground arith

pub state_of-set_allocation_lem :
    (c : Call) (rows : List DeploymentRow) (id alloc : String) (j : String)
    → stored_state (set_deployment_allocation c rows id alloc) j ≡ stored_state rows j
unfolding set_deployment_allocation change_deployment
state_of-set_allocation_lem refused rows id alloc j = refl
state_of-set_allocation_lem served rows id alloc j =
    changed_state (λ r. record r { allocation_id = some alloc }) (λ s. s) id rows j
      (λ r. (refl, refl))
    ∙ same_update (str_eq id j) (stored_state rows j)
state_of-set_allocation_lem lost rows id alloc j =
    changed_state (λ r. record r { allocation_id = some alloc }) (λ s. s) id rows j
      (λ r. (refl, refl))
    ∙ same_update (str_eq id j) (stored_state rows j)

-- The table of deployments as that store.
abbrev pub deployment_store : DeploymentStateStore
deployment_store = record {
  Store = List DeploymentRow;
  state_of = stored_state;
  current_state = read_state;
  update_state = update_deployment_state;
  set_allocation_id = set_deployment_allocation;
  current-state_of = current_lem;
  current-read = current-read_lem;
  state_of-update = state_of-update_lem;
  state_of-set_allocation = state_of-set_allocation_lem;
}
