-- ===== src/Scheduler/State/Legal.antt =====
-- What the table of legal transitions of internal/scheduler/state.go means for a deployment's life.
use redline.Base.{
  ℕ, ◌≤◌, ◌<◌, ◌≡◌, refl, ap, ◌↔◌, ◌⊎◌, inl, true, false, none, some, arith, eq_iff, any_of,
}
use redline.Scheduler.State.{
  DeploymentState, queued, provisioning, warming, ready, draining, other, same_state,
  legal_transitions, validate_transition, is_terminal, illegal_transition,
}

-- A sequence of transitions that `ValidateTransition` accepts.
pub data Legal (d : DeploymentState) : DeploymentState → Type 0 where
  stay : Legal d d
  move : {e f : DeploymentState} → Legal d e → validate_transition e f ≡ none → Legal d f

pub same_state→eq : (d e : DeploymentState) → same_state d e ≡ true → d ≡ e
unfolding same_state
same_state→eq (other s) (other t) h = ap other ((eq_iff s t).0 h)
same_state→eq d e h = ground arith

pub same_state_refl : (d : DeploymentState) → same_state d d ≡ true
unfolding same_state
same_state_refl (other s) = (eq_iff s s).1 refl
same_state_refl d = ground arith

-- How far a deployment has come.
abbrev pub stage : DeploymentState → ℕ
stage queued = 0
stage provisioning = 1
stage warming = 2
stage ready = 3
stage draining = 4
stage _ = 5

validate-cases :
    (d e : DeploymentState) → validate_transition d e ≡ none → (d ≡ e) ⊎ (stage d < stage e)
unfolding validate_transition
validate-cases d e h = ground (arith, same_state→eq d e)

-- Along accepted transitions a deployment changes its state only to a later stage.
pub Legal-stage : {d e : DeploymentState} → Legal d e → (d ≡ e) ⊎ (stage d < stage e)
Legal-stage stay = inl refl
Legal-stage {d} (move {e} {f} p h) = ground (arith, Legal-stage p, validate-cases e f h)

terminal-stage : (d e : DeploymentState) → is_terminal d ≡ true → stage e ≤ stage d
unfolding is_terminal
terminal-stage d e h = ground arith

-- A terminal state is never left.
pub Legal-terminal : {d e : DeploymentState} → is_terminal d ≡ true → Legal d e → e ≡ d
Legal-terminal {d} {e} t p = ground (arith, Legal-stage p, terminal-stage d e t)

-- `ValidateTransition` fails exactly on the pairs of different states that the table does not
-- list, and the error names the two states.
pub validate-fails :
    (d e : DeploymentState)
    → (validate_transition d e ≡ some (illegal_transition d e))
      ↔ ((same_state d e ≡ false) × (any_of (λ f. same_state f e) (legal_transitions d) ≡ false))
unfolding validate_transition
validate-fails d e = ground arith
