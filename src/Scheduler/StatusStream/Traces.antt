-- ===== src/Scheduler/StatusStream/Traces.antt =====
-- What a stream of allocation events does to the states of the deployments.
use redline.Base.{
  String, ◌≡◌, refl, ap, subst, inl, inr, Bool, true, false, ◌&&◌, Option, none, some, List, [],
  ◌∷◌, arith, str_eq, eq_iff, if◌then◌else◌, Bool-cases, Option-cases, Call, is_empty,
  cut_prefix-append,
}
use redline.Scheduler.State.{
  DeploymentState, same_state, validate_transition, is_terminal, ReadResult, read, read_failed,
  executed, DeploymentStateStore,
}
use redline.Scheduler.State.Legal.{Legal, stay, move, Legal-terminal}
use redline.Scheduler.StatusStream.{
  inference_job_id, deployment_id_from_job_id, map_allocation_state, Allocation, Event, Batch,
  nil_batch, err_batch, events, apply_transition, record_allocation, handle_event, handle_events,
  handle_batch, run,
}

-- The deployment behind a job is recovered from the job's id, for every id but the empty one.
pub deployment_id-job_id :
    (id : String) → is_empty id ≡ false → deployment_id_from_job_id (inference_job_id id) ≡ some id
unfolding deployment_id_from_job_id inference_job_id
deployment_id-job_id id h = ground (arith, cut_prefix-append "inference-" id)

abbrev pub Moves : Option DeploymentState → Option DeploymentState → Type 0
Moves none after = after ≡ none
Moves (some d) after = (e : DeploymentState) × (after ≡ some e) × Legal d e

Moves-refl : (o : Option DeploymentState) → Moves o o
Moves-refl none = refl
Moves-refl (some d) = (d, refl, stay)

Legal-trans : {d e f : DeploymentState} → Legal d e → Legal e f → Legal d f
Legal-trans p stay = p
Legal-trans p (move q h) = move (Legal-trans p q) h

Moves-trans : (o p q : Option DeploymentState) → Moves o p → Moves p q → Moves o q
Moves-trans none none q h k = k
Moves-trans none (some e) q h k = cc
Moves-trans (some d) none q (e, h, l) k = cc
Moves-trans (some d) (some e) q (e', h, l) (f, k, m) =
    (f, k, Legal-trans l (subst (λ x. Legal x f) (ground arith) m))

guarded-Moves :
    (b : Bool) (o : Option DeploymentState) (next : DeploymentState)
    → (b ≡ true → (d : DeploymentState) × (o ≡ some d) × (validate_transition d next ≡ none))
    → Moves o (if b then elim o [ none ↦ none | some _ ↦ some next ] else o)
guarded-Moves false o next h = Moves-refl o
guarded-Moves true none next h = refl
guarded-Moves true (some d) next h =
    let (d', e, v) = h refl in
    (next, refl, move stay (subst (λ x. validate_transition x next ≡ none) (ground arith) v))

module _ (S : DeploymentStateStore) where
  open S use {Store, state_of, current-read, state_of-update, state_of-set_allocation}

  update-Moves :
      (c : Call) (s : Store) (id : String) (d next : DeploymentState)
      → state_of s id ≡ some d
      → validate_transition d next ≡ none
      → (j : String) → Moves (state_of s j) (state_of (S.update_state c s id next) j)
  update-Moves c s id d next h v j = rw (state_of-update c s id next j) (
      guarded-Moves (executed c && str_eq id j) (state_of s j) next
        (λ b. (d, ground (arith, eq_iff id j), v)))

  apply_transition-Moves :
      (c : Call) (s : Store) (id : String) (next : DeploymentState) (r : ReadResult)
      → ((d : DeploymentState) → r ≡ read d → state_of s id ≡ some d)
      → (j : String) → Moves (state_of s j) (state_of (apply_transition S c s id next r) j)
  unfolding apply_transition
  apply_transition-Moves c s id next read_failed h j = Moves-refl _
  apply_transition-Moves c s id next (read d) h j =
      elim (Option-cases (validate_transition d next)) [
        | inr (_, e) ↦ rw (e, apply_transition) (Moves-refl _)
        | inl e ↦ elim (Bool-cases (same_state d next)) [
          | inl same ↦ rw (e, apply_transition) (rw same (Moves-refl _))
          | inr differs ↦
              rw (e, apply_transition) (rw differs (update-Moves c s id d next (h d refl) e j))
        ]
      ]

  record_allocation-Moves :
      (ev : Event) (s : Store) (id : String) (a : Allocation) (j : String)
      → Moves (state_of s j) (state_of (record_allocation S ev s id a) j)
  unfolding record_allocation
  record_allocation-Moves ev s id a j = elim (Option-cases (map_allocation_state a.client_status)) [
    | inl e ↦ rw (e, record_allocation) (rw (state_of-set_allocation) (Moves-refl _))
    | inr (next, e) ↦
        rw (e, record_allocation)
          (subst
            (λ o. Moves o (
              state_of
                (apply_transition S ev.on_update s' id next (S.current_state ev.on_read s' id)) j))
            (state_of-set_allocation ev.on_set s id a.alloc_id j)
            (apply_transition-Moves ev.on_update s' id next _ (current-read ev.on_read s' id) j))
  ]
    where
      s' : Store
      s' = S.set_allocation_id ev.on_set s id a.alloc_id

  handle_event-Moves :
      (s : Store) (ev : Event) (j : String)
      → Moves (state_of s j) (state_of (handle_event S s ev) j)
  unfolding handle_event
  handle_event-Moves s ev j = elim (Option-cases ev.allocation) [
    | inl e ↦ rw (e, handle_event) (Moves-refl _)
    | inr (a, e) ↦ elim (Option-cases (deployment_id_from_job_id a.job_id)) [
      | inl f ↦ rw (e, handle_event) (rw (f, handle_event) (Moves-refl _))
      | inr (id, f) ↦
          rw (e, handle_event) (rw (f, handle_event) (record_allocation-Moves ev s id a j))
    ]
  ]

  handle_events-Moves :
      (s : Store) (evs : List Event) (j : String)
      → Moves (state_of s j) (state_of (handle_events S s evs) j)
  unfolding handle_events
  handle_events-Moves s [] j = Moves-refl _
  handle_events-Moves s (ev ∷ evs) j =
      Moves-trans (state_of s j) (state_of (handle_event S s ev) j) _ (handle_event-Moves s ev j)
        (handle_events-Moves (handle_event S s ev) evs j)

  handle_batch-Moves :
      (s : Store) (b : Batch) (j : String) → Moves (state_of s j) (state_of (handle_batch S s b) j)
  unfolding handle_batch
  handle_batch-Moves s nil_batch j = Moves-refl _
  handle_batch-Moves s err_batch j = Moves-refl _
  handle_batch-Moves s (events evs) j = handle_events-Moves s evs j

  run_any-Moves :
      (s : Store) (bs : List Batch) (j : String) → Moves (state_of s j) (state_of (run S s bs) j)
  unfolding run
  run_any-Moves s [] j = Moves-refl _
  run_any-Moves s (b ∷ bs) j =
      Moves-trans (state_of s j) (state_of (handle_batch S s b) j) _ (handle_batch-Moves s b j)
        (run_any-Moves (handle_batch S s b) bs j)

  -- Whatever batches of events arrive, and however the calls of the store end, a deployment that
  -- is in the store stays there, and its state changes along transitions that
  -- `ValidateTransition` accepts.
  pub run-Legal :
      (s : Store) (bs : List Batch) (j : String) (d : DeploymentState)
      → state_of s j ≡ some d
      → (e : DeploymentState) × (state_of (run S s bs) j ≡ some e) × Legal d e
  run-Legal s bs j d h = subst (λ o. Moves o (state_of (run S s bs) j)) h (run_any-Moves s bs j)

  -- A deployment in a terminal state keeps it, whatever batches of events arrive.
  pub run-terminal :
      (s : Store) (bs : List Batch) (j : String) (d : DeploymentState)
      → state_of s j ≡ some d
      → is_terminal d ≡ true
      → state_of (run S s bs) j ≡ some d
  run-terminal s bs j d h t =
      let (e, after, p) = run-Legal s bs j d h in rw after (ap some (Legal-terminal t p))
