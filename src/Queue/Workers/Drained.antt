-- ===== src/Queue/Workers/Drained.antt =====
-- internal/queue/workerpool.go: a worker empties the queue.
use redline.Base.{
  ℕ, zero, suc, ◌+◌, ◌-◌, ◌≤◌, ◌<◌, String, ◌≡◌, refl, sym, ap, subst, ◌∙◌, inl, inr, Bool, true,
  false, Option, none, some, List, [], ◌∷◌, ◌++◌, arith, str_eq, eq_iff, leb, if◌then◌else◌,
  Bool-cases, Option-cases, pos, served,
}
use redline.Redis.{JobStore}
use redline.Queue.{
  or_empty, job_key, last_item, dequeue_script, dequeue_reply, try_dequeue, ack, ack_script, nack,
  nack_script,
}
use redline.Queue.Places.{occurrences, occurrences-snoc, last_item-none, last_item-snoc}
use redline.Queue.Workers.{Round, process, worker_loop}
use redline.Queue.Workers.Deliveries.{
  weight, deliveries, is_some, IsReady, deliveries-snoc, deliveries-same, others_same,
  taken-IsReady, requeued-IsReady,
}
use redline.Queue.Workers.Settled.{
  tries, waiting, given_up, Taken, Settled, dequeue-Taken, ack-Settled, nack-Settled,
}

module _ (R : JobStore) (name : String) (max : ℕ) where
  open R use {Db, payload_of}

  -- What one job's delivery does to the queue.
  record Progress (fails : String → Type 0) (d e : Db) : Type 0 where
    ready : IsReady (tries R name e) (waiting R name e)
    lighter :
        suc (deliveries max (tries R name e) (waiting R name e))
        ≤ deliveries max (tries R name d) (waiting R name d)
    kept :
        (j : String)
        → fails j
        → occurrences j (waiting R name e) + occurrences j (given_up R name e)
          ≡ occurrences j (waiting R name d) + occurrences j (given_up R name d)

  -- The last waiting R name job of `d` is taken, and settled with `v` tries R name.
  module _ (fails : String → Type 0) (d d' e : Db) (id : String) (ids : List String) (n : ℕ)
      (p : waiting R name d ≡ ids ++ (id ∷ []))
      (ready : IsReady (tries R name d) (waiting R name d)) (has : tries R name d id ≡ some n)
      (taken : Taken R name d d' ids) where
    end-IsReady : IsReady (tries R name d) (ids ++ (id ∷ []))
    end-IsReady = subst (IsReady (tries R name d)) p ready

    changed :
        (waits dead : List String) (v : Option ℕ)
        → Settled R name d' e id waits dead v
        → (j : String) → tries R name e j ≡ (if str_eq id j then v else tries R name d j)
    changed waits dead v s j = ground (arith, s.tried j, taken.same_tries j)

    before :
        deliveries max (tries R name d) (waiting R name d)
        ≡ deliveries max (tries R name d) ids + suc (max - suc n)
    before =
        ap (deliveries max (tries R name d)) p
        ∙ deliveries-snoc max (tries R name d) ids id
        ∙ ap (λ o. deliveries max (tries R name d) ids + weight max o) has

    count_before :
        (j : String)
        → occurrences j (waiting R name d) ≡ (if str_eq j id then 1 else 0) + occurrences j ids
    count_before j = ap (occurrences j) p ∙ ground (arith, occurrences-snoc j id ids)

    after :
        (waits dead : List String) (v : Option ℕ)
        → Settled R name d' e id waits dead v
        → deliveries max (tries R name e) ids ≡ deliveries max (tries R name d) ids
    after waits dead v s = deliveries-same max (tries R name d) (tries R name e) ids (
        others_same (tries R name d) (tries R name e) id ids v end-IsReady (changed waits dead v s))

    -- The job is done with: acked, or on the dead-letter list.
    gone-Progress :
        (dead : List String) (v : Option ℕ)
        → Settled R name d' e id (waiting R name d') dead v
        → ((j : String)
            → fails j
            → occurrences j dead
              ≡ (if str_eq j id then 1 else 0) + occurrences j (given_up R name d))
        → Progress fails d e
    gone-Progress dead v s counts = record {
      ready = subst (IsReady (tries R name e)) (sym (s.waits ∙ taken.waits)) (
          taken-IsReady (tries R name d) (tries R name e) id ids v end-IsReady
            (changed (waiting R name d') dead v s));
      lighter =
          subst
            (λ x.
              suc (deliveries max (tries R name e) x)
              ≤ deliveries max (tries R name d) (waiting R name d))
            (sym (s.waits ∙ taken.waits))
            (omega (arith, before, after (waiting R name d') dead v s));
      kept = λ j f. omega (
        arith,
        counts j f,
        ap (occurrences j) (s.waits ∙ taken.waits),
        ap (occurrences j) s.gave_up,
        count_before j,
      );
    }

    -- The job failed and waits again.
    again-Progress :
        suc n < max
        → Settled R name d' e id (id ∷ waiting R name d') (given_up R name d') (some (suc n))
        → Progress fails d e
    again-Progress tries_left s = record {
      ready = subst (IsReady (tries R name e)) (sym (s.waits ∙ ap (λ x. id ∷ x) taken.waits)) (
          requeued-IsReady (tries R name d) (tries R name e) id ids (some (suc n)) end-IsReady
            (changed (id ∷ waiting R name d') (given_up R name d') (some (suc n)) s) refl);
      lighter =
          subst
            (λ x.
              suc (deliveries max (tries R name e) x)
              ≤ deliveries max (tries R name d) (waiting R name d))
            (sym (s.waits ∙ ap (λ x. id ∷ x) taken.waits))
            (omega (
              arith,
              tries_left,
              before,
              ap (weight max)
                  (changed (id ∷ waiting R name d') (given_up R name d') (some (suc n)) s id ∙ own),
              after (id ∷ waiting R name d') (given_up R name d') (some (suc n)) s,
            ));
      kept = λ j f. ground (
        arith,
        ap (occurrences j) (s.waits ∙ ap (λ x. id ∷ x) taken.waits),
        ap (occurrences j) (s.gave_up ∙ taken.gave_up),
        count_before j,
      );
    }
      where
        own : (if str_eq id id then some (suc n) else tries R name d id) ≡ some (suc n)
        own = ground (arith, eq_iff id id)

  has-tries :
      (d : Db) (id : String) (ids : List String)
      → IsReady (tries R name d) (waiting R name d)
      → waiting R name d ≡ ids ++ (id ∷ [])
      → (n : ℕ) × (tries R name d id ≡ some n)
  has-tries d id ids ready p =
      let has =
        ready.has_fields id
          (ground (arith, ap (occurrences id) p, occurrences-snoc id id ids, eq_iff id id)) in
      elim (Option-cases (tries R name d id)) [
        | inl e ↦ let no : ⊥ = ground (arith, ap is_some e, has) in elim no [ ]
        | inr found ↦ found
      ]

  module _ (handler : String → String → ℕ → Bool) (deadlines : ℕ → ℕ) where
    abbrev pub all_served : ℕ → Round
    all_served k = record {
      deadline = deadlines k;
      on_dequeue = served;
      on_ack = served;
      on_nack = served;
    }

    abbrev pub Fails : String → Type 0
    Fails j = (payload : String) (attempts : ℕ) → handler j payload attempts ≡ false

    abbrev Work : ℕ → Db → Db
    Work fuel d = worker_loop R name (pos max) handler fuel all_served d

    acked_counts :
        (d d' : Db) (id payload : String) (n : ℕ)
        → given_up R name d' ≡ given_up R name d
        → handler id payload n ≡ true
        → (j : String) → Fails j
        → occurrences j (given_up R name d')
          ≡ (if str_eq j id then 1 else 0) + occurrences j (given_up R name d)
    acked_counts d d' id payload n same ok j f = elim (Bool-cases (str_eq j id)) [
      | inl e ↦
          let failed : handler id payload n ≡ false =
            subst (λ x. handler x payload n ≡ false) ((eq_iff j id).0 e) (f payload n) in
          let no : ⊥ = ground (arith, ok, failed) in elim no [ ]
      | inr e ↦ ground (arith, e, ap (occurrences j) same)
    ]

    process-Progress :
        (k : ℕ) (d d' : Db) (id payload : String) (ids : List String) (n : ℕ)
        → waiting R name d ≡ ids ++ (id ∷ [])
        → IsReady (tries R name d) (waiting R name d)
        → tries R name d id ≡ some n
        → Taken R name d d' ids
        → Progress Fails d (process R name (pos max) handler (all_served k) d' id payload n)
    unfolding process ack nack
    process-Progress k d d' id payload ids n p ready has taken = handled (handler id payload n) refl
      where
        failed :
            (b : Bool)
            → leb max (suc n) ≡ b
            → Settled R name d'
                (nack_script R name d' (pos max) id)
                id
                (if b then waiting R name d' else id ∷ waiting R name d')
                (if b then id ∷ given_up R name d' else given_up R name d')
                (some (suc n))
            → Progress Fails d (nack_script R name d' (pos max) id)
        failed true last s =
            gone-Progress Fails d d' _ id ids n p ready has taken (id ∷ given_up R name d')
              (some (suc n)) s (λ j f. ground (arith, ap (occurrences j) taken.gave_up))
        failed false more s =
            again-Progress Fails d d' _ id ids n p ready has taken (ground (arith, more)) s

        handled :
            (b : Bool)
            → handler id payload n ≡ b
            → Progress Fails d
                (if b then ack_script R name d' id else nack_script R name d' (pos max) id)
        handled true ok =
            gone-Progress Fails d d' _ id ids n p ready has taken (given_up R name d') none
              (ack-Settled R name d' id) (acked_counts d d' id payload n taken.gave_up ok)
        handled false _ =
            failed (leb max (suc n)) refl
              (nack-Settled R name max d' id n (taken.same_tries id ∙ has))

    -- What a worker's run from `d` ends in.
    pub record Drained (d e : Db) : Type 0 where
      pub nothing_waits : waiting R name e ≡ []
      pub ends_given_up :
          (j : String)
          → Fails j
          → occurrences j (given_up R name e)
            ≡ occurrences j (waiting R name d) + occurrences j (given_up R name d)

    empty_round :
        (fuel : ℕ) (d : Db) → last_item (waiting R name d) ≡ none → Work (suc fuel) d ≡ Work fuel d
    unfolding worker_loop try_dequeue dequeue_script dequeue_reply
    empty_round fuel d e = ground (arith, e)

    job_round :
        (fuel : ℕ) (d : Db) (id : String) (n : ℕ)
        → last_item (waiting R name d) ≡ some id
        → tries R name d id ≡ some n
        → Work (suc fuel) d
          ≡ Work fuel (
              process R name
                (pos max)
                handler
                (all_served fuel)
                (dequeue_script R name d (deadlines fuel))
                id
                (or_empty (payload_of d (job_key name id)))
                n)
    unfolding worker_loop try_dequeue dequeue_reply
    job_round fuel d id n e has = ground (arith, e, has)

    -- A worker whose requests of the queue are all served, and no one else's, from a queue where no job
    -- waits twice and each that waits has its fields: after as many rounds as the jobs can still take
    -- deliveries no job waits, and each that waited and whose handler fails whenever it is called is on
    -- the dead-letter list.
    pub worker_loop-Drained :
        (fuel : ℕ) (d : Db)
        → IsReady (tries R name d) (waiting R name d)
        → deliveries max (tries R name d) (waiting R name d) ≤ fuel
        → Drained d (Work fuel d)
    unfolding worker_loop
    worker_loop-Drained zero d ready enough = ended (waiting R name d) refl
      where
        ended : (ids : List String) → waiting R name d ≡ ids → Drained d d
        ended [] e = record {
          nothing_waits = e;
          ends_given_up = λ j f. ground (arith, ap (occurrences j) e);
        }
        ended (x ∷ ids) e =
            let no : ⊥ = ground (arith, enough, ap (deliveries max (tries R name d)) e) in
            elim no [ ]
    worker_loop-Drained (suc fuel) d ready enough =
        elim (Option-cases (last_item (waiting R name d))) [
          | inl e ↦
              let none_waits : waiting R name d ≡ [] = last_item-none (waiting R name d) e in
              subst (Drained d) (sym (empty_round fuel d e)) (
                worker_loop-Drained fuel d ready
                  (ground (arith, ap (deliveries max (tries R name d)) none_waits)))
          | inr (id, e) ↦
              let (ids, p) = last_item-snoc (waiting R name d) id e in
              let (n, has) = has-tries d id ids ready p in
              let taken = dequeue-Taken R name d (deadlines fuel) ids id e p in
              let progress =
                process-Progress fuel d _ id (or_empty (payload_of d (job_key name id))) ids n p
                  ready has taken in
              let done =
                worker_loop-Drained fuel _ progress.ready
                  (omega (arith, enough, progress.lighter)) in
              subst (Drained d) (sym (job_round fuel d id n e has)) (record {
                nothing_waits = done.nothing_waits;
                ends_given_up = λ j f. done.ends_given_up j f ∙ progress.kept j f;
              })
        ]
