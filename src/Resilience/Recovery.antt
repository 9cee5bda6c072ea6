-- ===== src/Resilience/Recovery.antt =====
-- internal/resilience/reaper.go: what a sweep does with the requests that are stuck.
use redline.Base.{
  ℕ, suc, ◌+◌, ◌<◌, String, ◌≡◌, refl, ap, ◌∙◌, Bool, true, false, not, ◌&&◌, some, List, [], ◌∷◌,
  map, arith, str_eq, eq_iff, ltb, leb, if◌then◌else◌, length, keep_if, lookup, insert,
  lookup-insert, Call, served, refused, lost,
}
use redline.Redis.{JobStore}
use redline.Queue.{enqueue, pending_key, job_key}
use redline.Queue.Places.{occurrences, is_served}
use redline.Resilience.{
  RequeuePayload, RequestState, Watchdog, touch, is_stuck, stuck_among, stuck, without_stuck, Calls,
  requeue_each, sweep,
}

-- Whether the push of an enqueue reaches Redis, and for how many of the requests with an id.
abbrev pub pushes : Call → Call → Bool
pushes served served = true
pushes served lost = true
pushes served refused = false
pushes refused _ = false
pushes lost _ = false

abbrev pub pushed : (RequeuePayload → Calls) → String → List RequeuePayload → ℕ
pushed calls id [] = 0
pushed calls id (p ∷ ps) =
    let rest = pushed calls id ps in
    if str_eq id p.request_id && pushes (calls p).on_hset (calls p).on_push then suc rest else rest

-- The last token, or the start, is at least the threshold ago.
abbrev pub is_overdue : ℕ → ℕ → RequestState → Bool
is_overdue threshold now state = leb (state.last_token_at + threshold) now

abbrev pub overdue : Watchdog → ℕ → List RequeuePayload
overdue w now = map (λ e. e.1.payload) (keep_if (λ e. is_overdue w.threshold now e.1) w.requests)

stuck_among-overdue :
    (threshold now : ℕ) (es : List (String × RequestState))
    → stuck_among threshold now es
      ≡ map (λ e. e.1.payload) (keep_if (λ e. is_overdue threshold now e.1) es)
unfolding stuck_among is_stuck
stuck_among-overdue threshold now [] = refl
stuck_among-overdue threshold now ((id, s) ∷ es) =
    ground (arith, stuck_among-overdue threshold now es)

keep_if-healthy :
    (threshold now : ℕ) (es : List (String × RequestState))
    → keep_if (λ e. not (is_stuck threshold now e.1)) es
      ≡ keep_if (λ e. ltb now (e.1.last_token_at + threshold)) es
unfolding is_stuck
keep_if-healthy threshold now [] = refl
keep_if-healthy threshold now ((id, s) ∷ es) = ground (arith, keep_if-healthy threshold now es)

module _ (R : JobStore) (name : String) where
  open R use {Db, items, items-hset, items-lpush, lpush, hset_job}

  pushed-pending :
      (d : Db) (id payload j : String)
      → occurrences j (
          items
            (lpush (hset_job d (job_key name id) payload 0) (pending_key name) id)
            (pending_key name))
        ≡ (if str_eq j id then 1 else 0) + occurrences j (items d (pending_key name))
  pushed-pending d id payload j =
      let d' = hset_job d (job_key name id) payload 0 in
      ground (
        arith,
        ap (occurrences j) (items-hset d (job_key name id) payload 0 (pending_key name)),
        ap (occurrences j) (items-lpush d' (pending_key name) id (pending_key name)),
        eq_iff (pending_key name) (pending_key name),
      )

  enqueue-pending :
      (c p : Call) (d : Db) (id payload j : String)
      → occurrences j (items (enqueue R name c p d id payload).0 (pending_key name))
        ≡ (if str_eq j id && pushes c p then 1 else 0) + occurrences j (items d (pending_key name))
  unfolding enqueue
  enqueue-pending refused p d id payload j = ground arith
  enqueue-pending lost p d id payload j =
      ground
        (arith, ap (occurrences j) (items-hset d (job_key name id) payload 0 (pending_key name)))
  enqueue-pending served refused d id payload j =
      ground
        (arith, ap (occurrences j) (items-hset d (job_key name id) payload 0 (pending_key name)))
  enqueue-pending served lost d id payload j = ground (arith, pushed-pending d id payload j)
  enqueue-pending served served d id payload j = ground (arith, pushed-pending d id payload j)

  requeue_each-pending :
      (calls : RequeuePayload → Calls) (d : Db) (ps : List RequeuePayload) (j : String)
      → occurrences j (items (requeue_each R name calls d ps).0 (pending_key name))
        ≡ pushed calls j ps + occurrences j (items d (pending_key name))
  unfolding requeue_each
  requeue_each-pending calls d [] j = omega arith
  requeue_each-pending calls d (p ∷ ps) j =
      let d' = (enqueue R name (calls p).on_hset (calls p).on_push d p.request_id p.body).0 in
      ground (
        arith,
        requeue_each-pending calls d' ps j,
        enqueue-pending (calls p).on_hset (calls p).on_push d p.request_id p.body j,
      )

  enqueue-ok :
      (c p : Call) (d : Db) (id payload : String)
      → (enqueue R name c p d id payload).1 ≡ (is_served c && is_served p)
  unfolding enqueue
  enqueue-ok served served d id payload = refl
  enqueue-ok served refused d id payload = refl
  enqueue-ok served lost d id payload = refl
  enqueue-ok refused p d id payload = refl
  enqueue-ok lost p d id payload = refl

  requeue_each-recovered :
      (calls : RequeuePayload → Calls) (d : Db) (ps : List RequeuePayload)
      → (requeue_each R name calls d ps).2
        ≡ length (keep_if (λ p. is_served (calls p).on_hset && is_served (calls p).on_push) ps)
  unfolding requeue_each
  requeue_each-recovered calls d [] = refl
  requeue_each-recovered calls d (p ∷ ps) =
      let d' = (enqueue R name (calls p).on_hset (calls p).on_push d p.request_id p.body).0 in
      ground (
        arith,
        requeue_each-recovered calls d' ps,
        enqueue-ok (calls p).on_hset (calls p).on_push d p.request_id p.body,
      )

  requeue_each-cancelled :
      (calls : RequeuePayload → Calls) (d : Db) (ps : List RequeuePayload)
      → (requeue_each R name calls d ps).1 ≡ map (λ p. p.request_id) ps
  unfolding requeue_each
  requeue_each-cancelled calls d [] = refl
  requeue_each-cancelled calls d (p ∷ ps) =
      ap (λ ids. p.request_id ∷ ids)
        (requeue_each-cancelled calls
          (enqueue R name (calls p).on_hset (calls p).on_push d p.request_id p.body).0 ps)

  -- A sweep, however the requests of its enqueues end, asks the backend to cancel each request whose
  -- last token is at least the threshold ago, in order, and none else; the pending list has a job
  -- more of an id for each of them with that id whose push reached Redis; the number returned
  -- counts the enqueues that succeeded; and the watchdog keeps exactly the other requests.
  pub sweep-stuck :
      (calls : RequeuePayload → Calls) (w : Watchdog) (d : Db) (now : ℕ) (id : String)
      → let (w', d', cancelled, recovered) = sweep R name calls w d now in
        (cancelled ≡ map (λ p. p.request_id) (overdue w now))
        × (occurrences id (items d' (pending_key name))
            ≡ pushed calls id (overdue w now) + occurrences id (items d (pending_key name)))
        × (recovered
            ≡ length (
                keep_if
                  (λ p. is_served (calls p).on_hset && is_served (calls p).on_push)
                  (overdue w now)))
        × (w'.requests ≡ keep_if (λ e. ltb now (e.1.last_token_at + w.threshold)) w.requests)
  unfolding sweep stuck without_stuck
  sweep-stuck calls w d now id =
      let late = stuck_among-overdue w.threshold now w.requests in
      (
        requeue_each-cancelled calls d (stuck w now) ∙ ap (map (λ p. p.request_id)) late,
        requeue_each-pending calls d (stuck w now) id
            ∙ ap (λ ps. pushed calls id ps + occurrences id (items d (pending_key name))) late,
        requeue_each-recovered calls d (stuck w now)
            ∙ ap
                (λ ps.
                  length
                    (keep_if (λ p. is_served (calls p).on_hset && is_served (calls p).on_push) ps))
                late,
        keep_if-healthy w.threshold now w.requests,
      )

keep_if-lookup :
    (p : RequestState → Bool) (id : String) (s : RequestState) (es : List (String × RequestState))
    → lookup id es ≡ some s
    → p s ≡ true
    → lookup id (keep_if (λ e. p e.1) es) ≡ some s
keep_if-lookup p id s [] h holds = ground (arith, h)
keep_if-lookup p id s ((k, t) ∷ es) h holds =
    ground (arith, h, holds, eq_iff k id, keep_if-lookup p id s es)

module _ (R : JobStore) (name : String) where
  open R use {Db}

  -- A request in flight that produces a token is still tracked, with that token's time, after a
  -- sweep that comes before the threshold has passed since.
  pub sweep-touched :
      (calls : RequeuePayload → Calls) (w : Watchdog) (d : Db) (id : String) (s : RequestState)
      (token now : ℕ)
      → lookup id w.requests ≡ some s
      → now < token + w.threshold
      → lookup id (sweep R name calls (touch w id token) d now).0.requests
        ≡ some (record s { last_token_at = token })
  unfolding sweep touch without_stuck is_stuck
  sweep-touched calls w d id s token now h early =
      rw (h, touch)
        (keep_if-lookup (λ x. not (is_stuck w.threshold now x)) id
          (record s { last_token_at = token })
          (insert id (record s { last_token_at = token }) w.requests)
          (ground (
            arith,
            eq_iff id id,
            lookup-insert id id (record s { last_token_at = token }) w.requests,
          ))
          (ground (arith, early)))
