-- ===== src/Resilience.antt =====
-- internal/resilience: watchdog.go, reaper.go and middleware.go, requests that stop producing
-- tokens. The time of a call is an argument, a threshold is not negative. A stuck request's
-- requeue is the queue's `Enqueue`.
pub mod Recovery
use redline.Base.{
  ℕ, zero, suc, ◌+◌, ◌-◌, ◌*◌, ◌/◌, ◌%◌, ◌^◌, ◌≤◌, ◌<◌, min, max, String, ◌≡◌, refl, sym, ap, subst,
  ◌∙◌, ◌≢◌, ◌↔◌, ◌⊎◌, inl, inr, Bool, true, false, not, ◌&&◌, ◌||◌, Option, none, some, List, [],
  ◌∷◌, ◌++◌, map, arith, str_eq, eq_iff, ltb, leb, ◌==◌, if◌then◌else◌, Bool-cases, Option-cases,
  length, length-append, keep_if, length-keep_if-le, all_of, any_of, All, contains, ℤ, pos, negsuc,
  pos_part, neg_part, ◌+ℤ◌, ◌*ℤ◌, ◌≤ℤ◌, ltb_ℤ, leb_ℤ, wrap64, IsInt64, wrap64_exact, wrap64-IsInt64,
  +ℤ_parts, eq_of_parts, lookup, insert, delete, lookup-insert, lookup-delete, Call, served,
  refused, lost, is_empty, cut_prefix, has_prefix, cut_prefix-append, In, str_contains, has_suffix,
  sub_ℕ,
}
use redline.Redis.{JobStore}
use redline.Queue.{enqueue}

pub record RequeuePayload : Type 0 where
  pub request_id : String
  pub model : String
  pub body : String

pub record RequestState : Type 0 where
  pub last_token_at : ℕ
  pub payload : RequeuePayload

pub record Watchdog : Type 0 where
  pub requests : List (String × RequestState)
  pub threshold : ℕ

unfoldable pub start : Watchdog → String → RequeuePayload → ℕ → Watchdog
start w id payload now = record w {
  requests = insert id (record { last_token_at = now; payload = payload }) w.requests;
}

unfoldable pub touch : Watchdog → String → ℕ → Watchdog
touch w id now = elim (lookup id w.requests) [
  | none ↦ w
  | some state ↦ record w { requests = insert id (record state { last_token_at = now }) w.requests }
]

unfoldable pub forget : Watchdog → String → Watchdog
forget w id = record w { requests = delete id w.requests }

unfoldable pub is_stuck : ℕ → ℕ → RequestState → Bool
is_stuck threshold now state = leb (state.last_token_at + threshold) now

-- `Stuck`: what it returns, and what it leaves.
unfoldable pub stuck_among : ℕ → ℕ → List (String × RequestState) → List RequeuePayload
unfolding is_stuck
stuck_among threshold now [] = []
stuck_among threshold now ((id, state) ∷ rest) =
    let others = stuck_among threshold now rest in
    if is_stuck threshold now state then state.payload ∷ others else others

unfoldable pub stuck : Watchdog → ℕ → List RequeuePayload
unfolding stuck_among
stuck w now = stuck_among w.threshold now w.requests

unfoldable pub without_stuck : Watchdog → ℕ → Watchdog
unfolding is_stuck
without_stuck w now = record w {
  requests = keep_if (λ e. not (is_stuck w.threshold now e.1)) w.requests;
}

unfoldable pub in_flight_count : Watchdog → ℕ
in_flight_count w = length w.requests

-- `Middleware`, before and after the handler; a body that does not read is "".
unfoldable pub enter : Watchdog → String → String → ℕ → Watchdog
unfolding start
enter w request_id body now =
    if is_empty request_id
    then w
    else start w request_id (record { request_id = request_id; model = ""; body = body }) now

unfoldable pub leave : Watchdog → String → Watchdog
unfolding forget
leave w request_id = if is_empty request_id then w else forget w request_id

-- How the two requests of an enqueue end.
pub record Calls : Type 0 where
  pub on_hset : Call
  pub on_push : Call

module _ (R : JobStore) (name : String) where
  open R use {Db}

  -- The loop of `Sweep`: what it leaves of the queue's store, the requests that it asked the backend
  -- to cancel, in order, and how many it recovered. The answer to a cancellation is not read.
  unfoldable pub requeue_each :
      (RequeuePayload → Calls) → Db → List RequeuePayload → Db × List String × ℕ
  unfolding enqueue
  requeue_each calls d [] = (d, [], 0)
  requeue_each calls d (p ∷ ps) =
      let c = calls p in
      let (d', ok) = enqueue R name c.on_hset c.on_push d p.request_id p.body in
      let (d'', cancelled, recovered) = requeue_each calls d' ps in
      (d'', p.request_id ∷ cancelled, if ok then suc recovered else recovered)

  unfoldable pub sweep :
      (RequeuePayload → Calls) → Watchdog → Db → ℕ → Watchdog × Db × List String × ℕ
  unfolding requeue_each
  sweep calls w d now =
      let (d', cancelled, recovered) = requeue_each calls d (stuck w now) in
      (without_stuck w now, d', cancelled, recovered)
