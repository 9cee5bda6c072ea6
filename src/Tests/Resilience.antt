-- ===== src/Tests/Resilience.antt =====
-- Witnesses for internal/resilience, with the queue's store filled by plain functions.
use redline.Base.{
  ◌+◌, String, ◌≡◌, refl, ◌&&◌, some, [], ◌∷◌, arith, length, keep_if, map, ltb, lookup, served,
  lost,
}
use redline.Queue.{pending_key}
use redline.Queue.Places.{occurrences, is_served}
use redline.Resilience.{RequeuePayload, Watchdog, touch, Calls, sweep}
use redline.Resilience.Recovery.{pushed, pushes, overdue}
use redline.Resilience.Recovery
use redline.Tests.Queue.{memory, new_memory}

abbrev payload_of_request : String → RequeuePayload
payload_of_request id = record { request_id = id; model = ""; body = "{}" }

-- "a" produced its last token at 10, "b" at 95.
abbrev watching : Watchdog
watching = record {
  requests =
      ("a", record { last_token_at = 10; payload = payload_of_request "a" })
      ∷ ("b", record { last_token_at = 95; payload = payload_of_request "b" })
      ∷ [];
  threshold = 30;
}

abbrev push_lost : RequeuePayload → Calls
push_lost p = record { on_hset = served; on_push = lost }

sweep-stuck_example :
    let (w', d', cancelled, recovered) =
      sweep memory "inference-retry" push_lost watching new_memory 100 in
    (cancelled ≡ map (λ p. p.request_id) (overdue watching 100))
    × (occurrences "a" (memory.items d' (pending_key "inference-retry"))
        ≡ pushed push_lost "a" (overdue watching 100)
          + occurrences "a" (memory.items new_memory (pending_key "inference-retry")))
    × (recovered
        ≡ length (
            keep_if
              (λ p. is_served (push_lost p).on_hset && is_served (push_lost p).on_push)
              (overdue watching 100)))
    × (w'.requests
        ≡ keep_if (λ e. ltb 100 (e.1.last_token_at + watching.threshold)) watching.requests)
sweep-stuck_example =
    Recovery.sweep-stuck memory "inference-retry" push_lost watching new_memory 100 "a"

touched_is_kept :
    lookup "a"
      (sweep memory "inference-retry" push_lost (touch watching "a" 90) new_memory 100).0.requests
    ≡ some (record { last_token_at = 90; payload = payload_of_request "a" })
touched_is_kept =
    Recovery.sweep-touched memory "inference-retry" push_lost watching new_memory "a"
      (record { last_token_at = 10; payload = payload_of_request "a" }) 90 100 refl (omega arith)
