-- ===== src/Policy/Enforced.antt =====
-- internal/policy: what a suspension that succeeds has done, and how the response grows.
use redline.Base.{
  ℕ, ◌≤◌, String, ◌≡◌, refl, Bool, true, false, not, ◌||◌, Option, none, some, List, [], ◌∷◌, arith,
  str_eq, Bool-cases, all_of, any_of, contains, ℤ, ◌≤ℤ◌, Call, served, refused, lost,
}
use redline.Scheduler.State.{executed}
use redline.Policy.{
  EscalationLevel, level_none, level_reduced, level_suspended, EscalationThresholds, LiveDeployment,
  Suspension, is_served, terminate_one, terminate_all, not_suspended, suspend, escalate,
  record_violation,
}

abbrev pub named : String → List LiveDeployment → Bool
named id ds = any_of (λ d. str_eq id d.id) ds

terminate_all-failed :
    (ds : List LiveDeployment) (s : Suspension)
    → s.failed ≡ false
    → (terminate_all s ds).failed ≡ not (all_of (λ d. is_served d.on_terminate) ds)
unfolding terminate_all terminate_one
terminate_all-failed [] s h = ground (arith, h)
terminate_all-failed (d ∷ ds) s h = ground (arith, terminate_all-failed ds (terminate_one s d))

served_executed : (c : Call) → is_served c ≡ true → executed c ≡ true
served_executed c h = ground (arith, h)

terminate_all-done :
    (ds : List LiveDeployment) (s : Suspension) (id : String)
    → all_of (λ d. is_served d.on_terminate) ds ≡ true
    → (contains id (terminate_all s ds).terminated ≡ (contains id s.terminated || named id ds))
      × (contains id (terminate_all s ds).reported ≡ (contains id s.reported || named id ds))
      × ((contains id (terminate_all s ds).stopped || contains id (terminate_all s ds).stop_errors)
          ≡ (contains id s.stopped || contains id s.stop_errors || named id ds))
      × ((terminate_all s ds).suspended ≡ s.suspended)
      × ((terminate_all s ds).keys_revoked ≡ s.keys_revoked)
unfolding terminate_all terminate_one
terminate_all-done [] s id h = (
  ground (arith, Bool-cases (contains id s.terminated)),
  ground (arith, Bool-cases (contains id s.reported)),
  ground (arith, Bool-cases (contains id s.stopped), Bool-cases (contains id s.stop_errors)),
  refl,
  refl,
)
terminate_all-done (d ∷ ds) s id h =
    let (t, r, o, u, k) = terminate_all-done ds (terminate_one s d) id (ground (arith, h)) in
    (
      ground (arith, h, t, Bool-cases (contains id s.terminated)),
      ground (arith, h, r, Bool-cases (contains id s.reported)),
      ground
          (arith, h, o, Bool-cases (contains id s.stopped), Bool-cases (contains id s.stop_errors)),
      ground (arith, h, u),
      ground (arith, h, k),
    )

-- A suspension that does not fail has suspended the account and revoked its keys; of the live
-- deployments that were listed, and of no other, it has terminated and reported each, and either
-- stopped its job or recorded that the stop failed.
pub suspend_complete :
    (on_user on_keys : Call) (ds : List LiveDeployment) (id : String)
    → (suspend on_user on_keys (some ds)).failed ≡ false
    → ((suspend on_user on_keys (some ds)).suspended ≡ true)
      × ((suspend on_user on_keys (some ds)).keys_revoked ≡ true)
      × (contains id (suspend on_user on_keys (some ds)).terminated ≡ named id ds)
      × (contains id (suspend on_user on_keys (some ds)).reported ≡ named id ds)
      × ((contains id (suspend on_user on_keys (some ds)).stopped
            || contains id (suspend on_user on_keys (some ds)).stop_errors)
          ≡ named id ds)
unfolding suspend
suspend_complete served served ds id h =
    let k = record not_suspended { suspended = true; keys_revoked = true } in
    let done : all_of (λ d. is_served d.on_terminate) ds ≡ true =
      ground (arith, h, terminate_all-failed ds k refl) in
    let (t, r, o, u, w) = terminate_all-done ds k id done in (u, w, t, r, o)
suspend_complete served refused ds id h = ground (arith, h)
suspend_complete served lost ds id h = ground (arith, h)
suspend_complete refused k ds id h = ground (arith, h)
suspend_complete lost k ds id h = ground (arith, h)

abbrev pub rank : Option EscalationLevel → ℕ
rank none = 0
rank (some level_none) = 0
rank (some level_reduced) = 1
rank (some level_suspended) = 2

-- Where no call fails, a higher violation count never gets a milder response, whatever the
-- thresholds.
pub record_violation_mono :
    (t : EscalationThresholds) (a b : ℤ) (s : Suspension)
    → s.failed ≡ false
    → a ≤ℤ b
    → rank (record_violation t (some a) served s served).level
      ≤ rank (record_violation t (some b) served s served).level
unfolding record_violation escalate
record_violation_mono t a b s h le = ground (arith, h, le)
