-- ===== src/Tests/Policy.antt =====
-- Witnesses for internal/policy, and a count whose window is never set.
use redline.Base.{
  ◌≤◌, ◌≡◌, refl, true, false, ◌||◌, some, List, [], ◌∷◌, arith, contains, pos, served, refused,
}
use redline.Policy.{
  LiveDeployment, not_suspended, suspend, terminate_all, terminate_one, record_violation,
  default_escalation_thresholds,
}
use redline.Policy.Enforced.{named, rank}
use redline.Policy.Enforced

abbrev live : List LiveDeployment
live =
    record { id = "d1"; on_stop = served; on_terminate = served }
    ∷ record { id = "d2"; on_stop = refused; on_terminate = served }
    ∷ []

live_suspended : (suspend served served (some live)).failed ≡ false
unfolding suspend terminate_all terminate_one
live_suspended = refl

suspend_complete_example :
    ((suspend served served (some live)).suspended ≡ true)
    × ((suspend served served (some live)).keys_revoked ≡ true)
    × (contains "d2" (suspend served served (some live)).terminated ≡ named "d2" live)
    × (contains "d2" (suspend served served (some live)).reported ≡ named "d2" live)
    × ((contains "d2" (suspend served served (some live)).stopped
          || contains "d2" (suspend served served (some live)).stop_errors)
        ≡ named "d2" live)
suspend_complete_example = Enforced.suspend_complete served served live "d2" live_suspended

violations_grow :
    rank
      (record_violation default_escalation_thresholds
        (some (pos 2))
        served
        not_suspended
        served).level
    ≤ rank
        (record_violation default_escalation_thresholds
          (some (pos 4))
          served
          not_suspended
          served).level
violations_grow =
    Enforced.record_violation_mono default_escalation_thresholds (pos 2) (pos 4) not_suspended refl
      (omega arith)

-- The first violation's expiry is refused; the second violation does not set it again.
second_sets_none :
    (record_violation default_escalation_thresholds
      (some (pos 2))
      served
      not_suspended
      served).window_set
    ≡ false
unfolding record_violation
second_sets_none = ground arith
