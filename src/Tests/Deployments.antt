-- ===== src/Tests/Deployments.antt =====
-- Witnesses for internal/db/deployments.go.
use redline.Base.{String, ◌≡◌, refl, true, false, none, some, List, [], ◌∷◌, Call, served, lost}
use redline.Scheduler.State.{ready, failed, same_state}
use redline.Deployments.{DeploymentRow, list_live_by_user}
use redline.Deployments.Terminated.{terminate_each}
use redline.Deployments.Terminated

abbrev row : String → String → DeploymentRow
row id user = record {
  id = id;
  model_id = "m";
  user_id = some user;
  allocation_id = none;
  state = ready;
  gpu_model = none;
}

abbrev three_rows : List DeploymentRow
three_rows = row "d1" "alice" ∷ row "d2" "bob" ∷ record (row "d3" "alice") { state = failed } ∷ []

abbrev always_served : String → Call
always_served id = served

all_ended :
    (terminate_each always_served three_rows (list_live_by_user three_rows "alice")).1 ≡ true
unfolding list_live_by_user same_state
all_ended = refl

terminate_each-live_example :
    list_live_by_user
      (terminate_each always_served three_rows (list_live_by_user three_rows "alice")).0
      "alice"
    ≡ []
terminate_each-live_example =
    Terminated.terminate_each-live always_served three_rows "alice" all_ended

-- A reply that is lost ends the loop.
abbrev first_lost : String → Call
first_lost id = lost

stops_at_lost :
    (terminate_each first_lost three_rows (list_live_by_user three_rows "alice")).1 ≡ false
unfolding list_live_by_user same_state
stops_at_lost = refl
