-- ===== src/Deployments.antt =====
-- internal/db/deployments.go and errors.go: the rows of deployments. Times are left out; a new row's id
-- is an argument.
pub mod Terminated
pub mod Stored
use redline.Base.{
  ℕ, zero, suc, ◌+◌, ◌-◌, ◌*◌, ◌/◌, ◌%◌, ◌^◌, ◌≤◌, ◌<◌, min, max, String, ◌≡◌, refl, sym, ap, subst,
  ◌∙◌, ◌≢◌, ◌↔◌, ◌⊎◌, inl, inr, Bool, true, false, not, ◌&&◌, ◌||◌, Option, none, some, List, [],
  ◌∷◌, ◌++◌, map, arith, str_eq, eq_iff, ltb, leb, ◌==◌, if◌then◌else◌, Bool-cases, Option-cases,
  length, length-append, keep_if, length-keep_if-le, all_of, any_of, All, contains, ℤ, pos, negsuc,
  pos_part, neg_part, ◌+ℤ◌, ◌*ℤ◌, ◌≤ℤ◌, ltb_ℤ, leb_ℤ, wrap64, IsInt64, wrap64_exact, wrap64-IsInt64,
  +ℤ_parts, eq_of_parts, lookup, insert, delete, lookup-insert, lookup-delete, Call, served,
  refused, lost, is_empty, cut_prefix, has_prefix, cut_prefix-append, In, str_contains, has_suffix,
  sub_ℕ,
}
use redline.Auth.Sessions.{StoreError, not_found, conflict, store_failed}
use redline.Scheduler.State.{DeploymentState, queued, terminated, failed, same_state}

pub record DeploymentRow : Type 0 where
  pub id : String
  pub model_id : String
  pub user_id : Option String
  pub allocation_id : Option String
  pub state : DeploymentState
  pub gpu_model : Option String

-- What the driver's error is: no row, a code of the server's, or anything else.
pub data RowError : Type 0 where
  no_rows other_error : RowError
  server_code : String → RowError

unfoldable pub map_error : RowError → StoreError
map_error no_rows = not_found
map_error other_error = store_failed
map_error (server_code c) = if str_eq c "23505" then conflict else store_failed

unfoldable pub create_deployment :
    Call → List DeploymentRow → String → String → String → List DeploymentRow
create_deployment refused rows new_id model user = rows
create_deployment _ rows new_id model user =
    record {
      id = new_id;
      model_id = model;
      user_id = if is_empty user then none else some user;
      allocation_id = none;
      state = queued;
      gpu_model = none;
    }
    ∷ rows

unfoldable pub row_with_id : String → List DeploymentRow → Option DeploymentRow
row_with_id id [] = none
row_with_id id (r ∷ rs) = let rest = row_with_id id rs in if str_eq id r.id then some r else rest

unfoldable pub get_deployment : Call → List DeploymentRow → String → DeploymentRow ⊎ StoreError
unfolding row_with_id
get_deployment served rows id = elim (row_with_id id rows) [ none ↦ inr not_found | some r ↦ inl r ]
get_deployment _ rows id = inr store_failed

-- An UPDATE of the rows with an id.
unfoldable pub change_row :
    (DeploymentRow → DeploymentRow) → String → List DeploymentRow → List DeploymentRow
change_row f id [] = []
change_row f id (r ∷ rs) =
    let rest = change_row f id rs in if str_eq id r.id then f r ∷ rest else r ∷ rest

abbrev pub has_row : String → List DeploymentRow → Bool
has_row id rows = any_of (λ r. str_eq id r.id) rows

-- An update by id, its rows and its error.
unfoldable pub change_deployment :
    Call → (DeploymentRow → DeploymentRow) → List DeploymentRow → String → List DeploymentRow
unfolding change_row
change_deployment refused f rows id = rows
change_deployment _ f rows id = change_row f id rows

unfoldable pub change_error : Call → List DeploymentRow → String → Option StoreError
change_error served rows id = if has_row id rows then none else some not_found
change_error _ rows id = some store_failed

unfoldable pub update_deployment_state :
    Call → List DeploymentRow → String → DeploymentState → List DeploymentRow
unfolding change_deployment
update_deployment_state c rows id state =
    change_deployment c (λ r. record r { state = state }) rows id

unfoldable pub set_deployment_allocation :
    Call → List DeploymentRow → String → String → List DeploymentRow
unfolding change_deployment
set_deployment_allocation c rows id alloc =
    change_deployment c (λ r. record r { allocation_id = some alloc }) rows id

unfoldable pub set_gpu_model : Call → List DeploymentRow → String → String → List DeploymentRow
unfolding change_deployment
set_gpu_model c rows id gpu = change_deployment c (λ r. record r { gpu_model = some gpu }) rows id

-- `Terminate`, which leaves a row that is terminated already; it fails where there is no row.
unfoldable pub terminate : Call → List DeploymentRow → String → List DeploymentRow
unfolding change_deployment
terminate c rows id = change_deployment c (λ r. record r { state = terminated }) rows id

unfoldable pub terminate_error : Call → Call → List DeploymentRow → String → Option StoreError
unfolding get_deployment
terminate_error served on_get rows id =
    if any_of (λ r. str_eq id r.id && not (same_state r.state terminated)) rows
    then none
    else elim (get_deployment on_get rows id) [ inl r ↦ none | inr e ↦ some e ]
terminate_error _ on_get rows id = some store_failed

unfoldable pub list_by_state : List DeploymentRow → DeploymentState → List DeploymentRow
list_by_state rows state = keep_if (λ r. same_state r.state state) rows

abbrev pub is_active_row : DeploymentRow → Bool
is_active_row r = not (same_state r.state terminated) && not (same_state r.state failed)

unfoldable pub list_active : List DeploymentRow → List DeploymentRow
list_active rows = keep_if is_active_row rows

unfoldable pub list_by_model : List DeploymentRow → String → List DeploymentRow
list_by_model rows model = keep_if (λ r. str_eq r.model_id model) rows

abbrev pub is_owned_by : String → DeploymentRow → Bool
is_owned_by user r = elim r.user_id [ none ↦ false | some u ↦ str_eq u user ]

unfoldable pub list_live_by_user : List DeploymentRow → String → List DeploymentRow
list_live_by_user rows user = keep_if (λ r. is_owned_by user r && is_active_row r) rows
