-- ===== src/Deployments/Terminated.antt =====
-- internal/db/deployments.go: what is live of a user after the termination of what was listed as live.
use redline.Base.{
  String, ◌≡◌, refl, sym, ap, ◌∙◌, ◌≢◌, inl, inr, Bool, true, false, not, ◌&&◌, List, [], ◌∷◌,
  arith, str_eq, eq_iff, if◌then◌else◌, Bool-cases, keep_if, all_of, any_of, Call, served, refused,
  lost,
}
use redline.Scheduler.State.{terminated, same_state}
use redline.Policy.{is_served}
use redline.Deployments.{
  DeploymentRow, change_row, change_deployment, terminate, is_active_row, is_owned_by,
  list_live_by_user,
}

-- The loop of `Suspend` in internal/policy/suspension.go, over the calls of `Terminate` alone: what it
-- leaves of the rows, and whether it comes to its end. It returns at the first call that fails.
abbrev pub terminate_each :
    (String → Call) → List DeploymentRow → List DeploymentRow → List DeploymentRow × Bool
terminate_each calls rows [] = (rows, true)
terminate_each calls rows (d ∷ ds) =
    let next = terminate (calls d.id) rows d.id in
    let rest = terminate_each calls next ds in
    if is_served (calls d.id) then rest else (next, false)

abbrev live : String → DeploymentRow → Bool
live user r = is_owned_by user r && is_active_row r

live-change :
    (user id : String) (rows : List DeploymentRow)
    → keep_if (live user) (change_row (λ r. record r { state = terminated }) id rows)
      ≡ keep_if (λ r. not (str_eq id r.id)) (keep_if (live user) rows)
unfolding change_row same_state
live-change user id [] = refl
live-change user id (r ∷ rows) = ground (arith, live-change user id rows)

terminate-rows :
    (c : Call) (rows : List DeploymentRow) (id : String)
    → c ≢ refused
    → terminate c rows id ≡ change_row (λ r. record r { state = terminated }) id rows
unfolding terminate change_deployment
terminate-rows refused rows id h = absurd (h refl)
terminate-rows served rows id h = refl
terminate-rows lost rows id h = refl

listed : List DeploymentRow → DeploymentRow → Bool
listed ds r = any_of (λ d. str_eq d.id r.id) ds

keep_if-true : (rows : List DeploymentRow) → keep_if (λ r. true) rows ≡ rows
keep_if-true [] = refl
keep_if-true (r ∷ rows) = ap (λ rs. r ∷ rs) (keep_if-true rows)

keep_if-both :
    (p q : DeploymentRow → Bool) (rows : List DeploymentRow)
    → keep_if p (keep_if q rows) ≡ keep_if (λ r. q r && p r) rows
keep_if-both p q [] = refl
keep_if-both p q (r ∷ rows) = ground (arith, keep_if-both p q rows)

keep_if-same :
    (p q : DeploymentRow → Bool) (rows : List DeploymentRow)
    → ((r : DeploymentRow) → p r ≡ q r)
    → keep_if p rows ≡ keep_if q rows
keep_if-same p q [] h = refl
keep_if-same p q (r ∷ rows) h = ground (arith, h r, keep_if-same p q rows h)

live-terminate_each :
    (calls : String → Call) (user : String) (ds rows : List DeploymentRow)
    → (terminate_each calls rows ds).1 ≡ true
    → keep_if (live user) (terminate_each calls rows ds).0
      ≡ keep_if (λ r. not (listed ds r)) (keep_if (live user) rows)
unfolding listed
live-terminate_each calls user [] rows h = sym (keep_if-true (keep_if (live user) rows))
live-terminate_each calls user (d ∷ ds) rows h = elim (Bool-cases (is_served (calls d.id))) [
  | inr failed ↦ absurd (stopped (ground (arith, h, failed)))
  | inl ended ↦
      let next = terminate (calls d.id) rows d.id in
      rw ended (
        live-terminate_each calls user ds next (ground (arith, h, ended))
        ∙ ap (keep_if (λ r. not (listed ds r))) (
            ap (keep_if (live user)) (terminate-rows (calls d.id) rows d.id (served_carried ended))
            ∙ live-change user d.id rows)
        ∙ keep_if-both (λ r. not (listed ds r)) (λ r. not (str_eq d.id r.id))
            (keep_if (live user) rows)
        ∙ keep_if-same (λ r. not (str_eq d.id r.id) && not (listed ds r))
            (λ r. not (listed (d ∷ ds) r)) _ (λ r. ground arith))
]
  where
    stopped : false ≡ true → ⊥
    stopped e = ground (arith, e)

    served_carried : {c : Call} → is_served c ≡ true → c ≢ refused
    served_carried {c = c} y e = stopped (sym (ap is_served e) ∙ y)

-- All of a list are in it.
listed-more :
    (d : DeploymentRow) (ds rs : List DeploymentRow)
    → all_of (listed ds) rs ≡ true
    → all_of (listed (d ∷ ds)) rs ≡ true
unfolding listed
listed-more d ds [] h = refl
listed-more d ds (r ∷ rs) h = ground (arith, h, listed-more d ds rs)

listed_self : (ds : List DeploymentRow) → all_of (listed ds) ds ≡ true
unfolding listed
listed_self [] = refl
listed_self (d ∷ ds) = ground (arith, eq_iff d.id d.id, listed-more d ds ds (listed_self ds))

keep_if-none :
    (p : DeploymentRow → Bool) (rows : List DeploymentRow)
    → all_of p rows ≡ true
    → keep_if (λ r. not (p r)) rows ≡ []
keep_if-none p [] h = refl
keep_if-none p (r ∷ rows) h = ground (arith, h, keep_if-none p rows)

-- Once a loop over the deployments that are listed as live of a user has come to its end, none is
-- listed as live of the user.
pub terminate_each-live :
    (calls : String → Call) (rows : List DeploymentRow) (user : String)
    → (terminate_each calls rows (list_live_by_user rows user)).1 ≡ true
    → list_live_by_user (terminate_each calls rows (list_live_by_user rows user)).0 user ≡ []
unfolding list_live_by_user
terminate_each-live calls rows user h =
    live-terminate_each calls user (keep_if (live user) rows) rows h
    ∙ keep_if-none (listed (keep_if (live user) rows)) (keep_if (live user) rows)
        (listed_self (keep_if (live user) rows))
