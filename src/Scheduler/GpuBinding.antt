-- ===== src/Scheduler/GpuBinding.antt =====
-- internal/scheduler/gpubinding.go: exclusive use of a GPU by one tenant at a time. The three
-- scripts are sequences of Redis commands; each method runs one script at the device's key.
-- A script's answer comes back as the values that it returns.
pub mod Refinement
pub mod Isolation
use redline.Base.{
  ℕ, zero, suc, ◌+◌, ◌-◌, ◌*◌, ◌/◌, ◌%◌, ◌^◌, ◌≤◌, ◌<◌, min, max, String, ◌≡◌, refl, sym, ap, subst,
  ◌∙◌, ◌≢◌, ◌↔◌, ◌⊎◌, inl, inr, Bool, true, false, not, ◌&&◌, ◌||◌, Option, none, some, List, [],
  ◌∷◌, ◌++◌, map, arith, str_eq, eq_iff, ltb, leb, ◌==◌, if◌then◌else◌, Bool-cases, Option-cases,
  length, length-append, keep_if, length-keep_if-le, all_of, any_of, All, contains, ℤ, pos, negsuc,
  pos_part, neg_part, ◌+ℤ◌, ◌*ℤ◌, ◌≤ℤ◌, ltb_ℤ, leb_ℤ, wrap64, IsInt64, wrap64_exact, wrap64-IsInt64,
  +ℤ_parts, eq_of_parts, lookup, insert, delete, lookup-insert, lookup-delete, Call, served,
  refused, lost, is_empty, cut_prefix, has_prefix, cut_prefix-append,
}
use Prim.Native.String.{◌++◌ as str_append}
use redline.Redis.{Hashes}

unfoldable pub gpu_binding_key : String → String
gpu_binding_key device = str_append "gpu:binding:" device

-- The first entry of the script's answer, and the other two where it refuses.
pub data BindReply : Type 0 where
  granted : BindReply
  refused_with : String → Option String → BindReply

pub data BindError : Type 0 where
  unreachable : BindError
  zeroing_in_progress : BindError
  bound_to_other_tenant : String → Option String → BindError

-- `none` is the nil error.
unfoldable pub bind_error : BindReply → Option BindError
bind_error granted = none
bind_error (refused_with tenant allocation) =
    if str_eq tenant "zeroing"
    then some zeroing_in_progress
    else some (bound_to_other_tenant tenant allocation)

abbrev pub same_text : Option String → String → Bool
same_text none t = false
same_text (some s) t = str_eq s t

module _ (R : Hashes) where
  open R use {Db, hget, hset, hdel, del}

  -- What the script does where the device is free or its tenant asks again.
  unfoldable pub claim : Db → String → String → String → Db
  claim d key tenant allocation =
      hdel (hset (hset d key "tenant_id" tenant) key "allocation_id" allocation) key "zeroing"

  unfoldable pub bind_script : Db → String → String → String → Db × BindReply
  unfolding claim
  bind_script d key tenant allocation =
      if same_text (hget d key "zeroing") "1"
      then (d, refused_with "zeroing" (some ""))
      else elim (hget d key "tenant_id") [
        | none ↦ (claim d key tenant allocation, granted)
        | some existing ↦
            if str_eq existing tenant
            then (claim d key tenant allocation, granted)
            else (d, refused_with existing (hget d key "allocation_id"))
      ]

  unfoldable pub release_script : Db → String → String → Db
  release_script d key allocation =
      if same_text (hget d key "allocation_id") allocation
      then hdel (hdel (hset d key "zeroing" "1") key "tenant_id") key "allocation_id"
      else d

  unfoldable pub complete_zero_script : Db → String → Db
  complete_zero_script d key = if same_text (hget d key "zeroing") "1" then del d key else d

  -- The methods. A call that is refused leaves the data alone; one whose answer is lost does not.
  unfoldable pub bind : Call → Db → String → String → String → Db × Option BindError
  unfolding bind_script bind_error
  bind refused d device tenant allocation = (d, some unreachable)
  bind lost d device tenant allocation =
      ((bind_script d (gpu_binding_key device) tenant allocation).0, some unreachable)
  bind served d device tenant allocation =
      let (d', reply) = bind_script d (gpu_binding_key device) tenant allocation in
      (d', bind_error reply)

  unfoldable pub release : Call → Db → String → String → Db
  unfolding release_script
  release refused d device allocation = d
  release _ d device allocation = release_script d (gpu_binding_key device) allocation

  unfoldable pub complete_zero : Call → Db → String → Db
  unfolding complete_zero_script
  complete_zero refused d device = d
  complete_zero _ d device = complete_zero_script d (gpu_binding_key device)

  -- `zeroed` is whether the zeroing pass, `zero` in the source, succeeded.
  unfoldable pub zero_device : Bool → Call → Db → String → Db
  unfolding complete_zero
  zero_device zeroed c d device = if zeroed then complete_zero c d device else d

  unfoldable pub tenant_for : Db → String → Option String
  tenant_for d device = hget d (gpu_binding_key device) "tenant_id"

  unfoldable pub is_zeroing : Db → String → Bool
  is_zeroing d device = same_text (hget d (gpu_binding_key device) "zeroing") "1"
