-- ===== src/Scheduler/GpuBinding/Refinement.antt =====
-- The scripts of internal/scheduler/gpubinding.go against a device that is free, held, or dirty.
use redline.Base.{
  String, ◌≡◌, refl, inl, inr, true, false, Option, none, some, arith, str_eq, eq_iff,
  if◌then◌else◌, Bool-cases,
}
use Prim.Native.String.{◌++◌ as str_append}
use text.Mathlib.TextLemmas.{append_cancel_left}
use redline.Redis.{Hashes}
use redline.Scheduler.GpuBinding.{
  gpu_binding_key, BindReply, granted, refused_with, claim, bind_script, release_script,
  complete_zero_script,
}

-- `held tenant allocation`; a dirty device waits for its zeroing pass.
pub data Device : Type 0 where
  free dirty : Device
  held : String → String → Device

unfoldable pub spec_bind : Device → String → String → Device × BindReply
spec_bind free t a = (held t a, granted)
spec_bind dirty t a = (dirty, refused_with "zeroing" (some ""))
spec_bind (held t' a') t a =
    if str_eq t' t then (held t a, granted) else (held t' a', refused_with t' (some a'))

unfoldable pub spec_release : Device → String → Device
spec_release (held t a') a = if str_eq a' a then dirty else held t a'
spec_release dirty a = dirty
spec_release free a = free

unfoldable pub spec_complete : Device → Device
spec_complete dirty = free
spec_complete (held t a) = held t a
spec_complete free = free

abbrev pub tenant_field : Device → Option String
tenant_field (held t a) = some t
tenant_field _ = none

abbrev pub allocation_field : Device → Option String
allocation_field (held t a) = some a
allocation_field _ = none

abbrev pub zeroing_field : Device → Option String
zeroing_field dirty = some "1"
zeroing_field _ = none

pub str_eq_refl : (s : String) → str_eq s s ≡ true
str_eq_refl s = (eq_iff s s).1 refl

-- Different devices have different keys.
pub key_eq : (a b : String) → str_eq (gpu_binding_key a) (gpu_binding_key b) ≡ str_eq a b
unfolding gpu_binding_key
key_eq a b = ground (
  arith,
  eq_iff a b,
  eq_iff (str_append "gpu:binding:" a) (str_append "gpu:binding:" b),
  append_cancel_left "gpu:binding:" a b,
)

module _ (R : Hashes) where
  open R use {Db, hget, hset, hdel, del, hget-hset, hget-hdel, hget-del}

  -- The record at a key stands for a device.
  pub record Stands (d : Db) (key : String) (v : Device) : Type 0 where
    pub tenant : hget d key "tenant_id" ≡ tenant_field v
    pub allocation : hget d key "allocation_id" ≡ allocation_field v
    pub zeroing : hget d key "zeroing" ≡ zeroing_field v

  claim_self : (d : Db) (key t a : String) → Stands (claim R d key t a) key (held t a)
  unfolding claim
  claim_self d key t a = record {
    tenant = simp (hget-hdel, hget-hset, str_eq_refl);
    allocation = simp (hget-hdel, hget-hset, str_eq_refl);
    zeroing = simp (hget-hdel, hget-hset, str_eq_refl);
  }

  bind_script-Stands :
      (d : Db) (key t a : String) (v : Device)
      → Stands d key v
      → Stands (bind_script R d key t a).0 key (spec_bind v t a).0
        × ((bind_script R d key t a).1 ≡ (spec_bind v t a).1)
  unfolding bind_script spec_bind
  bind_script-Stands d key t a free h =
      rw (h.zeroing, bind_script) (rw (h.tenant, bind_script) (claim_self d key t a, refl))
  bind_script-Stands d key t a dirty h = rw (h.zeroing, bind_script) (h, refl)
  bind_script-Stands d key t a (held t' a') h = elim (Bool-cases (str_eq t' t)) [
    | inl same ↦
        rw (h.zeroing, bind_script)
          (rw (h.tenant, bind_script) (rw same (claim_self d key t a, refl)))
    | inr differs ↦
        rw (h.zeroing, bind_script)
          (rw (h.tenant, bind_script) (rw (differs, h.allocation) (h, refl)))
  ]

  release_self :
      (d : Db) (key : String)
      → Stands
          (hdel (hdel (hset d key "zeroing" "1") key "tenant_id") key "allocation_id")
          key
          dirty
  release_self d key = record {
    tenant = simp (hget-hdel, hget-hset, str_eq_refl);
    allocation = simp (hget-hdel, str_eq_refl);
    zeroing = simp (hget-hdel, hget-hset, str_eq_refl);
  }

  release_script-Stands :
      (d : Db) (key a : String) (v : Device)
      → Stands d key v
      → Stands (release_script R d key a) key (spec_release v a)
  unfolding release_script spec_release
  release_script-Stands d key a free h = rw (h.allocation, release_script) h
  release_script-Stands d key a dirty h = rw (h.allocation, release_script) h
  release_script-Stands d key a (held t' a') h = elim (Bool-cases (str_eq a' a)) [
    | inl same ↦ rw (h.allocation, release_script) (rw same (release_self d key))
    | inr differs ↦ rw (h.allocation, release_script) (rw differs h)
  ]

  complete_zero_script-Stands :
      (d : Db) (key : String) (v : Device)
      → Stands d key v
      → Stands (complete_zero_script R d key) key (spec_complete v)
  unfolding complete_zero_script spec_complete
  complete_zero_script-Stands d key free h = rw (h.zeroing, complete_zero_script) h
  complete_zero_script-Stands d key dirty h =
      rw (h.zeroing, complete_zero_script)
        (record {
          tenant = simp (hget-del, str_eq_refl);
          allocation = simp (hget-del, str_eq_refl);
          zeroing = simp (hget-del, str_eq_refl);
        })
  complete_zero_script-Stands d key (held t' a') h = rw (h.zeroing, complete_zero_script) h

  -- Each script carries out the abstract operation on the device at its key, and the bind script
  -- answers as the abstract one does.
  pub script_refinement :
      (d : Db) (key t a : String) (v : Device)
      → Stands d key v
      → (Stands (bind_script R d key t a).0 key (spec_bind v t a).0)
        × ((bind_script R d key t a).1 ≡ (spec_bind v t a).1)
        × (Stands (release_script R d key a) key (spec_release v a))
        × (Stands (complete_zero_script R d key) key (spec_complete v))
  script_refinement d key t a v h =
      let (b, r) = bind_script-Stands d key t a v h in
      (b, r, release_script-Stands d key a v h, complete_zero_script-Stands d key v h)

  module _ (d : Db) (key j f : String) (other : str_eq key j ≡ false) where
    claim_elsewhere : (t a : String) → hget (claim R d key t a) j f ≡ hget d j f
    unfolding claim
    claim_elsewhere t a = simp (hget-hdel, hget-hset, other)

    release_elsewhere :
        hget (hdel (hdel (hset d key "zeroing" "1") key "tenant_id") key "allocation_id") j f
        ≡ hget d j f
    release_elsewhere = simp (hget-hdel, hget-hset, other)

    del_elsewhere : hget (del d key) j f ≡ hget d j f
    del_elsewhere = simp (hget-del, other)

    -- At a key other than its own a script changes nothing.
    pub script_elsewhere :
        (t a : String)
        → (hget (bind_script R d key t a).0 j f ≡ hget d j f)
          × (hget (release_script R d key a) j f ≡ hget d j f)
          × (hget (complete_zero_script R d key) j f ≡ hget d j f)
    unfolding bind_script release_script complete_zero_script
    script_elsewhere t a = (
      ground (arith, claim_elsewhere t a),
      ground (arith, release_elsewhere),
      ground (arith, del_elsewhere),
    )
