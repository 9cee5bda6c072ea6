-- ===== src/Scheduler/GpuBinding/Isolation.antt =====
-- Sequences of calls on the devices, in any order and by any callers.
use redline.Base.{
  String, ◌≡◌, refl, sym, ap, ◌∙◌, ◌⊎◌, inl, inr, Bool, true, false, ◌&&◌, Option, none, some, List,
  [], ◌∷◌, arith, str_eq, eq_iff, if◌then◌else◌, Bool-cases, any_of, Call, served, refused, lost,
}
use redline.Redis.{Hashes}
use redline.Scheduler.GpuBinding.{
  gpu_binding_key, bind_script, release_script, complete_zero_script, bind, release, complete_zero,
  zero_device, tenant_for,
}
use redline.Scheduler.GpuBinding.Refinement.{
  Device, free, dirty, held, tenant_field, spec_bind, spec_release, spec_complete, Stands, key_eq,
  script_refinement, script_elsewhere,
}

-- One call of a method: how it ends, and its arguments.
pub data Op : Type 0 where
  binds : Call → String → String → String → Op
  releases : Call → String → String → Op
  zeroes : Bool → Call → String → Op

pub spec_step : String → Device → Op → Device
spec_step dev v (binds refused e t a) = v
spec_step dev v (binds _ e t a) = if str_eq e dev then (spec_bind v t a).0 else v
spec_step dev v (releases refused e a) = v
spec_step dev v (releases _ e a) = if str_eq e dev then spec_release v a else v
spec_step dev v (zeroes zeroed refused e) = v
spec_step dev v (zeroes zeroed _ e) = if zeroed && str_eq e dev then spec_complete v else v

pub spec_run : String → Device → List Op → Device
spec_run dev v [] = v
spec_run dev v (o ∷ os) = spec_run dev (spec_step dev v o) os

module _ (R : Hashes) where
  open R use {Db, hget}

  pub step : Db → Op → Db
  step d (binds c e t a) = (bind R c d e t a).0
  step d (releases c e a) = release R c d e a
  step d (zeroes zeroed c e) = zero_device R zeroed c d e

  pub run : Db → List Op → Db
  run d [] = d
  run d (o ∷ os) = run (step d o) os

  abbrev Is : String → Db → Device → Type 0
  Is dev d v = Stands R d (gpu_binding_key dev) v

  -- A record that reads the same stands for the same device.
  Stands-same :
      (d d' : Db) (key : String) (v : Device)
      → ((f : String) → hget d' key f ≡ hget d key f)
      → Stands R d key v
      → Stands R d' key v
  Stands-same d d' key v same h = record {
    tenant = same "tenant_id" ∙ h.tenant;
    allocation = same "allocation_id" ∙ h.allocation;
    zeroing = same "zeroing" ∙ h.zeroing;
  }

  at_device :
      (b : Bool) (d : Db) (dev e : String) (v w : Device) (d' : Db)
      → str_eq e dev ≡ b
      → (e ≡ dev → Is dev d' w)
      → (str_eq (gpu_binding_key e) (gpu_binding_key dev) ≡ false
          → (f : String) → hget d' (gpu_binding_key dev) f ≡ hget d (gpu_binding_key dev) f)
      → Is dev d v
      → Is dev d' (if b then w else v)
  at_device true d dev e v w d' q here elsewhere h = here ((eq_iff e dev).0 q)
  at_device false d dev e v w d' q here elsewhere h =
      Stands-same d d' (gpu_binding_key dev) v (elsewhere (key_eq e dev ∙ q)) h

  bind-Is :
      (d : Db) (dev e t a : String) (v : Device)
      → Is dev d v
      → Is dev
          (bind_script R d (gpu_binding_key e) t a).0
          (if str_eq e dev then (spec_bind v t a).0 else v)
  bind-Is d dev e t a v h =
      at_device (str_eq e dev) d dev e v (spec_bind v t a).0 _ refl
        (λ q. rw q (script_refinement R d (gpu_binding_key dev) t a v h).0)
        (λ o f. (script_elsewhere R d (gpu_binding_key e) (gpu_binding_key dev) f o t a).0) h

  release-Is :
      (d : Db) (dev e a : String) (v : Device)
      → Is dev d v
      → Is dev
          (release_script R d (gpu_binding_key e) a)
          (if str_eq e dev then spec_release v a else v)
  release-Is d dev e a v h =
      at_device (str_eq e dev) d dev e v (spec_release v a) _ refl
        (λ q. rw q (script_refinement R d (gpu_binding_key dev) a a v h).2)
        (λ o f. (script_elsewhere R d (gpu_binding_key e) (gpu_binding_key dev) f o a a).1) h

  complete-Is :
      (d : Db) (dev e : String) (v : Device)
      → Is dev d v
      → Is dev
          (complete_zero_script R d (gpu_binding_key e))
          (if str_eq e dev then spec_complete v else v)
  complete-Is d dev e v h =
      at_device (str_eq e dev) d dev e v (spec_complete v) _ refl
        (λ q. rw q (script_refinement R d (gpu_binding_key dev) e e v h).3)
        (λ o f. (script_elsewhere R d (gpu_binding_key e) (gpu_binding_key dev) f o e e).2) h

  step-Is :
      (d : Db) (dev : String) (v : Device) (o : Op)
      → Is dev d v
      → Is dev (step d o) (spec_step dev v o)
  unfolding step spec_step bind release complete_zero zero_device
  step-Is d dev v (binds refused e t a) h = h
  step-Is d dev v (binds served e t a) h = bind-Is d dev e t a v h
  step-Is d dev v (binds lost e t a) h = bind-Is d dev e t a v h
  step-Is d dev v (releases refused e a) h = h
  step-Is d dev v (releases served e a) h = release-Is d dev e a v h
  step-Is d dev v (releases lost e a) h = release-Is d dev e a v h
  step-Is d dev v (zeroes true refused e) h = h
  step-Is d dev v (zeroes true served e) h = complete-Is d dev e v h
  step-Is d dev v (zeroes true lost e) h = complete-Is d dev e v h
  step-Is d dev v (zeroes false refused e) h = h
  step-Is d dev v (zeroes false served e) h = h
  step-Is d dev v (zeroes false lost e) h = h

  -- After any sequence of calls on any devices, however each call ends, the record of a device
  -- stands for the state that the abstract device has after those calls.
  pub run-refines :
      (os : List Op) (d : Db) (dev : String) (v : Device)
      → Stands R d (gpu_binding_key dev) v
      → Stands R (run d os) (gpu_binding_key dev) (spec_run dev v os)
  unfolding run spec_run
  run-refines [] d dev v h = h
  run-refines (o ∷ os) d dev v h =
      run-refines os (step d o) dev (spec_step dev v o) (step-Is d dev v o h)

-- Whether the calls complete a zeroing pass of the device.
abbrev pub completes : String → Op → Bool
completes dev (zeroes zeroed refused e) = false
completes dev (zeroes zeroed _ e) = zeroed && str_eq e dev
completes dev _ = false

abbrev OnlyFor : String → Device → Type 0
OnlyFor t free = ⊥
OnlyFor t dirty = Unit {0}
OnlyFor t (held t' a) = t' ≡ t

spec_bind-OnlyFor :
    (t : String) (v : Device) (t' a : String) → OnlyFor t v → OnlyFor t (spec_bind v t' a).0
unfolding spec_bind
spec_bind-OnlyFor t dirty t' a h = tt
spec_bind-OnlyFor t (held s b) t' a h = elim (Bool-cases (str_eq s t')) [
  | inl same ↦ rw same (sym ((eq_iff s t').0 same) ∙ h)
  | inr differs ↦ rw differs h
]
spec_bind-OnlyFor t free t' a h = elim h [ ]

spec_release-OnlyFor :
    (t : String) (v : Device) (a : String) → OnlyFor t v → OnlyFor t (spec_release v a)
unfolding spec_release
spec_release-OnlyFor t dirty a h = tt
spec_release-OnlyFor t (held s b) a h = elim (Bool-cases (str_eq b a)) [
  | inl same ↦ rw same tt
  | inr differs ↦ rw differs h
]
spec_release-OnlyFor t free a h = elim h [ ]

if-OnlyFor :
    (b : Bool) (t : String) (w v : Device)
    → OnlyFor t w
    → OnlyFor t v
    → OnlyFor t (if b then w else v)
if-OnlyFor true t w v h k = h
if-OnlyFor false t w v h k = k

spec_step-OnlyFor :
    (dev t : String) (v : Device) (o : Op)
    → completes dev o ≡ false
    → OnlyFor t v
    → OnlyFor t (spec_step dev v o)
unfolding spec_step
spec_step-OnlyFor dev t v (binds refused e t' a) n h = h
spec_step-OnlyFor dev t v (binds served e t' a) n h =
    if-OnlyFor (str_eq e dev) t _ v (spec_bind-OnlyFor t v t' a h) h
spec_step-OnlyFor dev t v (binds lost e t' a) n h =
    if-OnlyFor (str_eq e dev) t _ v (spec_bind-OnlyFor t v t' a h) h
spec_step-OnlyFor dev t v (releases refused e a) n h = h
spec_step-OnlyFor dev t v (releases served e a) n h =
    if-OnlyFor (str_eq e dev) t _ v (spec_release-OnlyFor t v a h) h
spec_step-OnlyFor dev t v (releases lost e a) n h =
    if-OnlyFor (str_eq e dev) t _ v (spec_release-OnlyFor t v a h) h
spec_step-OnlyFor dev t v (zeroes zeroed refused e) n h = h
spec_step-OnlyFor dev t v (zeroes zeroed served e) n h = rw n h
spec_step-OnlyFor dev t v (zeroes zeroed lost e) n h = rw n h

spec_run-OnlyFor :
    (dev t : String) (os : List Op) (v : Device)
    → any_of (completes dev) os ≡ false
    → OnlyFor t v
    → OnlyFor t (spec_run dev v os)
unfolding spec_run
spec_run-OnlyFor dev t [] v n h = h
spec_run-OnlyFor dev t (o ∷ os) v n h =
    spec_run-OnlyFor dev t os (spec_step dev v o) (ground arith)
      (spec_step-OnlyFor dev t v o (ground arith) h)

OnlyFor-tenant :
    (t : String) (v : Device) (x : Option String)
    → OnlyFor t v
    → x ≡ tenant_field v
    → (x ≡ none) ⊎ (x ≡ some t)
OnlyFor-tenant t dirty x h e = inl e
OnlyFor-tenant t (held s a) x h e = inr (e ∙ ap some h)
OnlyFor-tenant t free x h e = elim h [ ]

-- After a device is bound to one tenant, or while it is marked for zeroing, and as long as no
-- zeroing pass of it is completed, no sequence of calls binds it to another tenant: afterwards it
-- is bound to that tenant or to none.
pub tenant-isolation :
    (R : Hashes) (os : List Op) (d : R.Db) (dev t a : String)
    → (Stands R d (gpu_binding_key dev) (held t a)) ⊎ (Stands R d (gpu_binding_key dev) dirty)
    → any_of (completes dev) os ≡ false
    → (tenant_for R (run R d os) dev ≡ none) ⊎ (tenant_for R (run R d os) dev ≡ some t)
unfolding tenant_for
tenant-isolation R os d dev t a (inl h) n =
    OnlyFor-tenant t (spec_run dev (held t a) os) _ (spec_run-OnlyFor dev t os (held t a) n refl)
      (run-refines R os d dev (held t a) h).tenant
tenant-isolation R os d dev t a (inr h) n =
    OnlyFor-tenant t (spec_run dev dirty os) _ (spec_run-OnlyFor dev t os dirty n tt)
      (run-refines R os d dev dirty h).tenant
