-- ===== src/Scheduler/Idle.antt =====
-- internal/scheduler/idle.go: each allocation's last request, as milliseconds in Redis. The time
-- of a call is an argument. A stored text that is no number does not occur, since only `Touch`
-- writes these keys.
use redline.Base.{
  ℕ, ◌+◌, String, ◌≡◌, none, some, arith, str_eq, eq_iff, if◌then◌else◌, ℤ, pos, pos_part, neg_part,
  Call, served, refused, sub_ℕ,
}
use Prim.Native.String.{◌++◌ as str_append}
use text.Mathlib.TextLemmas.{append_cancel_left}
use redline.Redis.{Numbers}

unfoldable pub idle_key : String → String
idle_key allocation = str_append "idle:" allocation

-- An idle time in milliseconds, which is negative where the clock went back.
pub data IdleDuration : Type 0 where
  idle_for : ℤ → IdleDuration
  no_idle_record idle_unreadable : IdleDuration

module _ (R : Numbers) where
  open R use {Db, get, set, del, get-set, get-del}

  unfoldable pub touch : Call → Db → String → ℕ → Db
  touch refused d allocation now = d
  touch _ d allocation now = set d (idle_key allocation) (pos now)

  unfoldable pub idle_duration : Call → Db → String → ℕ → IdleDuration
  idle_duration served d allocation now = elim (get d (idle_key allocation)) [
    | none ↦ no_idle_record
    | some last ↦ idle_for (sub_ℕ (now + neg_part last) (pos_part last))
  ]
  idle_duration _ d allocation now = idle_unreadable

  unfoldable pub forget : Call → Db → String → Db
  forget refused d allocation = d
  forget _ d allocation = del d (idle_key allocation)

  idle_key_eq : (a b : String) → str_eq (idle_key a) (idle_key b) ≡ str_eq a b
  unfolding idle_key
  idle_key_eq a b = ground (
    arith,
    eq_iff a b,
    eq_iff (str_append "idle:" a) (str_append "idle:" b),
    append_cancel_left "idle:" a b,
  )

  -- After a touch of one allocation its idle time counts from that touch, and after a forget it
  -- has no record; neither call changes what is read of another allocation.
  pub idle_duration_lem :
      (d : Db) (a b : String) (t now : ℕ)
      → (idle_duration served (touch served d a t) b now
          ≡ (if str_eq a b then idle_for (sub_ℕ now t) else idle_duration served d b now))
        × (idle_duration served (forget served d a) b now
            ≡ (if str_eq a b then no_idle_record else idle_duration served d b now))
  unfolding idle_duration touch forget
  idle_duration_lem d a b t now = (
    ground (arith, get-set d (idle_key a) (pos t) (idle_key b), idle_key_eq a b),
    ground (arith, get-del d (idle_key a) (idle_key b), idle_key_eq a b),
  )
