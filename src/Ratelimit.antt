-- ===== src/Ratelimit.antt =====
-- internal/ratelimit/limiter.go: a sliding window of admitted requests, kept in a sorted set. Times
-- are milliseconds. The random member is taken to be new; the expiry that PEXPIRE sets falls on
-- a time when every entry has left the window, and is not modelled.
pub mod Window
use redline.Base.{
  ℕ, zero, suc, ◌+◌, ◌-◌, ◌*◌, ◌/◌, ◌%◌, ◌^◌, ◌≤◌, ◌<◌, min, max, String, ◌≡◌, refl, sym, ap, subst,
  ◌∙◌, ◌≢◌, ◌↔◌, ◌⊎◌, inl, inr, Bool, true, false, not, ◌&&◌, ◌||◌, Option, none, some, List, [],
  ◌∷◌, ◌++◌, map, arith, str_eq, eq_iff, ltb, leb, ◌==◌, if◌then◌else◌, Bool-cases, Option-cases,
  length, length-append, keep_if, length-keep_if-le, all_of, any_of, All, contains, ℤ, pos, negsuc,
  pos_part, neg_part, ◌+ℤ◌, ◌*ℤ◌, ◌≤ℤ◌, ltb_ℤ, leb_ℤ, wrap64, IsInt64, wrap64_exact, wrap64-IsInt64,
  +ℤ_parts, eq_of_parts, lookup, insert, delete, lookup-insert, lookup-delete, Call, served,
  refused, lost, is_empty, cut_prefix, has_prefix, cut_prefix-append, In, str_contains, has_suffix,
  sub_ℕ,
}
use redline.Redis.{Scores}

pub data Decision : Type 0 where
  allowed : Decision
  denied : ℤ → Decision

-- When the oldest entry leaves the window; with no entry, the window's length.
unfoldable pub retry_after : List ℕ → ℕ → ℕ → ℤ
retry_after [] now window = pos window
retry_after (oldest ∷ rest) now window = sub_ℕ (oldest + window) now

module _ (R : Scores) where
  open R use {Db, scores, zremrange, zadd_new, scores-zremrange, count-zadd}

  unfoldable pub pruned : Db → String → ℕ → ℕ → Db
  pruned d key now window = zremrange d key (sub_ℕ now window)

  unfoldable pub is_full : Db → String → ℤ → Bool
  is_full d key limit = leb_ℤ limit (pos (length (scores d key)))

  unfoldable pub sliding_window_script : Db → String → ℕ → ℕ → ℤ → Db
  unfolding pruned is_full
  sliding_window_script d key now window limit =
      if is_full (pruned d key now window) key limit
      then pruned d key now window
      else zadd_new (pruned d key now window) key now

  unfoldable pub decision : Db → String → ℕ → ℕ → ℤ → Decision
  unfolding pruned is_full retry_after
  decision d key now window limit =
      if is_full (pruned d key now window) key limit
      then denied (retry_after (scores (pruned d key now window) key) now window)
      else allowed

  -- `none` is an error.
  unfoldable pub allow : Call → Db → String → ℕ → ℕ → ℤ → Db × Option Decision
  unfolding sliding_window_script decision
  allow served d key now window limit =
      (sliding_window_script d key now window limit, some (decision d key now window limit))
  allow refused d key now window limit = (d, none)
  allow lost d key now window limit = (sliding_window_script d key now window limit, none)
