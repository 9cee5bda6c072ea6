-- ===== src/Ratelimit/Window.antt =====
-- internal/ratelimit/limiter.go: what the window bounds.
use redline.Base.{
  ℕ, ◌+◌, ◌≤◌, ◌<◌, String, ◌≡◌, refl, ap, Bool, true, false, ◌&&◌, Option, none, some, List, [],
  ◌∷◌, arith, ltb, leb, if◌then◌else◌, length, keep_if, ℤ, pos, pos_part, ltb_ℤ, Call, served,
  refused, lost, sub_ℕ,
}
use redline.Redis.{Scores}
use redline.Ratelimit.{
  Decision, allowed, denied, allow, sliding_window_script, decision, pruned, is_full,
}

-- Whether a request at a time is in the window that ends at another.
abbrev pub in_window : ℕ → ℕ → ℕ → Bool
in_window window end time = ltb end (time + window)

abbrev pub in_count : ℕ → ℕ → List ℕ → ℕ
in_count window end times = length (keep_if (in_window window end) times)

count-pruned :
    (window now end : ℕ) (times : List ℕ)
    → now ≤ end
    → in_count window end (keep_if (λ s. ltb_ℤ (sub_ℕ now window) (pos s)) times)
      ≡ in_count window end times
count-pruned window now end [] le = refl
count-pruned window now end (s ∷ times) le =
    ground (arith, le, count-pruned window now end times le)

length-pruned :
    (window now : ℕ) (times : List ℕ)
    → length (keep_if (λ s. ltb_ℤ (sub_ℕ now window) (pos s)) times) ≡ in_count window now times
length-pruned window now [] = refl
length-pruned window now (s ∷ times) = ground (arith, length-pruned window now times)

count-later :
    (window now end : ℕ) (times : List ℕ)
    → now ≤ end
    → in_count window end times ≤ in_count window now times
count-later window now end [] le = omega arith
count-later window now end (s ∷ times) le = ground (arith, le, count-later window now end times le)

-- The times of the calls do not go back, from a time on.
abbrev pub ascending : ℕ → List (Call × ℕ) → Bool
ascending from [] = true
ascending from ((c, now) ∷ calls) = leb from now && ascending now calls

abbrev pub last_time : ℕ → List (Call × ℕ) → ℕ
last_time from [] = from
last_time from ((c, now) ∷ calls) = last_time now calls

abbrev pub is_allowed : Option Decision → Bool
is_allowed none = false
is_allowed (some allowed) = true
is_allowed (some (denied wait)) = false

module _ (R : Scores) (key : String) (window : ℕ) (limit : ℤ) where
  open R use {Db, scores, zremrange, zadd_new, scores-zremrange, count-zadd}

  -- The times of the requests whose answer was that they are allowed, the last first, given those
  -- before.
  unfoldable pub history : Db → List ℕ → List (Call × ℕ) → List ℕ
  history d before [] = before
  history d before ((c, now) ∷ calls) =
      let (d', answer) = allow R c d key now window limit in
      history d' (if is_allowed answer then now ∷ before else before) calls

  record Tracks (d : Db) (before : List ℕ) (from : ℕ) : Type 0 where
    covered :
        (end : ℕ) → from ≤ end → in_count window end before ≤ in_count window end (scores d key)
    bounded : in_count window from (scores d key) ≤ pos_part limit

  pruned-Tracks :
      (d : Db) (before : List ℕ) (from now : ℕ)
      → from ≤ now
      → Tracks d before from
      → Tracks (pruned R d key now window) before now
  unfolding pruned
  pruned-Tracks d before from now le t = record {
    covered = λ end later. omega (
      arith,
      ap (in_count window end) (scores-zremrange d key (sub_ℕ now window)),
      count-pruned window now end (scores d key) later,
      t.covered end (omega (arith, le, later)),
    );
    bounded = ground (
      arith,
      ap (in_count window now) (scores-zremrange d key (sub_ℕ now window)),
      count-pruned window now now (scores d key) (omega arith),
      count-later window from now (scores d key) le,
      t.bounded,
    );
  }

  admitted-Tracks :
      (d : Db) (before : List ℕ) (now : ℕ)
      → in_count window now (scores d key) < pos_part limit
      → Tracks d before now
      → Tracks (zadd_new d key now) (now ∷ before) now
  admitted-Tracks d before now less t = record {
    covered = λ end later.
        ground (arith, count-zadd d key now (in_window window end), t.covered end later);
    bounded = ground (arith, count-zadd d key now (in_window window now), less);
  }

  room :
      (d : Db) (now : ℕ)
      → is_full R (pruned R d key now window) key limit ≡ false
      → in_count window now (scores (pruned R d key now window) key) < pos_part limit
  unfolding pruned is_full
  room d now h = ground (
    arith,
    h,
    ap length (scores-zremrange d key (sub_ℕ now window)),
    length-pruned window now (scores d key),
    ap (in_count window now) (scores-zremrange d key (sub_ℕ now window)),
    count-pruned window now now (scores d key) (omega arith),
  )

  later-Tracks :
      (d : Db) (before : List ℕ) (from now : ℕ)
      → from ≤ now
      → Tracks d before from
      → Tracks d before now
  later-Tracks d before from now le t = record {
    covered = λ end later. t.covered end (omega (arith, le, later));
    bounded = omega (arith, count-later window from now (scores d key) le, t.bounded);
  }

  -- The entry of a request that is answered with an error may be there.
  more-Tracks :
      (d : Db) (before : List ℕ) (now : ℕ) → Tracks d (now ∷ before) now → Tracks d before now
  more-Tracks d before now t = record {
    covered = λ end later. ground (arith, t.covered end later);
    bounded = t.bounded;
  }

  script-Tracks :
      (d : Db) (before : List ℕ) (now : ℕ) (wait : ℤ) (full : Bool)
      → is_full R (pruned R d key now window) key limit ≡ full
      → Tracks (pruned R d key now window) before now
      → Tracks
          (if full then pruned R d key now window else zadd_new (pruned R d key now window) key now)
          (if is_allowed (some (if full then denied wait else allowed))
            then now ∷ before
            else before)
          now
  script-Tracks d before now wait true h t = t
  script-Tracks d before now wait false h t =
      admitted-Tracks (pruned R d key now window) before now (room d now h) t

  lost-Tracks :
      (d : Db) (before : List ℕ) (now : ℕ) (full : Bool)
      → is_full R (pruned R d key now window) key limit ≡ full
      → Tracks (pruned R d key now window) before now
      → Tracks
          (if full then pruned R d key now window else zadd_new (pruned R d key now window) key now)
          before
          now
  lost-Tracks d before now true h t = t
  lost-Tracks d before now false h t =
      more-Tracks _ before now
        (admitted-Tracks (pruned R d key now window) before now (room d now h) t)

  allow-Tracks :
      (c : Call) (d : Db) (before : List ℕ) (from now : ℕ)
      → from ≤ now
      → Tracks d before from
      → Tracks
          (allow R c d key now window limit).0
          (if is_allowed (allow R c d key now window limit).1 then now ∷ before else before)
          now
  unfolding allow sliding_window_script decision
  allow-Tracks refused d before from now le t = later-Tracks d before from now le t
  allow-Tracks served d before from now le t =
      script-Tracks d before now _ _ refl (pruned-Tracks d before from now le t)
  allow-Tracks lost d before from now le t =
      lost-Tracks d before now _ refl (pruned-Tracks d before from now le t)

  history-bounded :
      (calls : List (Call × ℕ)) (d : Db) (before : List ℕ) (from : ℕ)
      → Tracks d before from
      → ascending from calls ≡ true
      → in_count window (last_time from calls) (history d before calls) ≤ pos_part limit
  unfolding history
  history-bounded [] d before from t h = omega (arith, t.covered from (omega arith), t.bounded)
  history-bounded ((c, now) ∷ calls) d before from t h =
      history-bounded calls _ _ now (allow-Tracks c d before from now (ground (arith, h)) t)
        (ground (arith, h))

  -- From an empty window, over any calls whose times do not go back, however they end: of the
  -- requests whose answer was that they are allowed, no more than the limit are in the window that
  -- ends with the last call.
  pub window-bounded :
      (calls : List (Call × ℕ)) (d : Db)
      → scores d key ≡ []
      → ascending 0 calls ≡ true
      → in_count window (last_time 0 calls) (history d [] calls) ≤ pos_part limit
  window-bounded calls d e h =
      history-bounded calls d [] 0
        (record {
          covered = λ end later. omega arith;
          bounded = ground (arith, ap (in_count window 0) e);
        })
        h
