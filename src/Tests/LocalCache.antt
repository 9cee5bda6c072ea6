-- ===== src/Tests/LocalCache.antt =====
-- Witnesses for internal/localcache.
use redline.Base.{
  ◌+◌, ◌<◌, ◌≡◌, refl, subst, ◌↔◌, ◌-◌, ◌^◌, inr, wrap64, none, some, List, [], ◌∷◌, arith, eq_iff,
  pos,
}
use redline.LocalCache.{Entry, LruCache, insufficient_capacity, new_lru_cache, find, put, acquire}
use redline.LocalCache.Entries.{pinned_except}
use redline.LocalCache.Invariant.{Inv, Exact, Within}
use redline.LocalCache.Putting
use redline.LocalCache.Calls
use redline.LocalCache.Calls.{Op, puts, gets, acquires, releases, removes, run, InUse}

abbrev warm_up : List Op
warm_up = puts "m1" "/nvme/m1" 60 ∷ puts "m2" "/nvme/m2" 30 ∷ acquires "m1" ∷ []

abbrev two_models : LruCache
two_models = record {
  max_bytes = pos 100;
  used_bytes = 90;
  order =
      record { element = 1; key = "m2"; path = "/nvme/m2"; size = 30; ref_count = 0 }
      ∷ record { element = 0; key = "m1"; path = "/nvme/m1"; size = 60; ref_count = 1 }
      ∷ [];
  elements = ("m1", 0) ∷ ("m2", 1) ∷ [];
  next_element = 2;
  removed = [];
}

two_models-run : run (new_lru_cache (pos 100)) warm_up ≡ two_models
unfolding new_lru_cache run Calls.step put acquire wrap64
two_models-run = refl

run-Inv_example :
    Inv (run (new_lru_cache (pos 100)) warm_up)
    × Exact 90 (run (new_lru_cache (pos 100)) warm_up)
    × Within (run (new_lru_cache (pos 100)) warm_up)
run-Inv_example = Calls.run-Inv (pos 100) warm_up (omega arith)

two_models-Inv : Inv two_models
two_models-Inv = subst Inv two_models-run (Calls.run-Inv (pos 100) warm_up (omega arith)).0

abbrev m1_entry : Entry
m1_entry = record { element = 0; key = "m1"; path = "/nvme/m1"; size = 60; ref_count = 1 }

put_keeps_referenced_example : find (put two_models "m3" "/nvme/m3" 40).0 "m1" ≡ some m1_entry
unfolding find
put_keeps_referenced_example =
    Putting.put_keeps_referenced two_models "m3" "/nvme/m3" 40 two_models-Inv "m1" m1_entry
      (λ e. ground (arith, eq_iff "m3" "m1")) refl (omega arith)

put-fails_iff_example :
    ((put two_models "m3" "/nvme/m3" 41).1 ≡ some insufficient_capacity)
    ↔ ((0 < 100) × (100 < pinned_except "m3" two_models.order + 41))
put-fails_iff_example =
    Putting.put-fails_iff two_models "m3" "/nvme/m3" 41 two_models-Inv refl (inr (omega arith))
      (omega arith)

-- A size that wraps the sum is let in: the used bytes are then those of a negative number.
wrapped_put : (put two_models "m3" "/nvme/m3" (2 ^ 63 - 1)).1 ≡ none
unfolding put wrap64
wrapped_put = refl

put_outcome_example :
    ((put two_models "m1" "/nvme/m1b" 101).1 ≡ none
      → (e : Entry) × (find (put two_models "m1" "/nvme/m1b" 101).0 "m1" ≡ some e)
        × (e.path ≡ "/nvme/m1b")
        × (e.size ≡ 101)
        × (e.ref_count ≡ 0))
    × ((put two_models "m1" "/nvme/m1b" 101).1 ≡ some insufficient_capacity
        → find (put two_models "m1" "/nvme/m1b" 101).0 "m1" ≡ none)
put_outcome_example = Putting.put_outcome two_models "m1" "/nvme/m1b" 101 two_models-Inv

run-InUse_example :
    InUse "m1" "/nvme/m1" (run two_models (puts "m3" "/nvme/m3" 40 ∷ gets "m1" ∷ []))
unfolding find
run-InUse_example =
    Calls.run-InUse "m1" "/nvme/m1" (puts "m3" "/nvme/m3" 40 ∷ gets "m1" ∷ []) two_models
      two_models-Inv refl (m1_entry, refl, refl, omega arith)
