-- ===== src/Scheduler/BinPacking.antt =====
-- internal/scheduler/binpacking.go: the best-fit choice of a node. A pointer into the slice of
-- nodes is the node that it points to.
pub mod BestFit
use redline.Base.{
  ℕ, zero, suc, ◌+◌, ◌-◌, ◌*◌, ◌/◌, ◌%◌, ◌^◌, ◌≤◌, ◌<◌, min, max, String, ◌≡◌, refl, sym, ap, subst,
  ◌∙◌, ◌≢◌, ◌↔◌, ◌⊎◌, inl, inr, Bool, true, false, not, ◌&&◌, ◌||◌, Option, none, some, List, [],
  ◌∷◌, ◌++◌, map, arith, str_eq, eq_iff, ltb, leb, ◌==◌, if◌then◌else◌, Bool-cases, Option-cases,
  length, length-append, keep_if, length-keep_if-le, all_of, any_of, All, contains, ℤ, pos, negsuc,
  pos_part, neg_part, ◌+ℤ◌, ◌*ℤ◌, ◌≤ℤ◌, ltb_ℤ, leb_ℤ, wrap64, IsInt64, wrap64_exact, wrap64-IsInt64,
  +ℤ_parts, eq_of_parts, lookup, insert, delete, lookup-insert, lookup-delete, Call, served,
  refused, lost, is_empty, cut_prefix, has_prefix, cut_prefix-append, In, str_contains, has_suffix,
}

pub record NodeCapacity : Type 0 where
  pub node_id : String
  pub free_vram_bytes : ℤ

-- The needed bytes, the largest free amount seen, and the number of nodes, as the error reports.
pub data PlacementError : Type 0 where
  no_capacity : ℤ → ℤ → ℕ → PlacementError

pub data Placement : Type 0 where
  placed : NodeCapacity → Placement
  refused_placement : PlacementError → Placement

-- `best == nil || free < best.free`
unfoldable pub better : NodeCapacity → Option NodeCapacity → Bool
better n none = true
better n (some best) = ltb_ℤ n.free_vram_bytes best.free_vram_bytes

-- One round of the loop, on `best`.
unfoldable pub consider : ℤ → NodeCapacity → Option NodeCapacity → Option NodeCapacity
unfolding better
consider required n best =
    if ltb_ℤ n.free_vram_bytes required then best else if better n best then some n else best

unfoldable pub scan : ℤ → List NodeCapacity → Option NodeCapacity → ℤ → Option NodeCapacity × ℤ
unfolding consider
scan required [] best largest = (best, largest)
scan required (n ∷ ns) best largest =
    scan required ns (consider required n best)
      (if ltb_ℤ largest n.free_vram_bytes then n.free_vram_bytes else largest)

unfoldable pub select_node : List NodeCapacity → ℤ → Placement
unfolding scan
select_node nodes required =
    let (best, largest) = scan required nodes none (pos 0) in
    elim best [
      | none ↦ refused_placement (no_capacity required largest (length nodes))
      | some n ↦ placed n
    ]
