-- ===== src/Quant.antt =====
-- internal/quant: placement.go and pipeline.go, the precision that a model is served at and the node
-- that it is placed on, and fp8_capability.go. Parsing of a capability's number, with its
-- comparison to 8.9, is an argument.
use redline.Base.{
  String, ◌≡◌, refl, Bool, true, false, not, ◌&&◌, Option, none, some, List, [], ◌∷◌, if◌then◌else◌,
  ℤ, leb_ℤ, is_empty, In,
}
use redline.Ingest.Vram.{VramFootprint}
use redline.Inference.{Precision, fp16_precision, fp8_precision}
use redline.Scheduler.BinPacking.{
  NodeCapacity, PlacementError, Placement, placed, refused_placement, select_node,
}
use redline.Scheduler.BinPacking.BestFit.{Fits, IsBestFit, IsRight, select_node-best_fit}

unfoldable pub select_precision : Bool → ℤ → ℤ → ℤ → Precision
select_precision fp8_supported fp16_bytes fp8_bytes vram_bytes_per_gpu =
    if leb_ℤ fp16_bytes vram_bytes_per_gpu
    then fp16_precision
    else if fp8_supported && leb_ℤ fp8_bytes vram_bytes_per_gpu
    then fp8_precision
    else fp16_precision

pub data PlacementDecision : Type 0 where
  decided : Precision → NodeCapacity → PlacementDecision
  no_capacity_without_fp8 : PlacementDecision
  no_capacity_with_fp8 : PlacementError → PlacementDecision

unfoldable pub place_quantized : Placement → PlacementDecision
place_quantized (placed n) = decided fp8_precision n
place_quantized (refused_placement e) = no_capacity_with_fp8 e

unfoldable pub select_placement : Bool → VramFootprint → List NodeCapacity → PlacementDecision
unfolding place_quantized
select_placement fp8_supported footprint nodes =
    elim (select_node nodes footprint.fp16.total_estimate) [
      | placed n ↦ decided fp16_precision n
      | refused_placement e ↦
          if not fp8_supported
          then no_capacity_without_fp8
          else place_quantized (select_node nodes footprint.fp8.total_estimate)
    ]

-- The first line of the probe's output that is not blank; `none` is an error. `trim` and
-- `at_least_8_9` are the libraries'.
unfoldable pub probe_node_fp8_support :
    (String → String) → (String → Option Bool) → Option (List String) → Option Bool
probe_node_fp8_support trim at_least_8_9 none = none
probe_node_fp8_support trim at_least_8_9 (some []) = none
probe_node_fp8_support trim at_least_8_9 (some (line ∷ lines)) =
    let rest = probe_node_fp8_support trim at_least_8_9 (some lines) in
    if is_empty (trim line) then rest else at_least_8_9 (trim line)

abbrev pub NoneFits : List NodeCapacity → ℤ → Type 0
NoneFits nodes required = (m : NodeCapacity) → In m nodes → ¬ Fits required m

-- What a decision says of the nodes.
pub record IsQuantized (nodes : List NodeCapacity) (footprint : VramFootprint) (n : NodeCapacity)
    : Type 0 where
  pub unquantized : NoneFits nodes footprint.fp16.total_estimate
  pub best : IsBestFit nodes footprint.fp8.total_estimate n

abbrev pub IsJustified : Bool → List NodeCapacity → VramFootprint → PlacementDecision → Type 0
IsJustified fp8 nodes footprint (decided fp16_precision n) =
    IsBestFit nodes footprint.fp16.total_estimate n
IsJustified fp8 nodes footprint (decided fp8_precision n) =
    (fp8 ≡ true) × IsQuantized nodes footprint n
IsJustified fp8 nodes footprint (decided _ n) = ⊥
IsJustified fp8 nodes footprint no_capacity_without_fp8 =
    (fp8 ≡ false) × NoneFits nodes footprint.fp16.total_estimate
IsJustified fp8 nodes footprint (no_capacity_with_fp8 e) =
    NoneFits nodes footprint.fp16.total_estimate × NoneFits nodes footprint.fp8.total_estimate

-- A placement at FP16 is the best fit of the FP16 footprint; one at FP8 is the best fit of the FP8
-- footprint, on hardware that supports it, where no node has room for the FP16 one; and a refusal
-- comes only where no node has room for the FP16 footprint and FP8 is unsupported or fits no node.
pub select_placement-IsJustified :
    (fp8 : Bool) (footprint : VramFootprint) (nodes : List NodeCapacity)
    → IsJustified fp8 nodes footprint (select_placement fp8 footprint nodes)
unfolding select_placement place_quantized
select_placement-IsJustified fp8 footprint nodes =
    first fp8 (select_node nodes footprint.fp16.total_estimate)
      (select_node-best_fit nodes footprint.fp16.total_estimate)
  where
    second :
        (o : Placement)
        → NoneFits nodes footprint.fp16.total_estimate
        → IsRight nodes footprint.fp8.total_estimate o
        → IsJustified true nodes footprint (place_quantized o)
    second (placed n) full h = (refl, record { unquantized = full; best = h })
    second (refused_placement e) full h = (full, h)

    first :
        (fp8 : Bool) (o : Placement)
        → IsRight nodes footprint.fp16.total_estimate o
        → IsJustified fp8 nodes footprint (elim o as (λ x. PlacementDecision) [
          | placed n ↦ decided fp16_precision n
          | refused_placement e ↦
              if not fp8
              then no_capacity_without_fp8
              else place_quantized (select_node nodes footprint.fp8.total_estimate)
        ])
    first fp8 (placed n) h = h
    first false (refused_placement e) h = (refl, h)
    first true (refused_placement e) h =
        second (select_node nodes footprint.fp8.total_estimate) h
          (select_node-best_fit nodes footprint.fp8.total_estimate)
