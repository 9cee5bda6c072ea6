-- ===== src/Tests/Inference.antt =====
-- Witnesses for internal/inference and internal/quant.
use redline.Base.{ℕ, ◌≡◌, refl, true, some, List, [], ◌∷◌, arith, ltb, pos, ◌*ℤ◌, wrap64}
use redline.Ingest.Vram.{ModelGeometry, VramEstimate, VramFootprint, kv_cache_bytes_per_token}
use redline.Inference.{
  fp8_precision, dtype_for_precision, render_engine_args, render_kv_cache_config,
}
use redline.Inference.Sizing.{IsSharded, IsSizedBy}
use redline.Inference.Sizing
use redline.Scheduler.BinPacking.{NodeCapacity}
use redline.Quant.{IsJustified, select_placement}
use redline.Quant

abbrev small_model : ModelGeometry
small_model = record {
  num_layers = pos 2;
  num_attention_heads = pos 4;
  num_key_value_heads = pos 2;
  hidden_size = pos 64;
  context_length = pos 128;
}

fp8_flags : dtype_for_precision fp8_precision ≡ some ("float16", "fp8")
unfolding dtype_for_precision
fp8_flags = refl

-- Utilization in thousandths.
render_engine_args-IsSharded_example : IsSharded 4 100 250 small_model (
    render_engine_args ltb 800 850 small_model
      (pos 250)
      fp8_precision
      (record { gpu_count = pos 4; vram_bytes_per_gpu = pos 100 })
      900)
render_engine_args-IsSharded_example =
    Sizing.render_engine_args-IsSharded ltb 800 850 small_model 250 fp8_precision ("float16", "fp8")
      4 100 900 fp8_flags (omega arith) (omega arith) (omega arith)

small_bytes : kv_cache_bytes_per_token small_model ≡ pos 256
unfolding kv_cache_bytes_per_token wrap64 ◌*ℤ◌
small_bytes = refl

render_kv_cache_config-IsSizedBy_example :
    IsSizedBy 256 128 1000000 (render_kv_cache_config small_model (pos 1000000))
render_kv_cache_config-IsSizedBy_example =
    Sizing.render_kv_cache_config-IsSizedBy small_model 256 128 1000000 small_bytes (omega arith)
      (omega arith) (omega arith) (omega arith)

abbrev estimate : ℕ → VramEstimate
estimate n = record { weights_bytes = pos n; kv_cache_estimate = pos 0; total_estimate = pos n }

abbrev footprint_70b : VramFootprint
footprint_70b = record { fp16 = estimate 140; fp8 = estimate 70; int4 = estimate 35 }

abbrev two_nodes : List NodeCapacity
two_nodes =
    record { node_id = "n1"; free_vram_bytes = pos 80 }
    ∷ record { node_id = "n2"; free_vram_bytes = pos 75 }
    ∷ []

select_placement-IsJustified_example :
    IsJustified true two_nodes footprint_70b (select_placement true footprint_70b two_nodes)
select_placement-IsJustified_example =
    Quant.select_placement-IsJustified true footprint_70b two_nodes
