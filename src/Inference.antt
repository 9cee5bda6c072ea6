-- ===== src/Inference.antt =====
-- internal/inference: vllm_args.go, vllm_kvcache.go, vllm_batching.go, vllm_chunked_prefill.go,
-- prefix_router.go and vllm_oom.go, the arguments that an engine is started with and the choice of a
-- backend. An int is an int64. Comparison of floats is an argument.
pub mod Sizing
use redline.Base.{
  ℕ, zero, suc, ◌+◌, ◌-◌, ◌*◌, ◌/◌, ◌%◌, ◌^◌, ◌≤◌, ◌<◌, min, max, String, ◌≡◌, refl, sym, ap, subst,
  ◌∙◌, ◌≢◌, ◌↔◌, ◌⊎◌, inl, inr, Bool, true, false, not, ◌&&◌, ◌||◌, Option, none, some, List, [],
  ◌∷◌, ◌++◌, map, arith, str_eq, eq_iff, ltb, leb, ◌==◌, if◌then◌else◌, Bool-cases, Option-cases,
  length, length-append, keep_if, length-keep_if-le, all_of, any_of, All, contains, ℤ, pos, negsuc,
  pos_part, neg_part, ◌+ℤ◌, ◌*ℤ◌, ◌≤ℤ◌, ltb_ℤ, leb_ℤ, wrap64, IsInt64, wrap64_exact, wrap64-IsInt64,
  +ℤ_parts, eq_of_parts, lookup, insert, delete, lookup-insert, lookup-delete, Call, served,
  refused, lost, is_empty, cut_prefix, has_prefix, cut_prefix-append, In, str_contains, has_suffix,
  sub_ℕ,
}
use redline.Ingest.Vram.{ModelGeometry, mul64, quot, kv_cache_bytes_per_token}

pub data Precision : Type 0 where
  fp16_precision fp8_precision int4_precision : Precision
  other_precision : String → Precision

pub record NodeHardwareProfile : Type 0 where
  pub gpu_count : ℤ
  pub vram_bytes_per_gpu : ℤ

pub record EngineArgs (F : Type 0) : Type 0 where
  pub max_model_len : ℤ
  pub dtype : String
  pub quantization : String
  pub tensor_parallel_size : ℕ
  pub gpu_memory_utilization : F

pub data Rendered (F : Type 0) : Type 0 where
  rendered : EngineArgs F → Rendered F
  unknown_precision : String → Rendered F
  invalid_profile exceeds_capacity : Rendered F

unfoldable pub dtype_for_precision : Precision → Option (String × String)
dtype_for_precision fp16_precision = some ("float16", "")
dtype_for_precision fp8_precision = some ("float16", "fp8")
dtype_for_precision int4_precision = some ("float16", "awq")
dtype_for_precision (other_precision p) = none

unfoldable pub precision_name : Precision → String
precision_name fp16_precision = "fp16"
precision_name fp8_precision = "fp8"
precision_name int4_precision = "int4"
precision_name (other_precision p) = p

-- The loop over degrees: how many are left, and the next.
unfoldable pub first_degree : ℕ → ℕ → ℤ → ℤ → Option ℕ
unfolding mul64
first_degree zero degree vram footprint = none
first_degree (suc left) degree vram footprint =
    let rest = first_degree left (suc degree) vram footprint in
    if leb_ℤ footprint (mul64 (pos degree) vram) then some degree else rest

-- `less` compares floats, `floor` and `ceiling` are 0.80 and 0.85.
module _ {F : Type 0} (less : F → F → Bool) (floor ceiling : F) where
  unfoldable pub clamp_gpu_memory_utilization : F → F
  clamp_gpu_memory_utilization requested =
      if less requested floor then floor else if less ceiling requested then ceiling else requested

  unfoldable pub with_degree : ModelGeometry → String × String → F → Option ℕ → Rendered F
  unfolding clamp_gpu_memory_utilization
  with_degree g flags requested none = exceeds_capacity
  with_degree g flags requested (some tp) = rendered (record {
    max_model_len = g.context_length;
    dtype = flags.0;
    quantization = flags.1;
    tensor_parallel_size = tp;
    gpu_memory_utilization = clamp_gpu_memory_utilization requested;
  })

  unfoldable pub render_engine_args :
      ModelGeometry → ℤ → Precision → NodeHardwareProfile → F → Rendered F
  unfolding dtype_for_precision precision_name first_degree with_degree
  render_engine_args g footprint p profile requested = elim (dtype_for_precision p) [
    | none ↦ unknown_precision (precision_name p)
    | some flags ↦
        if leb_ℤ profile.gpu_count (pos 0) || leb_ℤ profile.vram_bytes_per_gpu (pos 0)
        then invalid_profile
        else with_degree g flags requested
            (first_degree (pos_part profile.gpu_count) 1 profile.vram_bytes_per_gpu footprint)
  ]

pub record KvCacheConfig : Type 0 where
  pub block_size : ℤ
  pub num_gpu_blocks : ℤ

-- A block size that wraps to 0 makes the division panic.
pub data KvSized : Type 0 where
  sized : KvCacheConfig → KvSized
  invalid_geometry budget_too_small division_panic : KvSized

-- Go's division by a divisor that is not 0.
unfoldable pub div64 : ℤ → ℤ → ℤ
unfolding quot
div64 a (pos k) = quot a k
div64 a (negsuc k) = wrap64 (sub_ℕ (neg_part (quot a (suc k))) (pos_part (quot a (suc k))))

unfoldable pub blocks_in : ℤ → ℤ → KvSized
unfolding div64
blocks_in budget bytes_per_block =
    if leb_ℤ bytes_per_block (pos 0) && leb_ℤ (pos 0) bytes_per_block
    then division_panic
    else if leb_ℤ (div64 budget bytes_per_block) (pos 0)
    then budget_too_small
    else sized (record { block_size = pos 16; num_gpu_blocks = div64 budget bytes_per_block })

unfoldable pub render_kv_cache_config : ModelGeometry → ℤ → KvSized
unfolding blocks_in mul64 kv_cache_bytes_per_token
render_kv_cache_config g budget =
    if leb_ℤ (kv_cache_bytes_per_token g) (pos 0)
    then invalid_geometry
    else blocks_in budget (mul64 (kv_cache_bytes_per_token g) (pos 16))

pub record BatchingConfig : Type 0 where
  pub max_num_batched_tokens : ℤ
  pub max_num_seqs : ℤ

abbrev pub at_least_one : ℤ → ℤ
at_least_one n = if ltb_ℤ n (pos 1) then pos 1 else n

unfoldable pub render_batching_config : KvCacheConfig → ℤ → BatchingConfig
unfolding mul64 quot
render_batching_config kv max_model_len =
    let total = mul64 kv.block_size kv.num_gpu_blocks in
    record {
      max_num_batched_tokens = at_least_one (if ltb_ℤ (pos 8192) total then pos 8192 else total);
      max_num_seqs =
          if ltb_ℤ (pos 0) max_model_len
          then at_least_one (quot total (pos_part max_model_len))
          else pos 1;
    }

unfoldable pub render_chunked_prefill_config : ℤ → BatchingConfig → Bool
render_chunked_prefill_config max_model_len batching =
    ltb_ℤ batching.max_num_batched_tokens max_model_len

pub record Message : Type 0 where
  pub role : String
  pub content : String

-- `PrefixRouter.Select`, among any two backends.
unfoldable pub select_backend : {B : Type 0} → B → B → List String → List Message → B
select_backend sglang fallback shared_prefixes [] = fallback
select_backend sglang fallback shared_prefixes (m ∷ ms) =
    if str_eq m.role "system" && contains m.content shared_prefixes then sglang else fallback

-- The error's text, lowered, if there is an error.
unfoldable pub is_cuda_out_of_memory : Option String → Bool
is_cuda_out_of_memory none = false
is_cuda_out_of_memory (some msg) = str_contains msg "cuda" && str_contains msg "out of memory"
