-- ===== src/Ingest/Vram.antt =====
-- internal/ingest/vram.go and architecture.go: parameters counted from a header, and the memory
-- that a model takes at each precision. An int is an int64; all sums and products wrap.
use redline.Base.{
  ℕ, suc, ◌+◌, ◌*◌, ◌/◌, ◌^◌, ◌<◌, ◌≡◌, ap, ◌∙◌, ◌||◌, List, [], ◌∷◌, arith, if◌then◌else◌, ℤ, pos,
  negsuc, pos_part, ◌+ℤ◌, ◌*ℤ◌, leb_ℤ, wrap64, wrap64_exact, sub_ℕ,
}
use redline.Ingest.Header.{TensorInfo}

-- Go's division, which truncates towards 0, by a positive divisor.
unfoldable pub quot : ℤ → ℕ → ℤ
quot (pos n) k = pos (n / k)
quot (negsuc n) k = sub_ℕ 0 (suc n / k)

pub record ModelGeometry : Type 0 where
  pub num_layers : ℤ
  pub num_attention_heads : ℤ
  pub num_key_value_heads : ℤ
  pub hidden_size : ℤ
  pub context_length : ℤ

pub record VramEstimate : Type 0 where
  pub weights_bytes : ℤ
  pub kv_cache_estimate : ℤ
  pub total_estimate : ℤ

pub record VramFootprint : Type 0 where
  pub fp16 : VramEstimate
  pub fp8 : VramEstimate
  pub int4 : VramEstimate

unfoldable pub mul64 : ℤ → ℤ → ℤ
mul64 a b = wrap64 (a *ℤ b)

unfoldable pub kv_cache_bytes_per_token : ModelGeometry → ℤ
unfolding mul64 quot
kv_cache_bytes_per_token g =
    if leb_ℤ g.num_layers (pos 0)
      || leb_ℤ g.num_attention_heads (pos 0)
      || leb_ℤ g.hidden_size (pos 0)
    then pos 0
    else let kv_heads =
        if leb_ℤ g.num_key_value_heads (pos 0)
        then g.num_attention_heads
        else g.num_key_value_heads in
      let head_dim = quot g.hidden_size (pos_part g.num_attention_heads) in
      mul64 (mul64 (mul64 (mul64 (pos 2) g.num_layers) kv_heads) head_dim) (pos 2)

unfoldable pub kv_cache_bytes : ModelGeometry → ℤ
unfolding kv_cache_bytes_per_token
kv_cache_bytes g =
    if leb_ℤ g.context_length (pos 0)
    then pos 0
    else mul64 (kv_cache_bytes_per_token g) g.context_length

unfoldable pub int4_weight_bytes : ℤ → ℤ
unfolding quot
int4_weight_bytes param_count = quot (wrap64 (param_count +ℤ pos 1)) 2

unfoldable pub build : ℤ → ℤ → VramEstimate
build kv weights = record {
  weights_bytes = weights;
  kv_cache_estimate = kv;
  total_estimate = wrap64 (weights +ℤ kv);
}

unfoldable pub compute_vram_footprint : ℤ → ModelGeometry → VramFootprint
unfolding build kv_cache_bytes int4_weight_bytes
compute_vram_footprint param_count g =
    let kv = kv_cache_bytes g in
    record {
      fp16 = build kv (mul64 param_count (pos 2));
      fp8 = build kv (mul64 param_count (pos 1));
      int4 = build kv (int4_weight_bytes param_count);
    }

unfoldable pub shape_element_count : ℤ → List ℤ → ℤ
shape_element_count n [] = n
shape_element_count n (dim ∷ shape) = shape_element_count (mul64 n dim) shape

unfoldable pub parameter_count : ℤ → List TensorInfo → ℤ
unfolding shape_element_count
parameter_count total [] = total
parameter_count total (t ∷ ts) =
    parameter_count (wrap64 (total +ℤ shape_element_count (pos 1) t.entry.shape)) ts

pub mul64-exact : (n k : ℕ) → n * k < 2 ^ 63 → mul64 (pos n) (pos k) ≡ pos (n * k)
unfolding mul64 ◌*ℤ◌
mul64-exact n k h = ap wrap64 (ground arith) ∙ wrap64_exact (pos (n * k)) (h, omega arith)

add64-exact : (n k : ℕ) → n + k < 2 ^ 63 → wrap64 (pos n +ℤ pos k) ≡ pos (n + k)
unfolding ◌+ℤ◌
add64-exact n k h = ap wrap64 (ground arith) ∙ wrap64_exact (pos (n + k)) (h, omega arith)

int4_weight_bytes-exact : (n : ℕ) → n + 1 < 2 ^ 63 → int4_weight_bytes (pos n) ≡ pos ((n + 1) / 2)
unfolding int4_weight_bytes quot
int4_weight_bytes-exact n h = ap (λ z. quot z 2) (add64-exact n 1 h)

add_kv :
    (weights : ℤ) (g : ModelGeometry) (n k : ℕ)
    → kv_cache_bytes g ≡ pos k
    → weights ≡ pos n
    → n + k < 2 ^ 63
    → wrap64 (weights +ℤ kv_cache_bytes g) ≡ pos (n + k)
add_kv weights g n k kv w h =
    ap (λ z. wrap64 (z +ℤ kv_cache_bytes g)) w
    ∙ ap (λ z. wrap64 (pos n +ℤ z)) kv
    ∙ add64-exact n k h

-- For n parameters and a cache of k bytes, with 2n + k + 1 below 2^63: the totals are 2n + k, n + k and
-- the half of n rounded up, plus k.
pub compute_vram_footprint-exact :
    (g : ModelGeometry) (n k : ℕ)
    → kv_cache_bytes g ≡ pos k
    → n + n + k + 1 < 2 ^ 63
    → ((compute_vram_footprint (pos n) g).fp16.total_estimate ≡ pos (n * 2 + k))
      × ((compute_vram_footprint (pos n) g).fp8.total_estimate ≡ pos (n + k))
      × ((compute_vram_footprint (pos n) g).int4.total_estimate ≡ pos ((n + 1) / 2 + k))
unfolding compute_vram_footprint
compute_vram_footprint-exact g n k kv h = (
  add_kv _ g (n * 2) k kv (mul64-exact n 2 (omega (arith, h))) (omega (arith, h)),
  add_kv _ g n k kv (mul64-exact n 1 (omega (arith, h)) ∙ ap pos (omega arith)) (omega (arith, h)),
  add_kv _ g ((n + 1) / 2) k kv (int4_weight_bytes-exact n (omega (arith, h))) (omega (arith, h)),
)
