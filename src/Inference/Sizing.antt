-- ===== src/Inference/Sizing.antt =====
-- internal/inference: the degree of tensor parallelism, and the sizes of the cache and of a batch.
use redline.Base.{
  ℕ, zero, suc, ◌+◌, ◌*◌, ◌/◌, ◌^◌, ◌≤◌, ◌<◌, String, ◌≡◌, refl, sym, subst, ◌⊎◌, inl, inr, Bool,
  true, false, Option, none, some, arith, leb, if◌then◌else◌, pos, pos_part,
}
use native.Mathlib.Nat.{
  le_refl, mul-le-mul_right, mul-le-mul_left, div-mul-le_self, lt-mul-div-succ,
}
use redline.Ingest.Vram.{ModelGeometry, mul64, mul64-exact, quot, kv_cache_bytes_per_token}
use redline.Inference.{
  at_least_one, Precision, Rendered, rendered, invalid_profile, exceeds_capacity,
  dtype_for_precision, first_degree, with_degree, render_engine_args, KvCacheConfig, KvSized, sized,
  budget_too_small, div64, blocks_in, render_kv_cache_config, BatchingConfig,
  render_batching_config,
}

-- What the search for a degree from `degree` on returns, over GPUs of `vram` bytes each.
abbrev pub IsSmallest : ℕ → ℕ → ℕ → ℕ → Option ℕ → Type 0
IsSmallest degree end vram footprint (some d) =
    (degree ≤ d)
    × (d < end)
    × (footprint ≤ d * vram)
    × ((e : ℕ) → degree ≤ e → e < d → e * vram < footprint)
IsSmallest degree end vram footprint none = (e : ℕ) → degree ≤ e → e < end → e * vram < footprint

eq_or_less : (a b : ℕ) → a ≤ b → (a ≡ b) ⊎ (suc a ≤ b)
eq_or_less a b h = ground (arith, h)

IsSmallest-extend :
    (degree left vram footprint : ℕ) (o : Option ℕ)
    → degree * vram < footprint
    → IsSmallest (suc degree) (suc degree + left) vram footprint o
    → IsSmallest degree (degree + suc left) vram footprint o
IsSmallest-extend degree left vram footprint none small h = λ e a b. elim (eq_or_less degree e a) [
  | inl same ↦ subst (λ x. x * vram < footprint) same small
  | inr more ↦ h e more (omega (arith, b))
]
IsSmallest-extend degree left vram footprint (some d) small (a, b, c, h) = (
  omega (arith, a),
  omega (arith, b),
  c,
  λ e le lt. elim (eq_or_less degree e le) [
    | inl same ↦ subst (λ x. x * vram < footprint) same small
    | inr more ↦ h e more lt
  ],
)

first_degree-step :
    (left degree vram footprint : ℕ)
    → degree * vram < 2 ^ 63
    → first_degree (suc left) degree (pos vram) (pos footprint) ≡ (
        if leb footprint (degree * vram)
        then some degree
        else first_degree left (suc degree) (pos vram) (pos footprint))
unfolding first_degree
first_degree-step left degree vram footprint bound = ground (arith, mul64-exact degree vram bound)

first_degree-IsSmallest :
    (left degree vram footprint : ℕ)
    → ((e : ℕ) → e < degree + left → e * vram < 2 ^ 63)
    → IsSmallest degree
        (degree + left)
        vram
        footprint
        (first_degree left degree (pos vram) (pos footprint))
unfolding first_degree
first_degree-IsSmallest zero degree vram footprint bound =
    λ e a b. let no : ⊥ = omega (arith, a, b) in elim no [ ]
first_degree-IsSmallest (suc left) degree vram footprint bound =
    subst (IsSmallest degree (degree + suc left) vram footprint)
      (sym (first_degree-step left degree vram footprint (bound degree (omega arith))))
      (tried (leb footprint (degree * vram)) refl (
        first_degree-IsSmallest left (suc degree) vram footprint
          (λ e lt. bound e (omega (arith, lt)))))
  where
    tried :
        (b : Bool)
        → leb footprint (degree * vram) ≡ b
        → IsSmallest
            (suc degree)
            (suc degree + left)
            vram
            footprint
            (first_degree left (suc degree) (pos vram) (pos footprint))
        → IsSmallest degree
            (degree + suc left)
            vram
            footprint
            (if b then some degree else first_degree left (suc degree) (pos vram) (pos footprint))
    tried true fits rest = (
      le_refl degree,
      omega arith,
      ground (arith, fits),
      λ e a b. let no : ⊥ = omega (arith, a, b) in elim no [ ],
    )
    tried false small rest =
        IsSmallest-extend degree left vram footprint _ (ground (arith, small)) rest

-- What the rendered arguments say of the node.
abbrev pub IsSharded : {F : Type 0} → ℕ → ℕ → ℕ → ModelGeometry → Rendered F → Type 0
IsSharded gpus vram footprint g (rendered a) =
    (1 ≤ a.tensor_parallel_size)
    × (a.tensor_parallel_size ≤ gpus)
    × (footprint ≤ a.tensor_parallel_size * vram)
    × ((e : ℕ) → 1 ≤ e → e < a.tensor_parallel_size → e * vram < footprint)
    × (a.max_model_len ≡ g.context_length)
IsSharded gpus vram footprint g exceeds_capacity = gpus * vram < footprint
IsSharded gpus vram footprint g _ = ⊥

with_degree-IsSharded :
    {F : Type 0} (less : F → F → Bool) (floor ceiling : F) (g : ModelGeometry)
    (flags : String × String) (requested : F) (gpus vram footprint : ℕ) (o : Option ℕ)
    → 1 ≤ gpus
    → IsSmallest 1 (1 + gpus) vram footprint o
    → IsSharded gpus vram footprint g (with_degree less floor ceiling g flags requested o)
unfolding with_degree
with_degree-IsSharded less floor ceiling g flags requested gpus vram footprint none some_gpu h =
    h gpus some_gpu (omega arith)
with_degree-IsSharded less floor ceiling g flags requested gpus vram footprint (some d) some_gpu
      (a, b, c, h) =
    (a, omega (arith, b), c, h, refl)

-- For a known precision, and a node whose GPUs together have less than 2^63 bytes: the degree of
-- tensor parallelism is the smallest one whose GPUs hold the footprint, and rendering reports that
-- the model exceeds the node where all its GPUs together do not.
pub render_engine_args-IsSharded :
    {F : Type 0} (less : F → F → Bool) (floor ceiling : F) (g : ModelGeometry) (footprint : ℕ)
    (p : Precision) (flags : String × String) (gpus vram : ℕ) (requested : F)
    → dtype_for_precision p ≡ some flags
    → 0 < gpus
    → 0 < vram
    → gpus * vram < 2 ^ 63
    → IsSharded gpus vram footprint g (
        render_engine_args less floor ceiling g
          (pos footprint)
          p
          (record { gpu_count = pos gpus; vram_bytes_per_gpu = pos vram })
          requested)
unfolding render_engine_args
render_engine_args-IsSharded less floor ceiling g footprint p flags gpus vram requested known
      some_gpu some_vram bound =
    rw (known, render_engine_args)
      (subst
        (λ b. IsSharded gpus vram footprint g (
          if b
          then invalid_profile
          else with_degree less floor ceiling g flags requested
              (first_degree gpus 1 (pos vram) (pos footprint))))
        {x = false} (ground (arith, some_gpu, some_vram))
        (with_degree-IsSharded less floor ceiling g flags requested gpus vram footprint _ some_gpu
          (first_degree-IsSmallest gpus 1 vram footprint (λ e lt. fewer e (omega (arith, lt))))))
  where
    fewer : (e : ℕ) → e ≤ gpus → e * vram < 2 ^ 63
    fewer e le = omega (arith, mul-le-mul_right vram le, bound)

-- The sizes of a cache of tokens of `b` bytes and of its batches, for sequences of `m` tokens.
pub record IsBudgeted (b m budget : ℕ) (kv : KvCacheConfig) (batching : BatchingConfig)
    : Type 0 where
  pub blocks : ℕ
  pub has_blocks : kv ≡ record { block_size = pos 16; num_gpu_blocks = pos blocks }
  pub some_block : 1 ≤ blocks
  pub within : blocks * (b * 16) ≤ budget
  pub fullest : budget < suc blocks * (b * 16)
  pub some_token : 1 ≤ pos_part batching.max_num_batched_tokens
  pub token_ceiling : pos_part batching.max_num_batched_tokens ≤ 8192
  pub resident : (batching.max_num_seqs ≡ pos 1) ⊎ (pos_part batching.max_num_seqs * m * b ≤ budget)

abbrev pub IsSizedBy : ℕ → ℕ → ℕ → KvSized → Type 0
IsSizedBy b m budget (sized kv) = IsBudgeted b m budget kv (render_batching_config kv (pos m))
IsSizedBy b m budget budget_too_small = budget < b * 16
IsSizedBy b m budget _ = ⊥

at_least_one-resident :
    (b m budget n q : ℕ)
    → q * m ≤ 16 * n
    → n * (b * 16) ≤ budget
    → (at_least_one (pos q) ≡ pos 1) ⊎ (pos_part (at_least_one (pos q)) * m * b ≤ budget)
at_least_one-resident b m budget n zero fits within = inl refl
at_least_one-resident b m budget n (suc q) fits within =
    let kept : at_least_one (pos (suc q)) ≡ pos (suc q) = ground arith in
    inr (
      subst (λ z. pos_part z * m * b ≤ budget) (sym kept)
        (omega (arith, mul-le-mul_right b fits, within)))

seqs_lem :
    (n m : ℕ)
    → 0 < m
    → 16 * n < 2 ^ 63
    → (render_batching_config
        (record { block_size = pos 16; num_gpu_blocks = pos n })
        (pos m)).max_num_seqs
      ≡ at_least_one (pos (16 * n / m))
unfolding render_batching_config quot
seqs_lem n m some_len bound = ground (arith, mul64-exact 16 n bound)

batching-IsBudgeted :
    (b m budget n : ℕ)
    → 0 < b
    → 0 < m
    → budget < 2 ^ 63
    → 1 ≤ n
    → n * (b * 16) ≤ budget
    → budget < suc n * (b * 16)
    → IsBudgeted b m budget
        (record { block_size = pos 16; num_gpu_blocks = pos n })
        (render_batching_config (record { block_size = pos 16; num_gpu_blocks = pos n }) (pos m))
unfolding render_batching_config quot
batching-IsBudgeted b m budget n some_byte some_len small some_block within fullest =
    let cached : 16 * n ≤ budget = omega (arith, mul-le-mul_left n (sixteen some_byte), within) in
    let exact : mul64 (pos 16) (pos n) ≡ pos (16 * n) =
      mul64-exact 16 n (omega (arith, cached, small)) in
    record {
      blocks = n;
      has_blocks = refl;
      some_block = some_block;
      within = within;
      fullest = fullest;
      some_token = ground (arith, exact, some_block);
      token_ceiling = ground (arith, exact);
      resident =
          subst (λ z. (z ≡ pos 1) ⊎ (pos_part z * m * b ≤ budget))
            (sym (seqs_lem n m some_len (omega (arith, cached, small))))
            (at_least_one-resident b m budget n (16 * n / m) (div-mul-le_self (16 * n) m) within);
    }
  where
    sixteen : 0 < b → 16 ≤ b * 16
    sixteen h = omega (arith, h)

abbrev sized_or_small : ℕ → KvSized
sized_or_small zero = budget_too_small
sized_or_small (suc n) = sized (record { block_size = pos 16; num_gpu_blocks = pos (suc n) })

blocks_in_lem :
    (b budget : ℕ)
    → 0 < b
    → blocks_in (pos budget) (pos (b * 16)) ≡ sized_or_small (budget / (b * 16))
unfolding blocks_in div64 quot
blocks_in_lem b budget some_byte = ground (arith, some_byte)

blocks_in-IsSizedBy :
    (b m budget : ℕ)
    → 0 < b
    → 0 < m
    → budget < 2 ^ 63
    → IsSizedBy b m budget (blocks_in (pos budget) (pos (b * 16)))
blocks_in-IsSizedBy b m budget some_byte some_len small =
    subst (IsSizedBy b m budget) (sym (blocks_in_lem b budget some_byte)) (
      divided (budget / (b * 16)) (div-mul-le_self budget (b * 16))
        (lt-mul-div-succ budget (omega (arith, some_byte))))
  where
    divided :
        (n : ℕ)
        → n * (b * 16) ≤ budget
        → budget < (b * 16) * (n + 1)
        → IsSizedBy b m budget (sized_or_small n)
    divided zero within fullest = omega (arith, fullest)
    divided (suc n) within fullest =
        batching-IsBudgeted b m budget (suc n) some_byte some_len small (omega arith) within
          (omega (arith, fullest))

-- For a model whose cache takes b bytes a token, with 0 < b and 16 b below 2^63, sequences of m > 0
-- tokens and a budget below 2^63: the cache has as many blocks as the budget holds, and the error
-- comes where it holds none; a batch has between 1 and 8192 tokens; and unless it is one, the number
-- of sequences is such that their caches fit the budget at full length.
pub render_kv_cache_config-IsSizedBy :
    (g : ModelGeometry) (b m budget : ℕ)
    → kv_cache_bytes_per_token g ≡ pos b
    → 0 < b
    → b * 16 < 2 ^ 63
    → 0 < m
    → budget < 2 ^ 63
    → IsSizedBy b m budget (render_kv_cache_config g (pos budget))
unfolding render_kv_cache_config
render_kv_cache_config-IsSizedBy g b m budget bytes some_byte bound some_len small =
    subst (IsSizedBy b m budget) (sym (ground (arith, bytes, some_byte, mul64-exact b 16 bound)))
      (blocks_in-IsSizedBy b m budget some_byte some_len small)
