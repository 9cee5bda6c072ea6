-- ===== src/Lora/Adapter.antt =====
-- internal/lora: the checks of an adapter's declared configuration and of its tensors
-- (adapter.go), and the engine's multi-LoRA settings (engine_config.go).
pub mod Fitting
use redline.Base.{
  ℕ, zero, suc, ◌+◌, ◌-◌, ◌*◌, ◌/◌, ◌%◌, ◌^◌, ◌≤◌, ◌<◌, min, max, String, ◌≡◌, refl, sym, ap, subst,
  ◌∙◌, ◌≢◌, ◌↔◌, ◌⊎◌, inl, inr, Bool, true, false, not, ◌&&◌, ◌||◌, Option, none, some, List, [],
  ◌∷◌, ◌++◌, map, arith, str_eq, eq_iff, ltb, leb, ◌==◌, if◌then◌else◌, Bool-cases, Option-cases,
  length, length-append, keep_if, length-keep_if-le, all_of, any_of, All, contains, ℤ, pos, negsuc,
  pos_part, neg_part, ◌+ℤ◌, ◌*ℤ◌, ◌≤ℤ◌, ltb_ℤ, leb_ℤ, wrap64, IsInt64, wrap64_exact, wrap64-IsInt64,
  +ℤ_parts, eq_of_parts, lookup, insert, delete, lookup-insert, lookup-delete, Call, served,
  refused, lost, is_empty, cut_prefix, has_prefix, cut_prefix-append, In, str_contains, has_suffix,
  sub_ℕ,
}
use redline.Ingest.Header.{TensorEntry, TensorInfo, Header}

pub record AdapterConfig : Type 0 where
  pub base_model_name_or_path : String
  pub r : ℤ
  pub target_modules : List String

pub data AdapterError : Type 0 where
  base_model_mismatch invalid_rank : AdapterError
  unsupported_target_module rank_mismatch : String → AdapterError

-- The loop over the targets; the set of supported modules is the list of its keys.
unfoldable pub unsupported_target : List String → List String → Option AdapterError
unsupported_target supported [] = none
unsupported_target supported (target ∷ targets) =
    if not (contains target supported)
    then some (unsupported_target_module target)
    else unsupported_target supported targets

-- `none` is a nil error.
unfoldable pub validate_adapter : AdapterConfig → String → List String → Option AdapterError
unfolding unsupported_target
validate_adapter adapter resident_base_model base_supported_modules =
    if not (str_eq adapter.base_model_name_or_path resident_base_model)
    then some base_model_mismatch
    else if leb_ℤ adapter.r (pos 0)
    then some invalid_rank
    else unsupported_target base_supported_modules adapter.target_modules

unfoldable pub same_int : ℤ → ℤ → Bool
same_int a b = leb_ℤ a b && leb_ℤ b a

-- A shape of two dimensions, the first of which is the rank.
unfoldable pub first_is : ℤ → List ℤ → Bool
unfolding same_int
first_is rank [] = false
first_is rank (first ∷ []) = false
first_is rank (first ∷ second ∷ []) = same_int first rank
first_is rank (first ∷ second ∷ third ∷ more) = false

-- A shape of two dimensions, the second of which is the rank.
unfoldable pub second_is : ℤ → List ℤ → Bool
unfolding same_int
second_is rank [] = false
second_is rank (first ∷ []) = false
second_is rank (first ∷ second ∷ []) = same_int second rank
second_is rank (first ∷ second ∷ third ∷ more) = false

-- One round of the loop over the tensors.
unfoldable pub has_declared_rank : ℤ → TensorInfo → Bool
unfolding first_is second_is
has_declared_rank declared_rank t =
    if has_suffix t.name "lora_A.weight"
    then first_is declared_rank t.entry.shape
    else if has_suffix t.name "lora_B.weight"
    then second_is declared_rank t.entry.shape
    else true

unfoldable pub mismatched_tensor : ℤ → List TensorInfo → Option AdapterError
unfolding has_declared_rank
mismatched_tensor declared_rank [] = none
mismatched_tensor declared_rank (t ∷ ts) =
    if not (has_declared_rank declared_rank t)
    then some (rank_mismatch t.name)
    else mismatched_tensor declared_rank ts

unfoldable pub validate_adapter_tensors : Header → ℤ → Option AdapterError
unfolding mismatched_tensor
validate_adapter_tensors header declared_rank = mismatched_tensor declared_rank header.tensors

pub record EngineConfig : Type 0 where
  pub enabled : Bool
  pub max_loras : ℤ
  pub max_lora_rank : ℤ

-- The loop over the ranks.
unfoldable pub max_rank : ℤ → List ℤ → ℤ
max_rank m [] = m
max_rank m (r ∷ ranks) = max_rank (if ltb_ℤ m r then r else m) ranks

unfoldable pub render_engine_config : ℤ → List ℤ → EngineConfig
unfolding max_rank
render_engine_config max_resident_adapters ranks =
    if leb_ℤ max_resident_adapters (pos 0) || (length ranks == 0)
    then record { enabled = false; max_loras = pos 0; max_lora_rank = pos 0 }
    else record {
      enabled = true;
      max_loras = max_resident_adapters;
      max_lora_rank = max_rank (pos 0) ranks;
    }
