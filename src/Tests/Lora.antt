-- ===== src/Tests/Lora.antt =====
-- Witnesses for internal/lora.
use redline.Base.{
  ◌≤◌, String, ◌≡◌, true, none, some, List, [], ◌∷◌, str_eq, if◌then◌else◌, length, contains, ℤ,
  pos, refl, All, In, ◌≤ℤ◌, arith, has_suffix,
}
use redline.Lora.{new_pool, new_router, resolve}
use redline.Lora.Slots.{CallOf, acquires, distinct}
use redline.Lora.Slots
use redline.Ingest.Header.{TensorInfo, Header}
use redline.Lora.Adapter.{
  validate_adapter, validate_adapter_tensors, rank_mismatch, render_engine_config,
}
use redline.Lora.Adapter.Fitting.{Adapter, IsAccepted, IsServable, ranks_of}
use redline.Lora.Adapter.Fitting

abbrev three_calls : List CallOf
three_calls =
    (λ _. true, λ _. true, "a") ∷ (λ _. true, λ _. true, "b") ∷ (λ _. true, λ _. true, "c") ∷ []

acquires-bounded_example :
    (distinct (acquires (new_pool (pos 2) (new_router "base")) three_calls).order ≡ true)
    × (length (acquires (new_pool (pos 2) (new_router "base")) three_calls).order ≤ 2)
    × ((a : String)
        → resolve (acquires (new_pool (pos 2) (new_router "base")) three_calls).router a ≡ (
            if str_eq a "base"
            then some "base"
            else if contains a (acquires (new_pool (pos 2) (new_router "base")) three_calls).order
            then some a
            else none))
acquires-bounded_example = Slots.acquires-bounded (pos 2) "base" three_calls

abbrev tensor : String → List ℤ → TensorInfo
tensor name shape = record {
  name = name;
  entry = record { dtype = "F16"; shape = shape; offsets_start = pos 0; offsets_end = pos 0 };
}

-- The low-rank pair of one module.
abbrev pair_of : ℤ → Header
pair_of rank = record {
  tensors =
      tensor "q_proj.lora_A.weight" (rank ∷ pos 64 ∷ [])
      ∷ tensor "q_proj.lora_B.weight" (pos 32 ∷ rank ∷ [])
      ∷ [];
  metadata = [];
}

abbrev adapter_of : ℤ → Adapter
adapter_of rank = (
  record { base_model_name_or_path = "base"; r = rank; target_modules = "q_proj" ∷ [] },
  pair_of rank,
)

mismatch_found :
    validate_adapter_tensors (pair_of (pos 8)) (pos 4) ≡ some (rank_mismatch "q_proj.lora_A.weight")
unfolding validate_adapter_tensors has_suffix
mismatch_found = refl

two_adapters-IsAccepted :
    All
      (IsAccepted "base" ("q_proj" ∷ "v_proj" ∷ []))
      (adapter_of (pos 8) ∷ adapter_of (pos 16) ∷ [])
unfolding validate_adapter validate_adapter_tensors has_suffix
two_adapters-IsAccepted = ((refl, refl), ((refl, refl), tt))

room_for_two : pos 1 ≤ℤ pos 2
room_for_two = omega arith

abbrev ranks_of_two : List ℤ
ranks_of_two = pos 8 ∷ pos 16 ∷ []

render_engine_config-IsServable_example :
    ((render_engine_config (pos 2) ranks_of_two).enabled ≡ true)
    × ((render_engine_config (pos 2) ranks_of_two).max_loras ≡ pos 2)
    × In (render_engine_config (pos 2) ranks_of_two).max_lora_rank ranks_of_two
    × All
        (IsServable "base"
          ("q_proj" ∷ "v_proj" ∷ [])
          (render_engine_config (pos 2) ranks_of_two).max_lora_rank)
        (adapter_of (pos 8) ∷ adapter_of (pos 16) ∷ [])
render_engine_config-IsServable_example =
    Fitting.render_engine_config-IsServable "base" ("q_proj" ∷ "v_proj" ∷ []) (pos 2)
      (adapter_of (pos 8)) (adapter_of (pos 16) ∷ []) room_for_two two_adapters-IsAccepted
