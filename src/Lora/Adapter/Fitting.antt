-- ===== src/Lora/Adapter/Fitting.antt =====
-- internal/lora: what the checks of an adapter and the engine's settings say together.
use redline.Base.{
  String, ◌≡◌, refl, ap, subst, ◌⊎◌, inl, inr, true, false, none, List, [], ◌∷◌, map, arith, eq_iff,
  if◌then◌else◌, Bool-cases, All, contains, ℤ, pos, ◌≤ℤ◌, ltb_ℤ, eq_of_parts, In, has_suffix,
}
use redline.Ingest.Header.{TensorInfo, Header}
use redline.Lora.Adapter.{
  AdapterConfig, unsupported_target, validate_adapter, same_int, first_is, second_is,
  has_declared_rank, mismatched_tensor, validate_adapter_tensors, max_rank, render_engine_config,
}

-- An adapter as it is served: its declared configuration, and the header of its weights.
abbrev pub Adapter : Type 0
Adapter = AdapterConfig × Header

-- A tensor that an engine with a rank ceiling can serve at a rank: one of the two low-rank
-- matrices has the rank on the side that its name says, and any other tensor is free.
pub data Fits (rank ceiling : ℤ) (t : TensorInfo) : Type 0 where
  down_matrix :
      (inputs : ℤ)
      → has_suffix t.name "lora_A.weight" ≡ true
      → t.entry.shape ≡ rank ∷ inputs ∷ []
      → rank ≤ℤ ceiling
      → Fits rank ceiling t
  up_matrix :
      (outputs : ℤ)
      → has_suffix t.name "lora_A.weight" ≡ false
      → has_suffix t.name "lora_B.weight" ≡ true
      → t.entry.shape ≡ outputs ∷ rank ∷ []
      → rank ≤ℤ ceiling
      → Fits rank ceiling t
  other :
      has_suffix t.name "lora_A.weight" ≡ false
      → has_suffix t.name "lora_B.weight" ≡ false
      → Fits rank ceiling t

-- An adapter that an engine can serve on a base.
abbrev pub IsServable : String → List String → ℤ → Adapter → Type 0
IsServable base modules ceiling (config, header) =
    (config.base_model_name_or_path ≡ base)
    × (pos 1 ≤ℤ config.r)
    × All (λ target. contains target modules ≡ true) config.target_modules
    × All (Fits config.r ceiling) header.tensors

-- An adapter that both checks accept.
abbrev pub IsAccepted : String → List String → Adapter → Type 0
IsAccepted base modules (config, header) =
    (validate_adapter config base modules ≡ none)
    × (validate_adapter_tensors header config.r ≡ none)

same_int-eq : (a b : ℤ) → same_int a b ≡ true → a ≡ b
unfolding same_int
same_int-eq a b h = eq_of_parts a b (ground (arith, h))

unsupported_target-none :
    (modules targets : List String)
    → unsupported_target modules targets ≡ none
    → All (λ target. contains target modules ≡ true) targets
unfolding unsupported_target
unsupported_target-none modules [] h = tt
unsupported_target-none modules (t ∷ ts) h =
    (ground (arith, h), unsupported_target-none modules ts (ground (arith, h)))

max_rank-start : (m : ℤ) (ranks : List ℤ) → m ≤ℤ max_rank m ranks
unfolding max_rank
max_rank-start m [] = omega arith
max_rank-start m (r ∷ ranks) = ground (arith, max_rank-start (if ltb_ℤ m r then r else m) ranks)

max_rank-covers : (m : ℤ) (ranks : List ℤ) → All (λ r. r ≤ℤ max_rank m ranks) ranks
unfolding max_rank
max_rank-covers m [] = tt
max_rank-covers m (r ∷ ranks) = (
  ground (arith, max_rank-start (if ltb_ℤ m r then r else m) ranks),
  max_rank-covers (if ltb_ℤ m r then r else m) ranks,
)

first_is-shape :
    (rank : ℤ) (shape : List ℤ)
    → first_is rank shape ≡ true
    → (inputs : ℤ) × (shape ≡ rank ∷ inputs ∷ [])
unfolding first_is
first_is-shape rank [] h = ground (arith, h)
first_is-shape rank (a ∷ []) h = ground (arith, h)
first_is-shape rank (a ∷ b ∷ []) h = (b, ap (λ z. z ∷ b ∷ []) (same_int-eq a rank h))
first_is-shape rank (a ∷ b ∷ c ∷ more) h = ground (arith, h)

second_is-shape :
    (rank : ℤ) (shape : List ℤ)
    → second_is rank shape ≡ true
    → (outputs : ℤ) × (shape ≡ outputs ∷ rank ∷ [])
unfolding second_is
second_is-shape rank [] h = ground (arith, h)
second_is-shape rank (a ∷ []) h = ground (arith, h)
second_is-shape rank (a ∷ b ∷ []) h = (a, ap (λ z. a ∷ z ∷ []) (same_int-eq b rank h))
second_is-shape rank (a ∷ b ∷ c ∷ more) h = ground (arith, h)

has_declared_rank-Fits :
    (rank ceiling : ℤ) (t : TensorInfo)
    → rank ≤ℤ ceiling
    → has_declared_rank rank t ≡ true
    → Fits rank ceiling t
unfolding has_declared_rank
has_declared_rank-Fits rank ceiling t le h = elim (Bool-cases (has_suffix t.name "lora_A.weight")) [
  | inl a ↦
      let (inputs, e) = first_is-shape rank t.entry.shape (ground (arith, h, a)) in
      down_matrix inputs a e le
  | inr not_a ↦ elim (Bool-cases (has_suffix t.name "lora_B.weight")) [
    | inl b ↦
        let (outputs, e) = second_is-shape rank t.entry.shape (ground (arith, h, not_a, b)) in
        up_matrix outputs not_a b e le
    | inr not_b ↦ other not_a not_b
  ]
]

mismatched_tensor-none :
    (rank ceiling : ℤ) (ts : List TensorInfo)
    → rank ≤ℤ ceiling
    → mismatched_tensor rank ts ≡ none
    → All (Fits rank ceiling) ts
unfolding mismatched_tensor
mismatched_tensor-none rank ceiling [] le h = tt
mismatched_tensor-none rank ceiling (t ∷ ts) le h = (
  has_declared_rank-Fits rank ceiling t le (ground (arith, h)),
  mismatched_tensor-none rank ceiling ts le (ground (arith, h)),
)

accepted-IsServable :
    (base : String) (modules : List String) (ceiling : ℤ) (a : Adapter)
    → a.0.r ≤ℤ ceiling
    → IsAccepted base modules a
    → IsServable base modules ceiling a
unfolding validate_adapter validate_adapter_tensors
accepted-IsServable base modules ceiling (config, header) le (configured, shaped) = (
  ground (arith, configured, eq_iff config.base_model_name_or_path base),
  ground (arith, configured),
  unsupported_target-none modules config.target_modules (ground (arith, configured)),
  mismatched_tensor-none config.r ceiling header.tensors le shaped,
)

abbrev pub ranks_of : List Adapter → List ℤ
ranks_of adapters = map (λ a. a.0.r) adapters

adapters-IsServable :
    (base : String) (modules : List String) (ceiling : ℤ) (adapters : List Adapter)
    → All (λ r. r ≤ℤ ceiling) (ranks_of adapters)
    → All (IsAccepted base modules) adapters
    → All (IsServable base modules ceiling) adapters
adapters-IsServable base modules ceiling [] le accepted = tt
adapters-IsServable base modules ceiling (a ∷ adapters) (le, les) (accepted, more) = (
  accepted-IsServable base modules ceiling a le accepted,
  adapters-IsServable base modules ceiling adapters les more,
)

max_rank-In : (m : ℤ) (ranks : List ℤ) → (max_rank m ranks ≡ m) ⊎ In (max_rank m ranks) ranks
unfolding max_rank
max_rank-In m [] = inl refl
max_rank-In m (r ∷ ranks) = elim (Bool-cases (ltb_ℤ m r)) [
  | inl less ↦
      let same : r ≡ (if ltb_ℤ m r then r else m) = ground (arith, less) in
      inr (subst (λ z. In (max_rank z ranks) (r ∷ ranks)) same (max_rank-In r ranks))
  | inr not_less ↦
      let same : m ≡ (if ltb_ℤ m r then r else m) = ground (arith, not_less) in
      subst (λ z. (max_rank z ranks ≡ m) ⊎ In (max_rank z ranks) (r ∷ ranks)) same
        (elim (max_rank-In m ranks) [ inl e ↦ inl e | inr i ↦ inr (inr i) ])
]

-- The ceiling is one of the ranks when the first is positive.
max_rank-tight :
    (r : ℤ) (ranks : List ℤ) → pos 1 ≤ℤ r → In (max_rank (pos 0) (r ∷ ranks)) (r ∷ ranks)
max_rank-tight r ranks positive = elim (max_rank-In (pos 0) (r ∷ ranks)) [
  | inr i ↦ i
  | inl zero_ceiling ↦
      let (covers, others) = max_rank-covers (pos 0) (r ∷ ranks) in
      ground (arith, positive, covers, zero_ceiling)
]

-- If an engine's settings are rendered for a positive number of slots and the ranks of a nonempty
-- list of adapters, each of which both checks accept for a base and its modules, then: multi-LoRA
-- serving is enabled with that number of slots; the rank ceiling is the rank of one of the
-- adapters; and each adapter declares that base, has a positive rank, targets only those modules,
-- and each of its low-rank matrices has two dimensions, with its declared rank, which is at most
-- the ceiling, on the side that its name says.
pub render_engine_config-IsServable :
    (base : String) (modules : List String) (slots : ℤ) (a : Adapter) (adapters : List Adapter)
    → pos 1 ≤ℤ slots
    → All (IsAccepted base modules) (a ∷ adapters)
    → ((render_engine_config slots (ranks_of (a ∷ adapters))).enabled ≡ true)
      × ((render_engine_config slots (ranks_of (a ∷ adapters))).max_loras ≡ slots)
      × In
          (render_engine_config slots (ranks_of (a ∷ adapters))).max_lora_rank
          (ranks_of (a ∷ adapters))
      × All
          (IsServable base modules
            (render_engine_config slots (ranks_of (a ∷ adapters))).max_lora_rank)
          (a ∷ adapters)
unfolding render_engine_config
render_engine_config-IsServable base modules slots a adapters room (accepted, more) =
    let ranks : List ℤ = ranks_of (a ∷ adapters) in
    let ceiling : max_rank (pos 0) ranks ≡ (render_engine_config slots ranks).max_lora_rank =
      ground (arith, room) in
    let (_, positive, _, _) =
      accepted-IsServable base modules (max_rank (pos 0) ranks) a (max_rank-covers (pos 0) ranks).0
        accepted in
    (
      ground (arith, room),
      ground (arith, room),
      subst (λ c. In c ranks) ceiling (max_rank-tight a.0.r (ranks_of adapters) positive),
      subst (λ c. All (IsServable base modules c) (a ∷ adapters)) ceiling
          (adapters-IsServable base modules (max_rank (pos 0) ranks) (a ∷ adapters)
            (max_rank-covers (pos 0) ranks) (accepted, more)),
    )
