-- ===== src/Lora.antt =====
-- internal/lora: which adapters are resident on an engine (pool.go), and where a request for a
-- model goes (router.go). How the engine's load and unload calls end is an argument.
pub mod Slots
pub mod Adapter
use redline.Base.{
  ℕ, zero, suc, ◌+◌, ◌-◌, ◌*◌, ◌/◌, ◌%◌, ◌^◌, ◌≤◌, ◌<◌, min, max, String, ◌≡◌, refl, sym, ap, subst,
  ◌∙◌, ◌≢◌, ◌↔◌, ◌⊎◌, inl, inr, Bool, true, false, not, ◌&&◌, ◌||◌, Option, none, some, List, [],
  ◌∷◌, ◌++◌, map, arith, str_eq, eq_iff, ltb, leb, ◌==◌, if◌then◌else◌, Bool-cases, Option-cases,
  length, length-append, keep_if, length-keep_if-le, all_of, any_of, All, contains, ℤ, pos, negsuc,
  pos_part, neg_part, ◌+ℤ◌, ◌*ℤ◌, ◌≤ℤ◌, ltb_ℤ, leb_ℤ, wrap64, IsInt64, wrap64_exact, wrap64-IsInt64,
  +ℤ_parts, eq_of_parts, lookup, insert, delete, lookup-insert, lookup-delete, Call, served,
  refused, lost, is_empty, cut_prefix, has_prefix, cut_prefix-append, In, str_contains, has_suffix,
  sub_ℕ,
}

-- The key set of the router's map, every value of which is true.
pub record Router : Type 0 where
  pub base_model : String
  pub resident : List String

unfoldable pub new_router : String → Router
new_router base = record { base_model = base; resident = [] }

-- `none` is `ErrAdapterNotLoaded`.
unfoldable pub resolve : Router → String → Option String
resolve r requested =
    if str_eq requested r.base_model
    then some r.base_model
    else if contains requested r.resident
    then some requested
    else none

unfoldable pub mark_loaded : Router → String → Router
mark_loaded r adapter = record r { resident = adapter ∷ r.resident }

unfoldable pub mark_unloaded : Router → String → Router
mark_unloaded r adapter = record r { resident = keep_if (λ a. not (str_eq adapter a)) r.resident }

-- `order` has the least recently used adapter first.
pub record Pool : Type 0 where
  pub max_slots : ℤ
  pub router : Router
  pub order : List String

unfoldable pub new_pool : ℤ → Router → Pool
new_pool max_slots router = record { max_slots = max_slots; router = router; order = [] }

pub data AcquireResult : Type 0 where
  acquired no_slots : AcquireResult
  evict_failed load_failed : String → AcquireResult

pub record Acquired : Type 0 where
  pub pool : Pool
  pub result : AcquireResult

-- `none` is -1.
unfoldable pub index_of : List String → String → Option ℕ
index_of [] v = none
index_of (e ∷ s) v =
    let rest = index_of s v in
    if str_eq e v then some 0 else elim rest [ none ↦ none | some i ↦ some (suc i) ]

-- `append(s[:i], s[i+1:]...)`.
unfoldable pub remove_at : ℕ → List String → List String
remove_at i [] = []
remove_at zero (x ∷ xs) = xs
remove_at (suc i) (x ∷ xs) = x ∷ remove_at i xs

-- The hot load, once there is room.
unfoldable pub load_adapter : (String → Bool) → Pool → String → Acquired
unfolding mark_loaded
load_adapter loads p adapter =
    if loads adapter
    then record {
      pool = record p { router = mark_loaded p.router adapter; order = p.order ++ (adapter ∷ []) };
      result = acquired;
    }
    else record { pool = p; result = load_failed adapter }

-- The pool after the eviction of the least recently used adapter.
unfoldable pub evicted : Pool → String → List String → Pool
unfolding mark_unloaded
evicted p lru rest = record p { router = mark_unloaded p.router lru; order = rest }

-- `Acquire` of an adapter that is not resident. An empty order with no room does not occur, since
-- there is a slot; `order[0]` would panic there.
unfoldable pub make_room :
    (String → Bool) → (String → Bool) → Pool → String → List String → Acquired
unfolding load_adapter evicted
make_room loads unloads p adapter [] = load_adapter loads p adapter
make_room loads unloads p adapter (lru ∷ rest) =
    if leb_ℤ p.max_slots (pos (length (lru ∷ rest)))
    then if unloads lru
      then load_adapter loads (evicted p lru rest) adapter
      else record { pool = p; result = evict_failed lru }
    else load_adapter loads p adapter

unfoldable pub acquire : (String → Bool) → (String → Bool) → Pool → String → Acquired
unfolding make_room index_of
acquire loads unloads p adapter =
    if leb_ℤ p.max_slots (pos 0)
    then record { pool = p; result = no_slots }
    else elim (index_of p.order adapter) [
      | some i ↦ record {
        pool = record p { order = remove_at i p.order ++ (adapter ∷ []) };
        result = acquired;
      }
      | none ↦ make_room loads unloads p adapter p.order
    ]
