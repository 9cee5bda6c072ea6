-- ===== src/Scheduler/Ceiling.antt =====
-- internal/scheduler/oom_recovery.go: the usable VRAM that out-of-memory failures have shown of
-- each node. `ReducedFootprintBytes`, a product of floats, is not modelled.
use redline.Base.{
  String, ◌≡◌, refl, ap, ◌∙◌, Option, none, some, List, [], ◌∷◌, arith, str_eq, eq_iff,
  if◌then◌else◌, ℤ, ltb_ℤ, Call, served, refused, lost,
}
use Prim.Native.String.{◌++◌ as str_append}
use text.Mathlib.TextLemmas.{append_cancel_left}
use redline.Redis.{Numbers}

unfoldable pub vram_ceiling_key : String → String
vram_ceiling_key node = str_append "gpu:vram_ceiling:" node

pub data CeilingResult : Type 0 where
  ceiling : ℤ → CeilingResult
  no_ceiling ceiling_unreadable : CeilingResult

module _ (R : Numbers) where
  open R use {Db, get, set, get-set}

  unfoldable pub downgrade_script : Db → String → ℤ → Db
  downgrade_script d key observed = elim (get d key) [
    | none ↦ set d key observed
    | some current ↦ if ltb_ℤ observed current then set d key observed else d
  ]

  unfoldable pub downgrade : Call → Db → String → ℤ → Db
  unfolding downgrade_script
  downgrade refused d node observed = d
  downgrade _ d node observed = downgrade_script d (vram_ceiling_key node) observed

  unfoldable pub ceiling_for : Call → Db → String → CeilingResult
  ceiling_for served d node = elim (get d (vram_ceiling_key node)) [
    | none ↦ no_ceiling
    | some bytes ↦ ceiling bytes
  ]
  ceiling_for _ d node = ceiling_unreadable

  unfoldable pub downgrades : Db → List (Call × String × ℤ) → Db
  unfolding downgrade
  downgrades d [] = d
  downgrades d ((c, node, observed) ∷ rest) = downgrades (downgrade c d node observed) rest

-- The lowest of what a node's failures have shown, and of what was known before.
abbrev pub lower : ℤ → Option ℤ → Option ℤ
lower observed none = some observed
lower observed (some current) = if ltb_ℤ observed current then some observed else some current

abbrev pub lowest : String → Option ℤ → List (Call × String × ℤ) → Option ℤ
lowest node known [] = known
lowest node known ((refused, n, observed) ∷ rest) = lowest node known rest
lowest node known ((_, n, observed) ∷ rest) =
    lowest node (if str_eq n node then lower observed known else known) rest

ceiling_key_eq : (a b : String) → str_eq (vram_ceiling_key a) (vram_ceiling_key b) ≡ str_eq a b
unfolding vram_ceiling_key
ceiling_key_eq a b = ground (
  arith,
  eq_iff a b,
  eq_iff (str_append "gpu:vram_ceiling:" a) (str_append "gpu:vram_ceiling:" b),
  append_cancel_left "gpu:vram_ceiling:" a b,
)

module _ (R : Numbers) where
  open R use {Db, get, get-set}

  get-downgrade :
      (d : Db) (n node : String) (observed : ℤ)
      → get (downgrade_script R d (vram_ceiling_key n) observed) (vram_ceiling_key node) ≡ (
          if str_eq n node
          then lower observed (get d (vram_ceiling_key node))
          else get d (vram_ceiling_key node))
  unfolding downgrade_script
  get-downgrade d n node observed = ground (
    arith,
    eq_iff n node,
    ceiling_key_eq n node,
    get-set d (vram_ceiling_key n) observed (vram_ceiling_key node),
  )

  get-downgrades :
      (rest : List (Call × String × ℤ)) (d : Db) (node : String)
      → get (downgrades R d rest) (vram_ceiling_key node)
        ≡ lowest node (get d (vram_ceiling_key node)) rest
  unfolding downgrades
  get-downgrades [] d node = refl
  get-downgrades ((refused, n, o) ∷ rest) d node = get-downgrades rest d node
  get-downgrades ((served, n, o) ∷ rest) d node =
      get-downgrades rest _ node ∙ ap (λ k. lowest node k rest) (get-downgrade d n node o)
  get-downgrades ((lost, n, o) ∷ rest) d node =
      get-downgrades rest _ node ∙ ap (λ k. lowest node k rest) (get-downgrade d n node o)

  -- After any downgrades of any nodes, the ceiling of a node is the lowest of what was known
  -- before and of what the calls that reached Redis observed on that node; with neither, there is
  -- none.
  pub ceiling_for-downgrades :
      (rest : List (Call × String × ℤ)) (d : Db) (node : String)
      → ceiling_for R served (downgrades R d rest) node
        ≡ elim (lowest node (get d (vram_ceiling_key node)) rest) [
          | none ↦ no_ceiling
          | some bytes ↦ ceiling bytes
        ]
  unfolding ceiling_for
  ceiling_for-downgrades rest d node = ground (arith, get-downgrades rest d node)
