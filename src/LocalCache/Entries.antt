-- ===== src/LocalCache/Entries.antt =====
-- The cache's list of entries, read by key.
use redline.Base.{
  ℕ, suc, ◌+◌, ◌≤◌, ◌<◌, String, ◌≡◌, refl, subst, ◌≢◌, ◌⊎◌, inl, inr, ◌||◌, Option, none, some,
  List, [], ◌∷◌, arith, str_eq, eq_iff, ◌==◌, if◌then◌else◌, Bool-cases, length,
}
use redline.LocalCache.{Entry, at_element, without, set_refs, least_recently_used_unreferenced}

unfoldable pub by_key : String → List Entry → Option Entry
by_key k [] = none
by_key k (e ∷ es) = if str_eq e.key k then some e else by_key k es

abbrev pub Fresh : Entry → List Entry → Type 0
Fresh x [] = Unit {0}
Fresh x (y ∷ ys) = (x.element ≢ y.element) × (x.key ≢ y.key) × Fresh x ys

abbrev pub Distinct : List Entry → Type 0
Distinct [] = Unit {0}
Distinct (x ∷ xs) = Fresh x xs × Distinct xs

abbrev pub Below : ℕ → List Entry → Type 0
Below n [] = Unit {0}
Below n (x ∷ xs) = (x.element < n) × Below n xs

abbrev pub total_size : List Entry → ℕ
total_size [] = 0
total_size (e ∷ es) = e.size + total_size es

pub by_key-key : (k : String) (es : List Entry) (e : Entry) → by_key k es ≡ some e → e.key ≡ k
unfolding by_key
by_key-key k [] e h = cc
by_key-key k (x ∷ xs) e h = ground (arith, eq_iff x.key k, by_key-key k xs e)

Fresh-by_key :
    (x : Entry) (es : List Entry) (k : String) (e : Entry)
    → Fresh x es
    → by_key k es ≡ some e
    → (x.element ≢ e.element) × (x.key ≢ k)
unfolding by_key
Fresh-by_key x [] k e f h = cc
Fresh-by_key x (y ∷ ys) k e f h = elim (Bool-cases (str_eq y.key k)) [
  | inl here ↦ ground (arith, eq_iff y.key k)
  | inr there ↦ Fresh-by_key x ys k e f.2 (ground arith)
]

Fresh-by_key_self : (x : Entry) (es : List Entry) → Fresh x es → by_key x.key es ≡ none
unfolding by_key
Fresh-by_key_self x [] f = refl
Fresh-by_key_self x (y ∷ ys) f = ground (arith, eq_iff y.key x.key, Fresh-by_key_self x ys f.2)

module _ (k : String) (e : Entry) where
  pub at_element-by_key :
      (es : List Entry) → Distinct es → by_key k es ≡ some e → at_element e.element es ≡ some e
  unfolding by_key at_element
  at_element-by_key [] d h = cc
  at_element-by_key (x ∷ xs) d h =
      ground (arith, Fresh-by_key x xs k e d.0, at_element-by_key xs d.1)

  pub by_key-without :
      (es : List Entry) (j : String)
      → Distinct es
      → by_key k es ≡ some e
      → by_key j (without e.element es) ≡ (if str_eq k j then none else by_key j es)
  unfolding by_key without
  by_key-without [] j d h = cc
  by_key-without (x ∷ xs) j d h = ground (
    arith,
    eq_iff x.key k,
    eq_iff x.key j,
    eq_iff k j,
    Fresh-by_key x xs k e d.0,
    Fresh-by_key_self x xs d.0,
    by_key-without xs j d.1,
  )

  pub total_size-without :
      (es : List Entry)
      → Distinct es
      → by_key k es ≡ some e
      → total_size (without e.element es) + e.size ≡ total_size es
  unfolding by_key without
  total_size-without [] d h = cc
  total_size-without (x ∷ xs) d h =
      ground (arith, Fresh-by_key x xs k e d.0, total_size-without xs d.1)

  pub length-without :
      (es : List Entry)
      → Distinct es
      → by_key k es ≡ some e
      → suc (length (without e.element es)) ≡ length es
  unfolding by_key without
  length-without [] d h = cc
  length-without (x ∷ xs) d h = ground (arith, Fresh-by_key x xs k e d.0, length-without xs d.1)

  pub by_key-set_refs :
      (es : List Entry) (j : String) (r : ℕ)
      → Distinct es
      → by_key k es ≡ some e
      → by_key j (set_refs e.element r es)
        ≡ (if str_eq k j then some (record e { ref_count = r }) else by_key j es)
  unfolding by_key set_refs
  by_key-set_refs [] j r d h = cc
  by_key-set_refs (x ∷ xs) j r d h = ground (
    arith,
    eq_iff x.key k,
    eq_iff x.key j,
    eq_iff k j,
    Fresh-by_key x xs k e d.0,
    by_key-set_refs xs j r d.1,
  )

module _ (n : ℕ) where
  Fresh-without : (x : Entry) (es : List Entry) → Fresh x es → Fresh x (without n es)
  unfolding without
  Fresh-without x [] f = tt
  Fresh-without x (y ∷ ys) f = ground (arith, Fresh-without x ys f.2)

  pub Distinct-without : (es : List Entry) → Distinct es → Distinct (without n es)
  unfolding without
  Distinct-without [] d = tt
  Distinct-without (x ∷ xs) d = ground (arith, Fresh-without x xs d.0, Distinct-without xs d.1)

  pub Below-without : (m : ℕ) (es : List Entry) → Below m es → Below m (without n es)
  unfolding without
  Below-without m [] b = tt
  Below-without m (x ∷ xs) b = ground (arith, Below-without m xs b.1)

module _ (n r : ℕ) where
  Fresh-set_refs : (x : Entry) (es : List Entry) → Fresh x es → Fresh x (set_refs n r es)
  unfolding set_refs
  Fresh-set_refs x [] f = tt
  Fresh-set_refs x (y ∷ ys) f = ground (arith, Fresh-set_refs x ys f.2)

  Fresh-refs : (x : Entry) (es : List Entry) → Fresh x es → Fresh (record x { ref_count = r }) es
  Fresh-refs x [] f = tt
  Fresh-refs x (y ∷ ys) f = (f.0, f.1, Fresh-refs x ys f.2)

  pub Distinct-set_refs : (es : List Entry) → Distinct es → Distinct (set_refs n r es)
  unfolding set_refs
  Distinct-set_refs [] d = tt
  Distinct-set_refs (x ∷ xs) d =
      ground (arith, Fresh-set_refs x xs d.0, Fresh-refs x xs d.0, Distinct-set_refs xs d.1)

  pub Below-set_refs : (m : ℕ) (es : List Entry) → Below m es → Below m (set_refs n r es)
  unfolding set_refs
  Below-set_refs m [] b = tt
  Below-set_refs m (x ∷ xs) b = ground (arith, Below-set_refs m xs b.1)

  pub total_size-set_refs : (es : List Entry) → total_size (set_refs n r es) ≡ total_size es
  unfolding set_refs
  total_size-set_refs [] = refl
  total_size-set_refs (x ∷ xs) = ground (arith, total_size-set_refs xs)

-- The victim stands in the list, and nothing refers to it.
pub victim-by_key :
    (es : List Entry) (v : Entry)
    → Distinct es
    → least_recently_used_unreferenced es ≡ some v
    → (by_key v.key es ≡ some v) × (v.ref_count ≡ 0)
unfolding by_key least_recently_used_unreferenced
victim-by_key [] v d h = cc
victim-by_key (x ∷ xs) v d h =
    ground (arith, eq_iff x.key v.key, victim-by_key xs v d.1, Fresh-by_key x xs v.key v d.0)

pub no_victim :
    (es : List Entry) (k : String) (e : Entry)
    → least_recently_used_unreferenced es ≡ none
    → by_key k es ≡ some e
    → 0 < e.ref_count
unfolding by_key least_recently_used_unreferenced
no_victim [] k e n h = cc
no_victim (x ∷ xs) k e n h = ground (arith, no_victim xs k e)

-- The bytes that live deployments hold, without those under the key that is given.
unfoldable pub pinned_except : String → List Entry → ℕ
pinned_except k [] = 0
pinned_except k (e ∷ es) =
    let rest = pinned_except k es in
    if str_eq e.key k || e.ref_count == 0 then rest else e.size + rest

pub pinned_except-le : (k : String) (es : List Entry) → pinned_except k es ≤ total_size es
unfolding pinned_except
pinned_except-le k [] = omega arith
pinned_except-le k (x ∷ xs) = ground (arith, pinned_except-le k xs)

-- Dropping an entry that does not count leaves the pinned bytes alone.
pub pinned_except-without :
    (k : String) (e : Entry) (es : List Entry)
    → Distinct es
    → by_key e.key es ≡ some e
    → (e.key ≡ k) ⊎ (e.ref_count ≡ 0)
    → pinned_except k (without e.element es) ≡ pinned_except k es
unfolding pinned_except by_key without
pinned_except-without k e [] d h z = cc
pinned_except-without k e (x ∷ xs) d h z =
    ground (arith, eq_iff x.key k, Fresh-by_key x xs e.key e d.0, pinned_except-without k e xs d.1)

-- Where every entry under another key is in use, all bytes are pinned.
pub pinned_except-all :
    (k : String) (es : List Entry)
    → Distinct es
    → by_key k es ≡ none
    → least_recently_used_unreferenced es ≡ none
    → pinned_except k es ≡ total_size es
unfolding pinned_except by_key least_recently_used_unreferenced
pinned_except-all k [] d h n = refl
pinned_except-all k (x ∷ xs) d h n = ground (arith, pinned_except-all k xs d.1)

-- A new element under a key that no entry has is distinct from all of the list.
pub Fresh-new :
    (x : Entry) (es : List Entry) → Below x.element es → by_key x.key es ≡ none → Fresh x es
unfolding by_key
Fresh-new x [] b h = tt
Fresh-new x (y ∷ ys) b h =
    (λ e. omega arith, λ e. ground (arith, eq_iff y.key x.key), Fresh-new x ys b.1 (ground arith))

pub Below-suc : (n : ℕ) (es : List Entry) → Below n es → Below (suc n) es
Below-suc n [] b = tt
Below-suc n (x ∷ xs) b = (omega arith, Below-suc n xs b.1)

-- An entry of the list is distinct from the rest.
pub Fresh-rest :
    (e : Entry) (es : List Entry)
    → Distinct es
    → by_key e.key es ≡ some e
    → Fresh e (without e.element es)
unfolding by_key without
Fresh-rest e [] d h = tt
Fresh-rest e (x ∷ xs) d h = elim (Bool-cases (str_eq x.key e.key)) [
  | inl same ↦ let q : x ≡ e = ground arith in ground (arith, subst (λ y. Fresh y xs) q d.0)
  | inr differs ↦ ground (arith, Fresh-by_key x xs e.key e d.0, Fresh-rest e xs d.1)
]
