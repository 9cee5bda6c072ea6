-- ===== src/LocalCache/Invariant.antt =====
-- What holds of the cache between two calls.
use redline.Base.{
  ℕ, ◌+◌, ◌-◌, ◌^◌, ◌≤◌, ◌<◌, String, ◌≡◌, refl, ◌⊎◌, inl, inr, Bool, false, Option, none, some,
  arith, str_eq, eq_iff, ltb, if◌then◌else◌, Option-cases, ℤ, pos, pos_part, leb_ℤ, wrap64_exact,
  lookup, lookup-delete,
}
use redline.LocalCache.{
  Entry, LruCache, add64, sub64, exceeds, new_lru_cache, set_refs, find, remove_element,
}
use redline.LocalCache.Entries.{
  by_key, Distinct, Below, total_size, at_element-by_key, by_key-without, total_size-without,
  by_key-set_refs, Distinct-without, Below-without, Distinct-set_refs, Below-set_refs,
}

abbrev pub element_of : Option Entry → Option ℕ
element_of none = none
element_of (some e) = some e.element

-- The map and the list agree, and each key and each element stands once in the list.
pub record Inv (c : LruCache) : Type 0 where
  pub index : (k : String) → lookup k c.elements ≡ element_of (by_key k c.order)
  pub distinct : Distinct c.order
  pub fresh : Below c.next_element c.order

-- The used bytes are those of the entries, which are at most `n`.
pub record Exact (n : ℕ) (c : LruCache) : Type 0 where
  pub total : c.used_bytes ≡ total_size c.order
  pub small : total_size c.order ≤ n

-- A bounded cache is within its bound.
abbrev pub Within : LruCache → Type 0
Within c = (pos_part c.max_bytes ≡ 0) ⊎ (c.used_bytes ≤ pos_part c.max_bytes)

pub add64-exact : (a b : ℕ) → a + b < 2 ^ 63 → add64 a b ≡ a + b
unfolding add64
add64-exact a b h = omega (arith, h)

sub64-exact : (a b : ℕ) → b ≤ a → a < 2 ^ 63 → sub64 a b ≡ a - b
unfolding sub64
sub64-exact a b le h = omega (arith, le, h)

-- Where the sum does not wrap, the eviction loop compares it.
pub exceeds-exact :
    (c : LruCache) (incoming : ℕ)
    → c.used_bytes + incoming < 2 ^ 63
    → leb_ℤ c.max_bytes (pos 0) ≡ false
    → exceeds c incoming ≡ ltb (pos_part c.max_bytes) (c.used_bytes + incoming)
unfolding exceeds
exceeds-exact c incoming h bounded = ground (
  arith,
  bounded,
  add64-exact c.used_bytes incoming h,
  wrap64_exact (pos (add64 c.used_bytes incoming)),
)

pub new-Inv : (max_bytes : ℤ) → Inv (new_lru_cache max_bytes)
unfolding new_lru_cache by_key
new-Inv max_bytes = record { index = λ k. refl; distinct = tt; fresh = tt }

pub new-Exact : (max_bytes : ℤ) → Exact 0 (new_lru_cache max_bytes)
unfolding new_lru_cache
new-Exact max_bytes = record { total = refl; small = omega arith }

pub find-by_key : (c : LruCache) (k : String) → Inv c → find c k ≡ by_key k c.order
unfolding find
find-by_key c k v = elim (Option-cases (by_key k c.order)) [
  | inl e ↦ ground (arith, v.index k)
  | inr (x, e) ↦ ground (arith, v.index k, at_element-by_key k x c.order v.distinct e)
]

module _ (c : LruCache) (e : Entry) (v : Inv c) (there : by_key e.key c.order ≡ some e) where
  pub by_key-remove_element :
      (b : Bool) (j : String)
      → by_key j (remove_element c e b).order ≡ (if str_eq e.key j then none else by_key j c.order)
  unfolding remove_element
  by_key-remove_element b j = by_key-without e.key e c.order j v.distinct there

  pub remove_element-Exact :
      (b : Bool) (n : ℕ)
      → n < 2 ^ 63
      → Exact n c
      → Exact n (remove_element c e b) × ((remove_element c e b).used_bytes ≤ c.used_bytes)
  unfolding remove_element
  remove_element-Exact b n top x =
      let rest = total_size-without e.key e c.order v.distinct there in
      let exact =
        sub64-exact c.used_bytes e.size (omega (arith, rest, x.total))
          (omega (arith, top, x.total, x.small)) in
      (
        record {
          total = omega (arith, exact, rest, x.total);
          small = omega (arith, rest, x.small);
        },
        omega (arith, exact),
      )

  pub remove_element-Inv : (b : Bool) → Inv (remove_element c e b)
  unfolding remove_element
  remove_element-Inv b = record {
    index = λ k. ground (
      arith,
      lookup-delete e.key k c.elements,
      v.index k,
      by_key-without e.key e c.order k v.distinct there,
    );
    distinct = Distinct-without e.element c.order v.distinct;
    fresh = Below-without e.element c.next_element c.order v.fresh;
  }

  pub set_refs-Inv : (r : ℕ) → Inv (record c { order = set_refs e.element r c.order })
  set_refs-Inv r = record {
    index = λ k.
        ground
          (arith, v.index k, by_key-set_refs e.key e c.order k r v.distinct there, eq_iff e.key k);
    distinct = Distinct-set_refs e.element r c.order v.distinct;
    fresh = Below-set_refs e.element r c.next_element c.order v.fresh;
  }
