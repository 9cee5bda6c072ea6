-- ===== src/LocalCache/Evicting.antt =====
-- The eviction loop: it ends, keeps what is in use, and makes room wherever that can be done.
use redline.Base.{
  ℕ, zero, suc, ◌^◌, ◌≤◌, ◌<◌, String, ◌≡◌, refl, ◌∙◌, inl, inr, true, false, none, some, arith,
  eq_iff, Bool-cases, Option-cases, length,
}
use redline.LocalCache.{
  Entry, LruCache, exceeds, remove_element, least_recently_used_unreferenced, Eviction, fits,
  too_large, no_fuel, evict_loop,
}
use redline.LocalCache.Entries.{
  by_key, length-without, pinned_except, pinned_except-without, victim-by_key,
}
use redline.LocalCache.Invariant.{
  Inv, Exact, remove_element-Exact, by_key-remove_element, remove_element-Inv,
}

-- What an eviction leaves of a cache.
pub record Evicted (k : String) (c d : LruCache) : Type 0 where
  pub inv : Inv d
  pub bound : d.max_bytes ≡ c.max_bytes
  pub exact : (n : ℕ) → n < 2 ^ 63 → Exact n c → Exact n d × (d.used_bytes ≤ c.used_bytes)
  pub kept :
      (j : String) (e : Entry)
      → by_key j c.order ≡ some e
      → 0 < e.ref_count
      → by_key j d.order ≡ some e
  pub gone : (j : String) → by_key j c.order ≡ none → by_key j d.order ≡ none
  pub pinned : pinned_except k d.order ≡ pinned_except k c.order

pub Evicted-refl : (k : String) (c : LruCache) → Inv c → Evicted k c c
Evicted-refl k c v = record {
  inv = v;
  bound = refl;
  exact = λ n top x. (x, omega arith);
  kept = λ j e h _. h;
  gone = λ j h. h;
  pinned = refl;
}

Evicted-trans : (k : String) (b c d : LruCache) → Evicted k b c → Evicted k c d → Evicted k b d
Evicted-trans k b c d p q = record {
  inv = q.inv;
  bound = q.bound ∙ p.bound;
  exact = λ n top x.
      let (y, le) = p.exact n top x in
      let (z, le') = q.exact n top y in (z, omega (arith, le, le'));
  kept = λ j e h r. q.kept j e (p.kept j e h r) r;
  gone = λ j h. q.gone j (p.gone j h);
  pinned = q.pinned ∙ p.pinned;
}

-- The outcome for room of `incoming` bytes within the bound.
abbrev pub Outcome : String → LruCache → ℕ → Eviction → Type 0
Outcome k c incoming (fits d) = Evicted k c d × (exceeds d incoming ≡ false)
Outcome k c incoming (too_large d) =
    Evicted k c d × (least_recently_used_unreferenced d.order ≡ none) × (exceeds d incoming ≡ true)
Outcome k c incoming no_fuel = ⊥

module _ (k : String) (c : LruCache) (e : Entry) (v : Inv c)
    (h : least_recently_used_unreferenced c.order ≡ some e) where
  there : by_key e.key c.order ≡ some e
  there = (victim-by_key c.order e v.distinct h).0

  kept_apart :
      (j : String) (x : Entry)
      → by_key j c.order ≡ some x
      → 0 < x.ref_count
      → by_key j (remove_element c e true).order ≡ some x
  kept_apart j x q r = ground (
    arith,
    by_key-remove_element c e v there true j,
    there,
    eq_iff e.key j,
    victim-by_key c.order e v.distinct h,
  )

  evict_one : Evicted k c (remove_element c e true)
  unfolding remove_element
  evict_one = record {
    inv = remove_element-Inv c e v there true;
    bound = refl;
    exact = remove_element-Exact c e v there true;
    kept = kept_apart;
    gone = λ j q. ground (arith, by_key-remove_element c e v there true j);
    pinned =
        pinned_except-without k e c.order v.distinct there
          (inr (victim-by_key c.order e v.distinct h).1);
  }

  shorter : suc (length (remove_element c e true).order) ≡ length c.order
  unfolding remove_element
  shorter = length-without e.key e c.order v.distinct there

Outcome-after :
    (k : String) (c d : LruCache) (incoming : ℕ) (r : Eviction)
    → Evicted k c d
    → Outcome k d incoming r
    → Outcome k c incoming r
Outcome-after k c d incoming (fits x) p (q, room) = (Evicted-trans k c d x p q, room)
Outcome-after k c d incoming (too_large x) p (q, n, full) = (Evicted-trans k c d x p q, n, full)
Outcome-after k c d incoming no_fuel p q = q

pub evict_loop-Outcome :
    (k : String) (fuel : ℕ) (c : LruCache) (incoming : ℕ)
    → length c.order < fuel
    → Inv c
    → Outcome k c incoming (evict_loop fuel c incoming)
unfolding evict_loop
evict_loop-Outcome k zero c incoming f v = elim f [ ]
evict_loop-Outcome k (suc fuel) c incoming f v = elim (Bool-cases (exceeds c incoming)) [
  | inr room ↦ rw (room, evict_loop) (Evicted-refl k c v, room)
  | inl full ↦ elim (Option-cases (least_recently_used_unreferenced c.order)) [
    | inl n ↦ rw (full, evict_loop) (rw (n, evict_loop) (Evicted-refl k c v, n, full))
    | inr (e, n) ↦
        rw (full, evict_loop)
          (rw (n, evict_loop)
            (Outcome-after k c _ incoming _ (evict_one k c e v n) (
              evict_loop-Outcome k fuel (remove_element c e true) incoming
                (omega (arith, shorter k c e v n)) (evict_one k c e v n).inv)))
  ]
]
