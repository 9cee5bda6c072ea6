-- ===== src/LocalCache/Putting.antt =====
-- `Put`: what it keeps, when it fails, and what it leaves behind.
use redline.Base.{
  ℕ, suc, ◌+◌, ◌^◌, ◌≤◌, ◌<◌, String, ◌≡◌, refl, sym, ap, subst, ◌∙◌, ◌≢◌, ◌↔◌, ◌⊎◌, inl, inr, true,
  false, Option, none, some, arith, eq_iff, Bool-cases, Option-cases, length, pos, pos_part, leb_ℤ,
  lookup-insert,
}
use redline.LocalCache.{
  Entry, LruCache, exceeds, CacheError, insufficient_capacity, find, remove_element,
  least_recently_used_unreferenced, Eviction, fits, too_large, no_fuel, evict_until_fits,
  drop_existing, push_front, finish_put, put, new_entry,
}
use redline.LocalCache.Entries.{
  by_key, total_size, by_key-key, pinned_except, pinned_except-le, pinned_except-without,
  pinned_except-all, Fresh-new, Below-suc,
}
use redline.LocalCache.Invariant.{
  Inv, Exact, Within, exceeds-exact, add64-exact, remove_element-Exact, find-by_key,
  by_key-remove_element, remove_element-Inv,
}
use redline.LocalCache.Evicting.{Evicted, Evicted-refl, Outcome, evict_loop-Outcome}

-- The cache without what was under the key.
record Dropped (k : String) (c d : LruCache) : Type 0 where
  inv : Inv d
  bound : d.max_bytes ≡ c.max_bytes
  exact : (n : ℕ) → n < 2 ^ 63 → Exact n c → Exact n d × (d.used_bytes ≤ c.used_bytes)
  here : by_key k d.order ≡ none
  elsewhere : (j : String) → k ≢ j → by_key j d.order ≡ by_key j c.order
  pinned : pinned_except k d.order ≡ pinned_except k c.order

removed-Dropped :
    (c : LruCache) (k : String) (e : Entry)
    → Inv c
    → e.key ≡ k
    → by_key e.key c.order ≡ some e
    → Dropped k c (remove_element c e false)
unfolding remove_element
removed-Dropped c k e v q there = record {
  inv = remove_element-Inv c e v there false;
  bound = refl;
  exact = remove_element-Exact c e v there false;
  here = ground (arith, by_key-remove_element c e v there false k, eq_iff e.key k);
  elsewhere = λ j h. ground (arith, by_key-remove_element c e v there false j, eq_iff e.key j);
  pinned = pinned_except-without k e c.order v.distinct there (inl q);
}

drop_existing-Dropped : (c : LruCache) (k : String) → Inv c → Dropped k c (drop_existing c k)
unfolding drop_existing
drop_existing-Dropped c k v = elim (Option-cases (by_key k c.order)) [
  | inl n ↦
      rw (find-by_key c k v, drop_existing)
        (rw (n, drop_existing)
          (record {
            inv = v;
            bound = refl;
            exact = λ n top x. (x, omega arith);
            here = n;
            elsewhere = λ j _. refl;
            pinned = refl;
          }))
  | inr (e, n) ↦
      let q = by_key-key k c.order e n in
      rw (find-by_key c k v, drop_existing)
        (rw (n, drop_existing)
          (removed-Dropped c k e v q (subst (λ x. by_key x c.order ≡ some e) (sym q) n)))
]

-- What `evictUntilFits` leaves, also where the cache is unbounded.
abbrev Room : String → LruCache → ℕ → Eviction → Type 0
Room k c incoming (fits d) =
    Evicted k c d × ((leb_ℤ c.max_bytes (pos 0) ≡ true) ⊎ (exceeds d incoming ≡ false))
Room k c incoming (too_large d) =
    Evicted k c d
    × (least_recently_used_unreferenced d.order ≡ none)
    × (exceeds d incoming ≡ true)
    × (leb_ℤ c.max_bytes (pos 0) ≡ false)
Room k c incoming no_fuel = ⊥

Room-Outcome :
    (k : String) (c : LruCache) (incoming : ℕ) (r : Eviction)
    → leb_ℤ c.max_bytes (pos 0) ≡ false
    → Outcome k c incoming r
    → Room k c incoming r
Room-Outcome k c incoming (fits d) b (h, room) = (h, inr room)
Room-Outcome k c incoming (too_large d) b (h, n, full) = (h, n, full, b)
Room-Outcome k c incoming no_fuel b h = h

evict_until_fits-Room :
    (k : String) (c : LruCache) (incoming : ℕ)
    → Inv c
    → Room k c incoming (evict_until_fits c incoming)
unfolding evict_until_fits
evict_until_fits-Room k c incoming v = elim (Bool-cases (leb_ℤ c.max_bytes (pos 0))) [
  | inl free ↦ rw free (Evicted-refl k c v, inl free)
  | inr bounded ↦ rw bounded (
      Room-Outcome k c incoming _ bounded
        (evict_loop-Outcome k (suc (length c.order)) c incoming (omega arith) v))
]

push_front-Inv :
    (d : LruCache) (k path : String) (size : ℕ)
    → Inv d
    → by_key k d.order ≡ none
    → Inv (push_front d k path size)
unfolding push_front by_key
push_front-Inv d k path size v n = record {
  index = λ j. ground (arith, lookup-insert k j d.next_element d.elements, v.index j);
  distinct = (Fresh-new (new_entry d k path size) d.order v.fresh n, v.distinct);
  fresh = (omega arith, Below-suc d.next_element d.order v.fresh);
}

push_front-Exact :
    (d : LruCache) (k path : String) (n size : ℕ)
    → n + size < 2 ^ 63
    → Exact n d
    → Exact (n + size) (push_front d k path size)
      × ((push_front d k path size).used_bytes ≡ d.used_bytes + size)
unfolding push_front
push_front-Exact d k path n size top x =
    let exact = add64-exact d.used_bytes size (omega (arith, top, x.total, x.small)) in
    (record { total = omega (arith, exact, x.total); small = omega (arith, x.small) }, exact)

-- The comparison of the eviction loop is that of the exact sum, where it does not wrap.
room_fits :
    (x : LruCache) (size : ℕ)
    → x.used_bytes + size < 2 ^ 63
    → (leb_ℤ x.max_bytes (pos 0) ≡ true) ⊎ (exceeds x size ≡ false)
    → (pos_part x.max_bytes ≡ 0) ⊎ (x.used_bytes + size ≤ pos_part x.max_bytes)
room_fits x size top room = elim (Bool-cases (leb_ℤ x.max_bytes (pos 0))) [
  | inl free ↦ inl (ground (arith, free))
  | inr bounded ↦ inr (ground (arith, bounded, room, exceeds-exact x size top bounded))
]

-- What is known of the two results of `Put`.
record PutResult (k path : String) (size : ℕ) (c : LruCache) (r : LruCache × Option CacheError)
    : Type 0 where
  inv : Inv r.0
  kept :
      (j : String) (e : Entry)
      → k ≢ j
      → by_key j c.order ≡ some e
      → 0 < e.ref_count
      → by_key j r.0.order ≡ some e
  stored :
      r.1 ≡ none
      → (e : Entry) × (by_key k r.0.order ≡ some e)
        × (e.path ≡ path)
        × (e.size ≡ size)
        × (e.ref_count ≡ 0)
  exact :
      (n : ℕ)
      → n + size < 2 ^ 63
      → Exact n c
      → Within c
      → Exact (n + size) r.0
        × Within r.0
        × ((r.1 ≡ some insufficient_capacity) ↔ (
            (0 < pos_part c.max_bytes) × (pos_part c.max_bytes < pinned_except k c.order + size)))
  lost : r.1 ≡ some insufficient_capacity → by_key k r.0.order ≡ none

module _ (k path : String) (size : ℕ) (c d : LruCache) (p : Dropped k c d) where
  fits-PutResult :
      (x : LruCache)
      → Evicted k d x
      → (leb_ℤ d.max_bytes (pos 0) ≡ true) ⊎ (exceeds x size ≡ false)
      → PutResult k path size c (push_front x k path size, none)
  unfolding push_front by_key
  fits-PutResult x q room = record {
    inv = push_front-Inv x k path size q.inv (q.gone k p.here);
    kept = λ j e h there r. ground (arith, q.kept j e, p.elsewhere j h, eq_iff k j);
    stored = λ _. (new_entry x k path size, ground (arith, eq_iff k k), refl, refl, refl);
    exact = λ n top a within.
        let (y, le) = p.exact n (omega (arith, top)) a in
        let (z, le') = q.exact n (omega (arith, top)) y in
        let (w, used) = push_front-Exact x k path n size top z in
        let fit =
          room_fits x size (omega (arith, top, z.total, z.small))
            (subst (λ m. (leb_ℤ m (pos 0) ≡ true) ⊎ (exceeds x size ≡ false)) (sym q.bound) room) in
        (
          w,
          ground (arith, used, fit),
          (
            λ e. cc,
            λ big. absurd (
                ground (
                  arith,
                  big,
                  fit,
                  ap pos_part p.bound,
                  ap pos_part q.bound,
                  pinned_except-le k x.order,
                  q.pinned,
                  p.pinned,
                  z.total,
                )),
          ),
        );
    lost = λ e. cc;
  }

  too_large-PutResult :
      (x : LruCache)
      → Evicted k d x
      → least_recently_used_unreferenced x.order ≡ none
      → exceeds x size ≡ true
      → leb_ℤ d.max_bytes (pos 0) ≡ false
      → PutResult k path size c (x, some insufficient_capacity)
  too_large-PutResult x q n full b = record {
    inv = q.inv;
    kept = λ j e h there r. q.kept j e (p.elsewhere j h ∙ there) r;
    stored = λ e. cc;
    exact = λ m top a within.
        let (y, le) = p.exact m (omega (arith, top)) a in
        let (z, le') = q.exact m (omega (arith, top)) y in
        let same : pos_part x.max_bytes ≡ pos_part c.max_bytes = ap pos_part (q.bound ∙ p.bound) in
        let bounded : leb_ℤ x.max_bytes (pos 0) ≡ false = rw q.bound b in
        let over = exceeds-exact x size (omega (arith, top, z.total, z.small)) bounded in
        (
          record { total = z.total; small = omega (arith, z.small) },
          ground (arith, same, within, le, le'),
          (
            λ _. ground (
              arith,
              same,
              bounded,
              over,
              full,
              pinned_except-all k x.order q.inv.distinct (q.gone k p.here) n,
              q.pinned,
              p.pinned,
              z.total,
            ),
            λ _. refl,
          ),
        );
    lost = λ _. q.gone k p.here;
  }

  Room-PutResult :
      (r : Eviction) → Room k d size r → PutResult k path size c (finish_put r k path size d)
  unfolding finish_put
  Room-PutResult (fits x) (q, room) = fits-PutResult x q room
  Room-PutResult (too_large x) (q, n, full, b) = too_large-PutResult x q n full b
  Room-PutResult no_fuel h = absurd h

module _ (c : LruCache) (k path : String) (size : ℕ) (v : Inv c) where
  put-PutResult : PutResult k path size c (put c k path size)
  unfolding put
  put-PutResult =
      let p = drop_existing-Dropped c k v in
      Room-PutResult k path size c (drop_existing c k) p _
        (evict_until_fits-Room k (drop_existing c k) size p.inv)

  pub put-Inv : Inv (put c k path size).0
  put-Inv = put-PutResult.inv

  -- A put never touches an entry under another key that a live deployment refers to.
  pub put_keeps_referenced :
      (j : String) (e : Entry)
      → k ≢ j
      → find c j ≡ some e
      → 0 < e.ref_count
      → find (put c k path size).0 j ≡ some e
  put_keeps_referenced j e h there r =
      find-by_key _ j put-Inv ∙ put-PutResult.kept j e h (sym (find-by_key c j v) ∙ there) r

  pub put-Exact :
      (n : ℕ)
      → n + size < 2 ^ 63
      → Exact n c
      → Within c
      → Exact (n + size) (put c k path size).0 × Within (put c k path size).0
  put-Exact n top x within = let (y, w, _) = put-PutResult.exact n top x within in (y, w)

  -- Where the used bytes are those of the entries, a bounded cache is within its bound, and the used
  -- bytes and the new ones do not overflow an int64 together, a put fails exactly when the cache is
  -- bounded and the new bytes do not fit beside the entries under other keys that are in use; the
  -- error is then that the capacity is insufficient.
  pub put-fails_iff :
      c.used_bytes ≡ total_size c.order
      → Within c
      → c.used_bytes + size < 2 ^ 63
      → ((put c k path size).1 ≡ some insufficient_capacity)
        ↔ ((0 < pos_part c.max_bytes) × (pos_part c.max_bytes < pinned_except k c.order + size))
  put-fails_iff total within top =
      let (_, _, iff) =
        put-PutResult.exact c.used_bytes top
          (record { total = total; small = omega (arith, total) }) within in
      iff

  -- After a put that succeeds the key holds the path and size given, with no reference; after
  -- one that fails the key holds nothing, also where it held an entry before.
  pub put_outcome :
      ((put c k path size).1 ≡ none
        → (e : Entry) × (find (put c k path size).0 k ≡ some e)
          × (e.path ≡ path)
          × (e.size ≡ size)
          × (e.ref_count ≡ 0))
      × ((put c k path size).1 ≡ some insufficient_capacity → find (put c k path size).0 k ≡ none)
  put_outcome = (
    λ ok.
        let (e, there, a, b, z) = put-PutResult.stored ok in
        (e, find-by_key _ k put-Inv ∙ there, a, b, z),
    λ bad. find-by_key _ k put-Inv ∙ put-PutResult.lost bad,
  )
