-- ===== src/LocalCache/Calls.antt =====
-- Sequences of calls of the cache's methods.
use redline.Base.{
  ℕ, ◌+◌, ◌-◌, ◌^◌, ◌≤◌, ◌<◌, String, ◌≡◌, sym, ap, subst, ◌∙◌, inl, inr, Bool, true, false, none,
  some, List, [], ◌∷◌, arith, str_eq, eq_iff, ◌==◌, if◌then◌else◌, Bool-cases, Option-cases, any_of,
  ℤ,
}
use redline.LocalCache.{
  Entry, LruCache, new_lru_cache, without, set_refs, find, remove_element, put, get, acquire,
  release, remove,
}
use redline.LocalCache.Entries.{
  by_key, Below, by_key-key, by_key-without, total_size-without, total_size-set_refs, Fresh-rest,
  by_key-set_refs, Distinct-without, Below-without,
}
use redline.LocalCache.Invariant.{
  Inv, Exact, Within, element_of, new-Inv, new-Exact, remove_element-Exact, find-by_key,
  by_key-remove_element, remove_element-Inv, set_refs-Inv,
}
use redline.LocalCache.Putting.{put-Inv, put-Exact, put_keeps_referenced}

pub data Op : Type 0 where
  puts : String → String → ℕ → Op
  gets acquires releases removes : String → Op

unfoldable pub step : LruCache → Op → LruCache
step c (puts key path size) = (put c key path size).0
step c (gets key) = (get c key).0
step c (acquires key) = (acquire c key).0
step c (releases key) = (release c key).0
step c (removes key) = (remove c key).0

unfoldable pub run : LruCache → List Op → LruCache
run c [] = c
run c (o ∷ os) = run (step c o) os

module _ (c : LruCache) (e : Entry) (v : Inv c) (there : by_key e.key c.order ≡ some e) where
  by_key-front : (j : String) → by_key j (e ∷ without e.element c.order) ≡ by_key j c.order
  unfolding by_key
  by_key-front j = ground (arith, by_key-without e.key e c.order j v.distinct there, eq_iff e.key j)

  Below-there : (n : ℕ) (es : List Entry) → Below n es → by_key e.key es ≡ some e → e.element < n
  unfolding by_key
  Below-there n [] b h = cc
  Below-there n (x ∷ xs) b h = ground (arith, Below-there n xs b.1)

  front-Inv : Inv (record c { order = e ∷ without e.element c.order })
  front-Inv = record {
    index = λ k. v.index k ∙ ap element_of (sym (by_key-front k));
    distinct =
        (Fresh-rest e c.order v.distinct there, Distinct-without e.element c.order v.distinct);
    fresh = (
      Below-there c.next_element c.order v.fresh there,
      Below-without e.element c.next_element c.order v.fresh,
    );
  }

-- The calls that look an entry up neither add bytes nor leave a bounded cache over its bound.
abbrev Counted : ℕ → LruCache → Type 0
Counted n c = Exact n c × Within c

more_room : {n m : ℕ} {c : LruCache} → n ≤ m → Counted n c → Counted m c
more_room le x = (record { total = x.0.total; small = omega (arith, le, x.0.small) }, x.1)

module _ (c : LruCache) (e : Entry) (v : Inv c) (there : by_key e.key c.order ≡ some e) (n : ℕ)
    (x : Counted n c) where
  front-Counted : Counted n (record c { order = e ∷ without e.element c.order })
  front-Counted =
      let size = total_size-without e.key e c.order v.distinct there in
      (
        record { total = omega (arith, size, x.0.total); small = omega (arith, size, x.0.small) },
        x.1,
      )

  set_refs-Counted : (r : ℕ) → Counted n (record c { order = set_refs e.element r c.order })
  set_refs-Counted r =
      let size = total_size-set_refs e.element r c.order in
      (
        record { total = omega (arith, size, x.0.total); small = omega (arith, size, x.0.small) },
        x.1,
      )

  remove_element-Counted : n < 2 ^ 63 → (b : Bool) → Counted n (remove_element c e b)
  unfolding remove_element
  remove_element-Counted top b =
      let (y, le) = remove_element-Exact c e v there b n top x.0 in (y, ground (arith, x.1, le))

-- A fact about the results of the methods that look an entry up, from one for each outcome.
found {ℓ} :
    (P : LruCache → Type ℓ) (c : LruCache) (k : String)
    → Inv c
    → (f : Entry → LruCache) → P c
    → ((e : Entry) → by_key e.key c.order ≡ some e → e.key ≡ k → P (f e))
    → P (elim (find c k) [ none ↦ c | some e ↦ f e ])
found P c k v f miss hit = elim (Option-cases (by_key k c.order)) [
  | inl n ↦ rw (find-by_key c k v) (rw n miss)
  | inr (e, n) ↦
      let q = by_key-key k c.order e n in
      rw (find-by_key c k v) (rw n (hit e (subst (λ x. by_key x c.order ≡ some e) (sym q) n) q))
]

after_get : LruCache → Entry → LruCache
after_get c e = record c { order = e ∷ without e.element c.order }

after_refs : ℕ → LruCache → Entry → LruCache
after_refs r c e = record c { order = set_refs e.element r c.order }

get_lem :
    (c : LruCache) (k : String)
    → (get c k).0 ≡ elim (find c k) [ none ↦ c | some e ↦ after_get c e ]
unfolding get after_get
get_lem c k = ground arith

acquire_lem :
    (c : LruCache) (k : String)
    → (acquire c k).0 ≡ elim (find c k) [ none ↦ c | some e ↦ after_refs (e.ref_count + 1) c e ]
unfolding acquire after_refs
acquire_lem c k = ground arith

after_release : LruCache → Entry → LruCache
after_release c e = if e.ref_count == 0 then c else after_refs (e.ref_count - 1) c e

release_lem :
    (c : LruCache) (k : String)
    → (release c k).0 ≡ elim (find c k) [ none ↦ c | some e ↦ after_release c e ]
unfolding release after_refs after_release
release_lem c k = ground arith

remove_lem :
    (c : LruCache) (k : String)
    → (remove c k).0 ≡ elim (find c k) [ none ↦ c | some e ↦ remove_element c e true ]
unfolding remove
remove_lem c k = ground arith

step-Inv : (c : LruCache) (o : Op) → Inv c → Inv (step c o)
unfolding step after_get after_refs after_release
step-Inv c (puts k path size) v = put-Inv c k path size v
step-Inv c (gets k) v = rw (get_lem c k) (found Inv c k v _ v (λ e h _. front-Inv c e v h))
step-Inv c (acquires k) v =
    rw (acquire_lem c k) (found Inv c k v _ v (λ e h _. set_refs-Inv c e v h (e.ref_count + 1)))
step-Inv c (releases k) v =
    rw (release_lem c k)
      (found Inv c k v _ v (λ e h _. ground (arith, v, set_refs-Inv c e v h (e.ref_count - 1))))
step-Inv c (removes k) v =
    rw (remove_lem c k) (found Inv c k v _ v (λ e h _. remove_element-Inv c e v h true))

run_any-Inv : (c : LruCache) (os : List Op) → Inv c → Inv (run c os)
unfolding run
run_any-Inv c [] v = v
run_any-Inv c (o ∷ os) v = run_any-Inv (step c o) os (step-Inv c o v)

-- The bytes that a call puts, and those of all calls.
abbrev pub put_size : Op → ℕ
put_size (puts key path size) = size
put_size _ = 0

abbrev pub put_bytes : List Op → ℕ
put_bytes [] = 0
put_bytes (o ∷ os) = put_size o + put_bytes os

step-Counted :
    (n : ℕ) (c : LruCache) (o : Op)
    → n + put_size o < 2 ^ 63
    → Inv c
    → Counted n c
    → Counted (n + put_size o) (step c o)
unfolding step after_get after_refs after_release
step-Counted n c (puts k path size) top v x = put-Exact c k path size v n top x.0 x.1
step-Counted n c (gets k) top v x = rw (get_lem c k) (
    found (Counted (n + 0)) c k v _ (more_room (omega arith) x)
      (λ e h _. front-Counted c e v h _ (more_room (omega arith) x)))
step-Counted n c (acquires k) top v x = rw (acquire_lem c k) (
    found (Counted (n + 0)) c k v _ (more_room (omega arith) x)
      (λ e h _. set_refs-Counted c e v h _ (more_room (omega arith) x) (e.ref_count + 1)))
step-Counted n c (releases k) top v x = rw (release_lem c k) (
    found (Counted (n + 0)) c k v _ (more_room (omega arith) x) (λ e h _.
      elim (Bool-cases (e.ref_count == 0)) [
        | inl z ↦ rw z (more_room (omega arith) x)
        | inr z ↦ rw z (set_refs-Counted c e v h _ (more_room (omega arith) x) (e.ref_count - 1))
      ]))
step-Counted n c (removes k) top v x = rw (remove_lem c k) (
    found (Counted (n + 0)) c k v _ (more_room (omega arith) x)
      (λ e h _. remove_element-Counted c e v h _ (more_room (omega arith) x) top true))

run_any-Counted :
    (n : ℕ) (c : LruCache) (os : List Op)
    → n + put_bytes os < 2 ^ 63
    → Inv c
    → Counted n c
    → Counted (n + put_bytes os) (run c os)
unfolding run
run_any-Counted n c [] top v x = more_room (omega arith) x
run_any-Counted n c (o ∷ os) top v x =
    let rest =
      run_any-Counted (n + put_size o) (step c o) os (omega (arith, top)) (step-Inv c o v)
        (step-Counted n c o (omega (arith, top)) v x) in
    (record { total = rest.0.total; small = omega (arith, rest.0.small) }, rest.1)

-- After any calls on a new cache whose put sizes sum to less than 2^63, the map and the list agree,
-- no key and no element stands twice, the bytes counted are those of the entries, which are at
-- most that sum, and a bounded cache is within its bound.
pub run-Inv :
    (max_bytes : ℤ) (os : List Op)
    → put_bytes os < 2 ^ 63
    → Inv (run (new_lru_cache max_bytes) os)
      × Exact (put_bytes os) (run (new_lru_cache max_bytes) os)
      × Within (run (new_lru_cache max_bytes) os)
unfolding new_lru_cache
run-Inv max_bytes os top =
    let x =
      run_any-Counted 0 (new_lru_cache max_bytes) os (omega (arith, top)) (new-Inv max_bytes)
        (new-Exact max_bytes, inr (omega arith)) in
    (
      run_any-Inv (new_lru_cache max_bytes) os (new-Inv max_bytes),
      record { total = x.0.total; small = omega (arith, x.0.small) },
      x.1,
    )

-- The calls that may end the use of an entry: a put, a release or a removal under its key.
abbrev pub gives_up : String → Op → Bool
gives_up j (puts k path size) = str_eq k j
gives_up j (releases k) = str_eq k j
gives_up j (removes k) = str_eq k j
gives_up j _ = false

-- The key holds the path for at least one live deployment.
abbrev pub InUse : String → String → LruCache → Type 0
InUse j path c = (e : Entry) × (find c j ≡ some e) × (e.path ≡ path) × (0 < e.ref_count)

abbrev Held : String → String → LruCache → Type 0
Held j path c = (e : Entry) × (by_key j c.order ≡ some e) × (e.path ≡ path) × (0 < e.ref_count)

module _ (j path : String) (c : LruCache) (v : Inv c) (x : Entry) (h : by_key j c.order ≡ some x)
    (same : x.path ≡ path) (r : 0 < x.ref_count) where
  front-Held : (e : Entry) → by_key e.key c.order ≡ some e → Held j path (after_get c e)
  unfolding after_get
  front-Held e there = (x, by_key-front c e v there j ∙ h, same, r)

  more-Held :
      (e : Entry) → by_key e.key c.order ≡ some e → Held j path (after_refs (e.ref_count + 1) c e)
  unfolding after_refs
  more-Held e there = elim (Bool-cases (str_eq e.key j)) [
    | inl q ↦ (
      record e { ref_count = e.ref_count + 1 },
      by_key-set_refs e.key e c.order j (e.ref_count + 1) v.distinct there
          ∙ ap
              (λ b. if b then some (record e { ref_count = e.ref_count + 1 }) else by_key j c.order)
              q,
      ground (arith, h, there, (eq_iff e.key j).0 q),
      omega arith,
    )
    | inr q ↦ (
      x,
      ground (arith, by_key-set_refs e.key e c.order j (e.ref_count + 1) v.distinct there),
      same,
      r,
    )
  ]

  fewer-Held :
      (e : Entry)
      → by_key e.key c.order ≡ some e
      → str_eq e.key j ≡ false
      → Held j path (after_release c e)
  unfolding after_refs after_release
  fewer-Held e there q = elim (Bool-cases (e.ref_count == 0)) [
    | inl z ↦ rw z (x, h, same, r)
    | inr z ↦ rw z (
      x,
      ground (arith, by_key-set_refs e.key e c.order j (e.ref_count - 1) v.distinct there),
      same,
      r,
    )
  ]

  removed-Held :
      (e : Entry)
      → by_key e.key c.order ≡ some e
      → str_eq e.key j ≡ false
      → Held j path (remove_element c e true)
  removed-Held e there q = (x, ground (arith, by_key-remove_element c e v there true j), same, r)

  step-Held : (o : Op) → gives_up j o ≡ false → Held j path (step c o)
  unfolding step
  step-Held (puts k p size) n = (
    x,
    sym (find-by_key _ j (put-Inv c k p size v))
        ∙ put_keeps_referenced c k p size v j x (λ e. ground (arith, eq_iff k j))
            (find-by_key c j v ∙ h) r,
    same,
    r,
  )
  step-Held (gets k) n =
      rw (get_lem c k) (found (Held j path) c k v _ (x, h, same, r) (λ e t _. front-Held e t))
  step-Held (acquires k) n =
      rw (acquire_lem c k) (found (Held j path) c k v _ (x, h, same, r) (λ e t _. more-Held e t))
  step-Held (releases k) n = rw (release_lem c k) (
      found (Held j path) c k v _ (x, h, same, r)
        (λ e t q. fewer-Held e t (ap (λ y. str_eq y j) q ∙ n)))
  step-Held (removes k) n = rw (remove_lem c k) (
      found (Held j path) c k v _ (x, h, same, r)
        (λ e t q. removed-Held e t (ap (λ y. str_eq y j) q ∙ n)))

step-InUse :
    (j path : String) (c : LruCache) (o : Op)
    → Inv c
    → gives_up j o ≡ false
    → InUse j path c
    → InUse j path (step c o)
step-InUse j path c o v n (x, h, same, r) =
    let (y, h', same', r') = step-Held j path c v x (sym (find-by_key c j v) ∙ h) same r o n in
    (y, find-by_key (step c o) j (step-Inv c o v) ∙ h', same', r')

-- An artifact in use stays in the cache, at its path and in use, through any calls but a put, a
-- release and a removal under its own key: no pressure for room evicts it.
pub run-InUse :
    (j path : String) (os : List Op) (c : LruCache)
    → Inv c
    → any_of (gives_up j) os ≡ false
    → InUse j path c
    → InUse j path (run c os)
unfolding run
run-InUse j path [] c v n h = h
run-InUse j path (o ∷ os) c v n h =
    run-InUse j path os (step c o) (step-Inv c o v) (ground arith)
      (step-InUse j path c o v (ground arith) h)
