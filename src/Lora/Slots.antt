-- ===== src/Lora/Slots.antt =====
-- internal/lora: the pool's bound, and its agreement with the router.
use redline.Base.{
  ℕ, zero, suc, ◌≤◌, String, ◌≡◌, refl, ap, ◌∙◌, Bool, true, false, not, ◌&&◌, ◌||◌, Option, none,
  some, List, [], ◌∷◌, ◌++◌, arith, str_eq, eq_iff, if◌then◌else◌, Bool-cases, Option-cases, length,
  length-append, keep_if, contains, ℤ, pos, pos_part, leb_ℤ,
}
use redline.Lora.{
  Pool, Acquired, acquired, resolve, mark_loaded, mark_unloaded, new_router, new_pool, index_of,
  remove_at, load_adapter, evicted, make_room, acquire,
}

abbrev pub distinct : List String → Bool
distinct [] = true
distinct (x ∷ xs) = not (contains x xs) && distinct xs

-- What holds of a pool between calls: no adapter twice, no more than the slots, and the router
-- knows exactly the pool's adapters.
pub record PoolInv (p : Pool) : Type 0 where
  pub no_twice : distinct p.order ≡ true
  pub in_slots : length p.order ≤ pos_part p.max_slots
  pub same_set : (a : String) → contains a p.router.resident ≡ contains a p.order

distinct-tail : (x : String) (xs : List String) → distinct (x ∷ xs) ≡ true → distinct xs ≡ true
distinct-tail x xs d = ground (arith, d)

contains-snoc :
    (xs : List String) (a b : String) → contains b (xs ++ (a ∷ [])) ≡ (contains b xs || str_eq b a)
contains-snoc [] a b = ground (arith, Bool-cases (str_eq b a))
contains-snoc (x ∷ xs) a b = ground (arith, contains-snoc xs a b)

distinct-snoc :
    (xs : List String) (a : String)
    → contains a xs ≡ false
    → distinct xs ≡ true
    → distinct (xs ++ (a ∷ [])) ≡ true
distinct-snoc [] a h d = refl
distinct-snoc (x ∷ xs) a h d =
    ground (arith, h, d, distinct-snoc xs a, contains-snoc xs a x, eq_iff x a, eq_iff a x)

contains-unloaded :
    (xs : List String) (a b : String)
    → contains b (keep_if (λ x. not (str_eq a x)) xs) ≡ (contains b xs && not (str_eq a b))
contains-unloaded [] a b = refl
contains-unloaded (x ∷ xs) a b =
    ground (arith, eq_iff a x, eq_iff b x, eq_iff a b, contains-unloaded xs a b)

-- What the removal at the index of an adapter leaves.
index_of-none : (xs : List String) (a : String) → index_of xs a ≡ none → contains a xs ≡ false
unfolding index_of
index_of-none [] a h = refl
index_of-none (x ∷ xs) a h =
    ground (arith, h, index_of-none xs a, eq_iff x a, eq_iff a x, Option-cases (index_of xs a))

index_of-suc :
    (x : String) (xs : List String) (a : String) (i : ℕ)
    → index_of (x ∷ xs) a ≡ some (suc i)
    → (index_of xs a ≡ some i) × (str_eq x a ≡ false)
unfolding index_of
index_of-suc x xs a i h = (
  ground (arith, h, Option-cases (index_of xs a)),
  ground (arith, h, Option-cases (index_of xs a)),
)

index_of-zero : (x : String) (xs : List String) (a : String) → index_of (x ∷ xs) a ≡ some 0 → x ≡ a
unfolding index_of
index_of-zero x xs a h = ground (arith, h, eq_iff x a, Option-cases (index_of xs a))

index_of-head :
    (xs : List String) (a : String) (i : ℕ) → index_of xs a ≡ some i → contains a xs ≡ true
unfolding index_of
index_of-head [] a i h = ground (arith, h)
index_of-head (x ∷ xs) a zero h = ground (arith, index_of-zero x xs a h, eq_iff a x)
index_of-head (x ∷ xs) a (suc i) h =
    ground (arith, index_of-head xs a i (index_of-suc x xs a i h).0)

length-remove_at :
    (xs : List String) (a : String) (i : ℕ)
    → index_of xs a ≡ some i
    → suc (length (remove_at i xs)) ≡ length xs
unfolding remove_at index_of
length-remove_at [] a i h = ground (arith, h)
length-remove_at (x ∷ xs) a zero h = refl
length-remove_at (x ∷ xs) a (suc i) h = ap suc (length-remove_at xs a i (index_of-suc x xs a i h).0)

contains-remove_at :
    (xs : List String) (a : String) (i : ℕ)
    → index_of xs a ≡ some i
    → distinct xs ≡ true
    → (b : String) → contains b (remove_at i xs) ≡ (contains b xs && not (str_eq b a))
unfolding remove_at
contains-remove_at [] a i h d b = refl
contains-remove_at (x ∷ xs) a zero h d b =
    ground (arith, d, index_of-zero x xs a h, eq_iff b x, eq_iff b a)
contains-remove_at (x ∷ xs) a (suc i) h d b =
    let (k, ne) = index_of-suc x xs a i h in
    ground (
      arith,
      d,
      ne,
      contains-remove_at xs a i k (distinct-tail x xs d) b,
      eq_iff b x,
      eq_iff b a,
      eq_iff x a,
    )

distinct-remove_at :
    (xs : List String) (a : String) (i : ℕ)
    → index_of xs a ≡ some i
    → distinct xs ≡ true
    → distinct (remove_at i xs) ≡ true
unfolding remove_at
distinct-remove_at [] a i h d = refl
distinct-remove_at (x ∷ xs) a zero h d = ground (arith, d)
distinct-remove_at (x ∷ xs) a (suc i) h d =
    let (k, ne) = index_of-suc x xs a i h in
    ground
      (arith, d, distinct-remove_at xs a i k, contains-remove_at xs a i k (distinct-tail x xs d) x)

if-PoolInv :
    (b : Bool) (x y : Acquired)
    → (b ≡ true → PoolInv x.pool)
    → (b ≡ false → PoolInv y.pool)
    → PoolInv (if b then x else y).pool
if-PoolInv true x y p q = p refl
if-PoolInv false x y p q = q refl

load_adapter-PoolInv :
    (loads : String → Bool) (p : Pool) (a : String)
    → PoolInv p
    → suc (length p.order) ≤ pos_part p.max_slots
    → contains a p.order ≡ false
    → PoolInv (load_adapter loads p a).pool
unfolding load_adapter mark_loaded
load_adapter-PoolInv loads p a inv room new =
    if-PoolInv (loads a) _ _
      (λ _. record {
        no_twice = distinct-snoc p.order a new inv.no_twice;
        in_slots = ground (arith, room, length-append p.order (a ∷ []));
        same_set = λ b. ground (arith, inv.same_set b, contains-snoc p.order a b);
      })
      (λ _. inv)

evicted-PoolInv :
    (p : Pool) (lru : String) (rest : List String)
    → p.order ≡ lru ∷ rest
    → PoolInv p
    → PoolInv (evicted p lru rest)
unfolding evicted mark_unloaded
evicted-PoolInv p lru rest h inv = record {
  no_twice = ground (arith, ap distinct h, inv.no_twice);
  in_slots = ground (arith, ap length h, inv.in_slots);
  same_set = λ b. ground (
    arith,
    h,
    inv.no_twice,
    inv.same_set b,
    contains-unloaded p.router.resident lru b,
    eq_iff b lru,
    eq_iff lru b,
  );
}

moved-PoolInv :
    (p : Pool) (a : String) (i : ℕ)
    → index_of p.order a ≡ some i
    → PoolInv p
    → PoolInv (record p { order = remove_at i p.order ++ (a ∷ []) })
moved-PoolInv p a i h inv =
    let kept = contains-remove_at p.order a i h inv.no_twice in
    record {
      no_twice =
          distinct-snoc (remove_at i p.order) a (ground (arith, kept a, eq_iff a a))
            (distinct-remove_at p.order a i h inv.no_twice);
      in_slots = ground (
        arith,
        inv.in_slots,
        length-remove_at p.order a i h,
        length-append (remove_at i p.order) (a ∷ []),
      );
      same_set = λ b. ground (
        arith,
        inv.same_set b,
        kept b,
        contains-snoc (remove_at i p.order) a b,
        index_of-head p.order a i h,
        eq_iff b a,
      );
    }

make_room-PoolInv :
    (loads unloads : String → Bool) (p : Pool) (a : String) (order : List String)
    → p.order ≡ order
    → contains a order ≡ false
    → leb_ℤ p.max_slots (pos 0) ≡ false
    → PoolInv p
    → PoolInv (make_room loads unloads p a order).pool
unfolding make_room
make_room-PoolInv loads unloads p a [] h new slots inv =
    load_adapter-PoolInv loads p a inv (ground (arith, ap length h, slots))
      (ap (contains a) h ∙ new)
make_room-PoolInv loads unloads p a (lru ∷ rest) h new slots inv =
    let inv' = evicted-PoolInv p lru rest h inv in
    if-PoolInv (leb_ℤ p.max_slots (pos (length (lru ∷ rest)))) _ _
      (λ full.
        if-PoolInv (unloads lru) _ _
          (λ _.
            load_adapter-PoolInv loads (evicted p lru rest) a inv'
              (ground (arith, ap length h, inv.in_slots)) (ground (arith, new)))
          (λ _. inv))
      (λ space.
        load_adapter-PoolInv loads p a inv (ground (arith, ap length h, space, slots))
          (ap (contains a) h ∙ new))

not_resident-PoolInv :
    (loads unloads : String → Bool) (p : Pool) (a : String) (found : Option ℕ)
    → index_of p.order a ≡ found
    → leb_ℤ p.max_slots (pos 0) ≡ false
    → PoolInv p
    → PoolInv
        (elim found as (λ x. Acquired) [
          | some i ↦ record {
            pool = record p { order = remove_at i p.order ++ (a ∷ []) };
            result = acquired;
          }
          | none ↦ make_room loads unloads p a p.order
        ]).pool
not_resident-PoolInv loads unloads p a none h slots inv =
    make_room-PoolInv loads unloads p a p.order refl (index_of-none p.order a h) slots inv
not_resident-PoolInv loads unloads p a (some i) h slots inv = moved-PoolInv p a i h inv

pub acquire-PoolInv :
    (loads unloads : String → Bool) (p : Pool) (a : String)
    → PoolInv p
    → PoolInv (acquire loads unloads p a).pool
unfolding acquire
acquire-PoolInv loads unloads p a inv =
    if-PoolInv (leb_ℤ p.max_slots (pos 0)) _ _ (λ _. inv)
      (λ slots. not_resident-PoolInv loads unloads p a (index_of p.order a) refl slots inv)

-- An acquire, with how the engine answers its load and its unload.
abbrev pub CallOf : Type 0
CallOf = (String → Bool) × (String → Bool) × String

abbrev pub acquires : Pool → List CallOf → Pool
acquires p [] = p
acquires p ((loads, unloads, a) ∷ rest) = acquires (acquire loads unloads p a).pool rest

acquires-PoolInv : (calls : List CallOf) (p : Pool) → PoolInv p → PoolInv (acquires p calls)
acquires-PoolInv [] p inv = inv
acquires-PoolInv ((loads, unloads, a) ∷ rest) p inv =
    acquires-PoolInv rest (acquire loads unloads p a).pool (acquire-PoolInv loads unloads p a inv)

acquire-fixed :
    (loads unloads : String → Bool) (p : Pool) (a : String)
    → ((acquire loads unloads p a).pool.max_slots ≡ p.max_slots)
      × ((acquire loads unloads p a).pool.router.base_model ≡ p.router.base_model)
unfolding acquire make_room load_adapter evicted mark_loaded mark_unloaded
acquire-fixed loads unloads p a = (
  ground (arith, Option-cases (index_of p.order a)),
  ground (arith, Option-cases (index_of p.order a)),
)

acquires-fixed :
    (calls : List CallOf) (p : Pool)
    → ((acquires p calls).max_slots ≡ p.max_slots)
      × ((acquires p calls).router.base_model ≡ p.router.base_model)
acquires-fixed [] p = (refl, refl)
acquires-fixed ((loads, unloads, a) ∷ rest) p =
    let (slots, named) = acquires-fixed rest (acquire loads unloads p a).pool in
    let (slots', named') = acquire-fixed loads unloads p a in (slots ∙ slots', named ∙ named')

new_pool-PoolInv : (max_slots : ℤ) (base : String) → PoolInv (new_pool max_slots (new_router base))
unfolding new_pool new_router
new_pool-PoolInv max_slots base = record {
  no_twice = refl;
  in_slots = omega arith;
  same_set = λ a. refl;
}

-- Of a new pool with a new router, after any acquires, however the engine answers them: no adapter
-- is resident twice, there are no more of them than slots, and the router resolves the base model
-- and exactly the adapters that the pool holds.
pub acquires-bounded :
    (max_slots : ℤ) (base : String) (calls : List CallOf)
    → let p = acquires (new_pool max_slots (new_router base)) calls in
      (distinct p.order ≡ true)
      × (length p.order ≤ pos_part max_slots)
      × ((a : String)
          → resolve p.router a
            ≡ (if str_eq a base then some base else if contains a p.order then some a else none))
unfolding resolve new_pool new_router
acquires-bounded max_slots base calls =
    let p = new_pool max_slots (new_router base) in
    let inv = acquires-PoolInv calls p (new_pool-PoolInv max_slots base) in
    let (slots, named) = acquires-fixed calls p in
    (
      inv.no_twice,
      ground (arith, inv.in_slots, ap pos_part slots),
      λ a. ground (arith, inv.same_set a, named),
    )
