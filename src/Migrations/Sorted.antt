-- ===== src/Migrations/Sorted.antt =====
-- internal/db/migrate.go: `LoadMigrations` returns the migrations in ascending order.
use redline.Base.{
  String, ◌≡◌, refl, ap, subst, ◌⊎◌, inl, inr, true, Option, none, some, List, [], ◌∷◌, arith,
  Bool-cases, All, ℤ, ltb_ℤ, leb_ℤ,
}
use redline.Migrations.{
  Migration, LoadError, duplicate_version, DirEntry, load_each, insert_migration, sort_migrations,
  duplicate, load_migrations,
}

-- Each version is below all that follow.
abbrev pub IsAscending : List Migration → Type 0
IsAscending [] = Unit
IsAscending (m ∷ ms) = All (λ n. ltb_ℤ m.version n.version ≡ true) ms × IsAscending ms

abbrev AtLeast : Migration → List Migration → Type 0
AtLeast m ms = All (λ n. leb_ℤ m.version n.version ≡ true) ms

abbrev IsSorted : List Migration → Type 0
IsSorted [] = Unit
IsSorted (m ∷ ms) = AtLeast m ms × IsSorted ms

AtLeast-trans :
    (k m : Migration) (ms : List Migration)
    → leb_ℤ k.version m.version ≡ true
    → AtLeast m ms
    → AtLeast k ms
AtLeast-trans k m [] le h = h
AtLeast-trans k m (n ∷ ms) le (first, h) = (ground (arith, le, first), AtLeast-trans k m ms le h)

AtLeast-insert :
    (k m : Migration) (ms : List Migration)
    → leb_ℤ k.version m.version ≡ true
    → AtLeast k ms
    → AtLeast k (insert_migration m ms)
unfolding insert_migration
AtLeast-insert k m [] le h = (le, tt)
AtLeast-insert k m (n ∷ ms) le (first, h) = elim (Bool-cases (leb_ℤ m.version n.version)) [
  | inl e ↦ rw e (le, (first, h))
  | inr e ↦ rw e (first, AtLeast-insert k m ms le h)
]

insert-IsSorted :
    (m : Migration) (ms : List Migration) → IsSorted ms → IsSorted (insert_migration m ms)
unfolding insert_migration
insert-IsSorted m [] h = (tt, tt)
insert-IsSorted m (n ∷ ms) (first, h) = elim (Bool-cases (leb_ℤ m.version n.version)) [
  | inl e ↦ rw e ((e, AtLeast-trans m n ms e first), (first, h))
  | inr e ↦ rw e (AtLeast-insert n m ms (ground (arith, e)) first, insert-IsSorted m ms h)
]

sort-IsSorted : (ms : List Migration) → IsSorted (sort_migrations ms)
unfolding sort_migrations
sort-IsSorted [] = tt
sort-IsSorted (m ∷ ms) = insert-IsSorted m (sort_migrations ms) (sort-IsSorted ms)

above :
    (m n : Migration) (ms : List Migration)
    → ltb_ℤ m.version n.version ≡ true
    → AtLeast n ms
    → All (λ x. ltb_ℤ m.version x.version ≡ true) ms
above m n [] lt h = tt
above m n (x ∷ ms) lt (first, h) = (ground (arith, lt, first), above m n ms lt h)

sorted-IsAscending : (ms : List Migration) → IsSorted ms → duplicate ms ≡ none → IsAscending ms
unfolding duplicate
sorted-IsAscending [] h d = tt
sorted-IsAscending (m ∷ []) h d = (tt, tt)
sorted-IsAscending (m ∷ n ∷ ms) ((le, _), (first, h)) d =
    let lt : ltb_ℤ m.version n.version ≡ true = ground (arith, le, d) in
    ((lt, above m n ms lt first), sorted-IsAscending (n ∷ ms) (first, h) (ground (arith, d)))

inl_eq : (xs ys : List Migration) → ◌≡◌ {A = List Migration ⊎ LoadError} (inl xs) (inl ys) → xs ≡ ys
inl_eq xs ys e = ap (λ z. elim z [ inl x ↦ x | inr _ ↦ xs ]) e

-- Where loading succeeds, the versions ascend strictly.
pub load_migrations-IsAscending :
    (atoi : String → Option ℤ) (entries : List DirEntry) (ms : List Migration)
    → load_migrations atoi entries ≡ inl ms
    → IsAscending ms
unfolding load_migrations
load_migrations-IsAscending atoi entries ms h = loaded (load_each atoi entries) (ground (arith, h))
  where
    unique :
        (xs : List Migration) (o : Option ℤ)
        → duplicate (sort_migrations xs) ≡ o
        → (elim o as (λ x. List Migration ⊎ LoadError) [
          | some v ↦ inr (duplicate_version v)
          | none ↦ inl (sort_migrations xs)
        ])
          ≡ inl ms
        → IsAscending ms
    unique xs none d e =
        subst IsAscending (inl_eq (sort_migrations xs) ms e)
          (sorted-IsAscending (sort_migrations xs) (sort-IsSorted xs) d)
    unique xs (some v) d e = let no : ⊥ = ground (arith, e) in elim no [ ]

    loaded :
        (o : List Migration ⊎ LoadError)
        → (elim o as (λ x. List Migration ⊎ LoadError) [
          | inr bad ↦ inr bad
          | inl xs ↦ elim (duplicate (sort_migrations xs)) [
            | some v ↦ inr (duplicate_version v)
            | none ↦ inl (sort_migrations xs)
          ]
        ])
          ≡ inl ms
        → IsAscending ms
    loaded (inr bad) e = let no : ⊥ = ground (arith, e) in elim no [ ]
    loaded (inl xs) e = unique xs (duplicate (sort_migrations xs)) refl e
