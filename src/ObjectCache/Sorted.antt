-- ===== src/ObjectCache/Sorted.antt =====
-- internal/cache/upload.go: the sort of an upload's parts keeps them, and puts them in order.
use redline.Base.{
  ℕ, suc, ◌≤◌, ◌≡◌, refl, ◌⊎◌, inl, inr, Bool, true, false, List, [], ◌∷◌, arith, leb,
  if◌then◌else◌, Bool-cases, length, All, In,
}
use redline.ObjectCache.{CompletePart, insert_part, sort_parts}
use redline.ObjectCache.Parts.{IsInOrder}

-- The sort keeps the parts, and puts them in order.
length-insert :
    (p : CompletePart) (ps : List CompletePart) → length (insert_part p ps) ≡ suc (length ps)
unfolding insert_part
length-insert p [] = refl
length-insert p (q ∷ qs) = ground (arith, length-insert p qs)

pub length-sort : (ps : List CompletePart) → length (sort_parts ps) ≡ length ps
unfolding sort_parts
length-sort [] = refl
length-sort (p ∷ ps) = omega (arith, length-insert p (sort_parts ps), length-sort ps)

In-insert :
    (x p : CompletePart) (ps : List CompletePart) → In x (insert_part p ps) → (x ≡ p) ⊎ In x ps
unfolding insert_part
In-insert x p [] i = i
In-insert x p (q ∷ qs) i = placed (leb p.part_number q.part_number) i (In-insert x p qs)
  where
    placed :
        (b : Bool)
        → In x (if b then p ∷ q ∷ qs else q ∷ insert_part p qs)
        → (In x (insert_part p qs) → (x ≡ p) ⊎ In x qs)
        → (x ≡ p) ⊎ ((x ≡ q) ⊎ In x qs)
    placed true i others = i
    placed false (inl e) others = inr (inl e)
    placed false (inr i) others = elim (others i) [ inl e ↦ inl e | inr j ↦ inr (inr j) ]

pub In-sort : (x : CompletePart) (ps : List CompletePart) → In x (sort_parts ps) → In x ps
unfolding sort_parts
In-sort x [] i = i
In-sort x (p ∷ ps) i = elim (In-insert x p (sort_parts ps) i) [
  | inl e ↦ inl e
  | inr j ↦ inr (In-sort x ps j)
]

insert-In :
    (x p : CompletePart) (ps : List CompletePart) → (x ≡ p) ⊎ In x ps → In x (insert_part p ps)
unfolding insert_part
insert-In x p [] i = i
insert-In x p (q ∷ qs) i = placed (leb p.part_number q.part_number) i (insert-In x p qs)
  where
    placed :
        (b : Bool)
        → (x ≡ p) ⊎ ((x ≡ q) ⊎ In x qs)
        → ((x ≡ p) ⊎ In x qs → In x (insert_part p qs))
        → In x (if b then p ∷ q ∷ qs else q ∷ insert_part p qs)
    placed true i others = i
    placed false (inl e) others = inr (others (inl e))
    placed false (inr (inl e)) others = inl e
    placed false (inr (inr i)) others = inr (others (inr i))

pub sort-In : (x : CompletePart) (ps : List CompletePart) → In x ps → In x (sort_parts ps)
unfolding sort_parts
sort-In x [] i = i
sort-In x (p ∷ ps) (inl e) = insert-In x p (sort_parts ps) (inl e)
sort-In x (p ∷ ps) (inr i) = insert-In x p (sort_parts ps) (inr (sort-In x ps i))

above-insert :
    (n : ℕ) (p : CompletePart) (ps : List CompletePart)
    → n ≤ p.part_number
    → All (λ q. n ≤ q.part_number) ps
    → All (λ q. n ≤ q.part_number) (insert_part p ps)
unfolding insert_part
above-insert n p [] le h = (le, tt)
above-insert n p (q ∷ qs) le (first, h) = elim (Bool-cases (leb p.part_number q.part_number)) [
  | inl e ↦ rw e (le, (first, h))
  | inr e ↦ rw e (first, above-insert n p qs le h)
]

above_trans :
    (n m : ℕ) (ps : List CompletePart)
    → n ≤ m
    → All (λ q. m ≤ q.part_number) ps
    → All (λ q. n ≤ q.part_number) ps
above_trans n m [] le h = tt
above_trans n m (p ∷ ps) le (first, h) = (omega (arith, le, first), above_trans n m ps le h)

insert-IsInOrder :
    (p : CompletePart) (ps : List CompletePart) → IsInOrder ps → IsInOrder (insert_part p ps)
unfolding insert_part
insert-IsInOrder p [] h = (tt, tt)
insert-IsInOrder p (q ∷ qs) (first, h) = elim (Bool-cases (leb p.part_number q.part_number)) [
  | inl e ↦
      let le : p.part_number ≤ q.part_number = ground (arith, e) in
      rw e ((le, above_trans p.part_number q.part_number qs le first), (first, h))
  | inr e ↦
      rw e (above-insert q.part_number p qs (ground (arith, e)) first, insert-IsInOrder p qs h)
]

pub sort-IsInOrder : (ps : List CompletePart) → IsInOrder (sort_parts ps)
unfolding sort_parts
sort-IsInOrder [] = tt
sort-IsInOrder (p ∷ ps) = insert-IsInOrder p (sort_parts ps) (sort-IsInOrder ps)
