-- ===== src/Scheduler/BinPacking/BestFit.antt =====
-- The node that internal/scheduler/binpacking.go chooses is the tightest that fits.
use redline.Base.{
  ◌≡◌, refl, subst, ◌⊎◌, inl, inr, true, false, Option, none, some, List, [], ◌∷◌, arith,
  Bool-cases, ℤ, pos, ◌≤ℤ◌, ltb_ℤ, In,
}
use native.Mathlib.Nat.{le_refl}
use redline.Scheduler.BinPacking.{
  NodeCapacity, PlacementError, Placement, placed, refused_placement, consider, scan, select_node,
}

abbrev pub Fits : ℤ → NodeCapacity → Type 0
Fits required n = required ≤ℤ n.free_vram_bytes

-- `n` is one of the nodes, fits, and no node that fits has less free.
pub record IsBestFit (nodes : List NodeCapacity) (required : ℤ) (n : NodeCapacity) : Type 0 where
  pub member : In n nodes
  pub fits : Fits required n
  pub tightest :
      (m : NodeCapacity) → In m nodes → Fits required m → n.free_vram_bytes ≤ℤ m.free_vram_bytes

-- What is known of `best` after the nodes `seen`.
abbrev Best : ℤ → (NodeCapacity → Type 0) → Option NodeCapacity → Type 0
Best required Seen none = (m : NodeCapacity) → Seen m → ¬ Fits required m
Best required Seen (some n) =
    Seen n
    × Fits required n
    × ((m : NodeCapacity) → Seen m → Fits required m → n.free_vram_bytes ≤ℤ m.free_vram_bytes)

Fits-test :
    (n : NodeCapacity) (required : ℤ) → ltb_ℤ n.free_vram_bytes required ≡ false → Fits required n
Fits-test n required h = ground arith

not-Fits :
    (n : NodeCapacity) (required : ℤ)
    → ltb_ℤ n.free_vram_bytes required ≡ true
    → Fits required n
    → ⊥
not-Fits n required h f = ground arith

le_trans-tight :
    (n b m : NodeCapacity)
    → ltb_ℤ n.free_vram_bytes b.free_vram_bytes ≡ true
    → b.free_vram_bytes ≤ℤ m.free_vram_bytes
    → n.free_vram_bytes ≤ℤ m.free_vram_bytes
le_trans-tight n b m h k = ground arith

loose :
    (n b : NodeCapacity)
    → ltb_ℤ n.free_vram_bytes b.free_vram_bytes ≡ false
    → b.free_vram_bytes ≤ℤ n.free_vram_bytes
loose n b h = ground arith

consider-Best :
    (required : ℤ) (Seen : NodeCapacity → Type 0) (n : NodeCapacity) (best : Option NodeCapacity)
    → Best required Seen best
    → Best required (λ m. (m ≡ n) ⊎ Seen m) (consider required n best)
unfolding consider
consider-Best required Seen n none h = elim (Bool-cases (ltb_ℤ n.free_vram_bytes required)) [
  | inl small ↦
      rw small
        (λ m. elim [ inl e ↦ λ fits. absurd (too_small m e fits small) | inr seen ↦ h m seen ])
  | inr fit ↦ rw fit (
    inl refl,
    Fits-test n required fit,
    λ m. elim [ inl e ↦ λ _. rw e (le_refl _) | inr seen ↦ λ fits. absurd (h m seen fits) ],
  )
]
  where
    too_small :
        (m : NodeCapacity) → m ≡ n → Fits required m → ltb_ℤ n.free_vram_bytes required ≡ true → ⊥
    too_small m e fits small = not-Fits n required small (subst (Fits required) e fits)
consider-Best required Seen n (some b) (seen_b, fits_b, tight) =
    elim (Bool-cases (ltb_ℤ n.free_vram_bytes required)) [
      | inl small ↦ rw small (
        inr seen_b,
        fits_b,
        λ m. elim [
          | inl e ↦ λ fits. absurd (not-Fits n required small (subst (Fits required) e fits))
          | inr seen ↦ tight m seen
        ],
      )
      | inr fit ↦ elim (Bool-cases (ltb_ℤ n.free_vram_bytes b.free_vram_bytes)) [
        | inl tighter ↦ rw fit (
            rw tighter (
              inl refl,
              Fits-test n required fit,
              λ m. elim [
                | inl e ↦ λ _. rw e (le_refl _)
                | inr seen ↦ λ fits. le_trans-tight n b m tighter (tight m seen fits)
              ],
            ))
        | inr looser ↦ rw fit (
            rw looser (
              inr seen_b,
              fits_b,
              λ m. elim [ inl e ↦ λ _. rw e (loose n b looser) | inr seen ↦ tight m seen ],
            ))
      ]
    ]

weaken-Best :
    (required : ℤ) (P Q : NodeCapacity → Type 0) (best : Option NodeCapacity)
    → ((m : NodeCapacity) → P m → Q m)
    → ((m : NodeCapacity) → Q m → P m)
    → Best required P best
    → Best required Q best
weaken-Best required P Q none f g h = λ m q. h m (g m q)
weaken-Best required P Q (some n) f g (p, fits, tight) = (f n p, fits, λ m q. tight m (g m q))

scan-Best :
    (required : ℤ) (nodes : List NodeCapacity) (Seen : NodeCapacity → Type 0)
    (best : Option NodeCapacity) (largest : ℤ)
    → Best required Seen best
    → Best required (λ m. In m nodes ⊎ Seen m) (scan required nodes best largest).0
unfolding scan
scan-Best required [] Seen best largest h =
    weaken-Best required Seen _ best (λ m p. inr p) (λ m. elim [ inl x ↦ absurd x | inr p ↦ p ]) h
scan-Best required (n ∷ ns) Seen best largest h =
    weaken-Best required (λ m. In m ns ⊎ (m ≡ n) ⊎ Seen m) _ _
      (λ m. elim [ inl x ↦ inl (inr x) | inr (inl e) ↦ inl (inl e) | inr (inr seen) ↦ inr seen ])
      (λ m. elim [ inl (inl e) ↦ inr (inl e) | inl (inr x) ↦ inl x | inr seen ↦ inr (inr seen) ])
      (scan-Best required ns (λ m. (m ≡ n) ⊎ Seen m) (consider required n best) _
        (consider-Best required Seen n best h))

-- A node that is the best fit, or no node that fits.
abbrev pub IsRight : List NodeCapacity → ℤ → Placement → Type 0
IsRight nodes required (placed n) = IsBestFit nodes required n
IsRight nodes required (refused_placement e) = (m : NodeCapacity) → In m nodes → ¬ Fits required m

finish-IsRight :
    (nodes : List NodeCapacity) (required : ℤ) (best : Option NodeCapacity) (e : PlacementError)
    → Best required (λ m. In m nodes ⊎ ⊥) best
    → IsRight nodes required (elim best [ none ↦ refused_placement e | some n ↦ placed n ])
finish-IsRight nodes required none e h = λ m x. h m (inl x)
finish-IsRight nodes required (some n) e (seen, fits, tight) = record {
  member = elim seen [ inl x ↦ x | inr a ↦ absurd a ];
  fits = fits;
  tightest = λ m x. tight m (inl x);
}

-- The chosen node is one of the nodes, has the required bytes free, and no node that has them has
-- fewer free; placement is refused only where no node has the required bytes free.
pub select_node-best_fit :
    (nodes : List NodeCapacity) (required : ℤ) → IsRight nodes required (select_node nodes required)
unfolding select_node
select_node-best_fit nodes required =
    finish-IsRight nodes required (scan required nodes none (pos 0)).0 _
      (scan-Best required nodes (λ _. ⊥) none (pos 0) (λ m x. absurd x))
