-- ===== src/Queue/Workers/Deliveries.antt =====
-- internal/queue/workerpool.go: the deliveries that the jobs of a list can still take. Every round of a
-- worker lowers them.
use redline.Base.{
  ℕ, suc, ◌+◌, ◌-◌, ◌≤◌, max, String, ◌≡◌, refl, ap, ◌∙◌, Bool, true, false, Option, none, some,
  List, [], ◌∷◌, ◌++◌, arith, str_eq, eq_iff, if◌then◌else◌,
}
use text.Mathlib.TextLemmas.{append_cancel_left}
use Prim.Native.String.{◌++◌ as str_append}
use redline.Queue.{job_key}
use redline.Queue.Places.{occurrences, occurrences-snoc}

-- The deliveries that are left for a job of so many attempts.
abbrev pub weight : ℕ → Option ℕ → ℕ
weight max none = 1
weight max (some n) = suc (max - suc n)

abbrev pub deliveries : ℕ → (String → Option ℕ) → List String → ℕ
deliveries max f [] = 0
deliveries max f (id ∷ ids) = weight max (f id) + deliveries max f ids

abbrev pub is_some : Option ℕ → Bool
is_some none = false
is_some (some n) = true

-- No job is in the list twice, and each has its fields.
pub record IsReady (f : String → Option ℕ) (ids : List String) : Type 0 where
  pub undoubled : (j : String) → occurrences j ids ≤ 1
  pub has_fields : (j : String) → 1 ≤ occurrences j ids → is_some (f j) ≡ true

pub deliveries-snoc :
    (max : ℕ) (f : String → Option ℕ) (ids : List String) (id : String)
    → deliveries max f (ids ++ (id ∷ [])) ≡ deliveries max f ids + weight max (f id)
deliveries-snoc max f [] id = omega arith
deliveries-snoc max f (x ∷ ids) id = omega (arith, deliveries-snoc max f ids id)

pub deliveries-same :
    (max : ℕ) (f g : String → Option ℕ) (ids : List String)
    → ((j : String) → 1 ≤ occurrences j ids → g j ≡ f j)
    → deliveries max g ids ≡ deliveries max f ids
deliveries-same max f g [] h = refl
deliveries-same max f g (x ∷ ids) h =
    let same : g x ≡ f x = h x (ground (arith, eq_iff x x)) in
    omega
      (arith, ap (weight max) same, deliveries-same max f g ids (λ j le. h j (ground (arith, le))))

-- The last job is taken off, and its fields change.
module _ (f g : String → Option ℕ) (id : String) (ids : List String) (v : Option ℕ)
    (ready : IsReady f (ids ++ (id ∷ [])))
    (changed : (j : String) → g j ≡ (if str_eq id j then v else f j)) where
  others : (j : String) → 1 ≤ occurrences j ids → str_eq id j ≡ false
  others j le =
      ground (arith, le, eq_iff id j, eq_iff j id, occurrences-snoc j id ids, ready.undoubled j)

  pub others_same : (j : String) → 1 ≤ occurrences j ids → g j ≡ f j
  others_same j le = ground (arith, others j le, changed j)

  pub taken-IsReady : IsReady g ids
  taken-IsReady = record {
    undoubled = λ j. ground (arith, occurrences-snoc j id ids, ready.undoubled j);
    has_fields = λ j le.
        ap is_some (others_same j le)
        ∙ ready.has_fields j (ground (arith, le, occurrences-snoc j id ids));
  }

  pub requeued-IsReady : is_some v ≡ true → IsReady g (id ∷ ids)
  requeued-IsReady has = record {
    undoubled = λ j. ground (arith, occurrences-snoc j id ids, ready.undoubled j);
    has_fields = λ j le.
        ground (arith, le, has, changed j, eq_iff id j, eq_iff j id, taken-IsReady.has_fields j);
  }

pub job_key-eq : (name a b : String) → str_eq (job_key name a) (job_key name b) ≡ str_eq a b
unfolding job_key
job_key-eq name a b = ground (
  arith,
  eq_iff a b,
  eq_iff (job_key name a) (job_key name b),
  append_cancel_left "queue:" (str_append name (str_append ":job:" a))
      (str_append name (str_append ":job:" b)),
  append_cancel_left name (str_append ":job:" a) (str_append ":job:" b),
  append_cancel_left ":job:" a b,
)
