-- ===== src/ObjectCache/Parts.antt =====
-- internal/cache/upload.go: what the requests of an upload have in them, and the order of its parts.
use redline.Base.{
  ℕ, zero, suc, ◌+◌, ◌^◌, ◌≤◌, ◌<◌, String, ◌≡◌, refl, sym, ap, subst, ◌∙◌, ◌↔◌, inl, inr, Bool,
  true, false, Option, none, some, List, [], ◌∷◌, ◌++◌, arith, length, length-append, All, pos,
  ◌+ℤ◌, wrap64_exact, In,
}
use redline.ObjectCache.{
  Source, take_bytes, drop_bytes, chunks, numbered, CompletePart, completed_etag, StoreReplies,
  UploadRequest, puts_part, completes, aborts, UploadResult, put_requests, collected, count_bytes,
}

abbrev pub joined : List (List ℕ) → List ℕ
joined [] = []
joined (c ∷ cs) = c ++ joined cs

-- Each part but the last has the part size, and the last has a byte at least and is no longer.
abbrev pub IsSplit : ℕ → List (List ℕ) → Type 0
IsSplit n [] = Unit
IsSplit n (c ∷ []) = (0 < length c) × (length c ≤ n)
IsSplit n (c ∷ d ∷ cs) = (length c ≡ n) × IsSplit n (d ∷ cs)

-- The parts that are sent, their numbers, the parts of the completion, and whether there is an abort.
abbrev pub bodies : List UploadRequest → List (List ℕ)
bodies [] = []
bodies (puts_part k c ∷ rs) = c ∷ bodies rs
bodies (completes ps ∷ rs) = bodies rs
bodies (aborts ∷ rs) = bodies rs

abbrev pub numbers : List UploadRequest → List ℕ
numbers [] = []
numbers (puts_part k c ∷ rs) = k ∷ numbers rs
numbers (completes ps ∷ rs) = numbers rs
numbers (aborts ∷ rs) = numbers rs

abbrev pub completion : List UploadRequest → Option (List CompletePart)
completion [] = none
completion (puts_part k c ∷ rs) = completion rs
completion (completes ps ∷ rs) = some ps
completion (aborts ∷ rs) = completion rs

abbrev pub is_aborted : List UploadRequest → Bool
is_aborted [] = false
is_aborted (puts_part k c ∷ rs) = is_aborted rs
is_aborted (completes ps ∷ rs) = is_aborted rs
is_aborted (aborts ∷ rs) = true

abbrev pub from_on : ℕ → ℕ → List ℕ
from_on k zero = []
from_on k (suc n) = k ∷ from_on (suc k) n

abbrev pub IsInOrder : List CompletePart → Type 0
IsInOrder [] = Unit
IsInOrder (p ∷ ps) = All (λ q. p.part_number ≤ q.part_number) ps × IsInOrder ps

-- The order in which parts arrive loses none, and makes none up.
abbrev pub KeepsParts : (List CompletePart → List CompletePart) → Type 0
KeepsParts arrives =
    (ps : List CompletePart)
    → (length (arrives ps) ≡ length ps) × ((p : CompletePart) → In p (arrives ps) ↔ In p ps)

abbrev pub part_of : ℕ → String → CompletePart
part_of k e = record { part_number = k; etag = e }

-- What a successful upload has sent.
pub record IsSent (r : StoreReplies) (part_size : ℕ) (src : Source) (requests : List UploadRequest)
    (result : UploadResult) : Type 0 where
  pub whole : joined (bodies requests) ≡ src.bytes
  pub split : IsSplit part_size (bodies requests)
  pub counted : numbers requests ≡ from_on 1 (length (bodies requests))
  pub parts : List CompletePart
  pub completed : completion requests ≡ some parts
  pub in_order : IsInOrder parts
  pub as_many : length parts ≡ length (bodies requests)
  pub tagged :
      (p : CompletePart)
      → In p parts
      → In p.part_number (numbers requests) × (r.on_put p.part_number ≡ some p.etag)
  pub every : (k : ℕ) → In k (numbers requests) → (e : String) × In (part_of k e) parts
  pub kept : is_aborted requests ≡ false
  pub unbroken : src.is_broken ≡ false
  pub size : result.size ≡ pos (length src.bytes)

take-drop : (n : ℕ) (xs : List ℕ) → take_bytes n xs ++ drop_bytes n xs ≡ xs
take-drop zero xs = refl
take-drop (suc n) [] = refl
take-drop (suc n) (x ∷ xs) = ap (λ ys. x ∷ ys) (take-drop n xs)

length-drop : (n : ℕ) (xs : List ℕ) → length (drop_bytes n xs) ≤ length xs
length-drop zero xs = omega arith
length-drop (suc n) [] = omega arith
length-drop (suc n) (x ∷ xs) = omega (arith, length-drop n xs)

length-take : (n : ℕ) (xs : List ℕ) → length (take_bytes n xs) ≤ n
length-take zero xs = omega arith
length-take (suc n) [] = omega arith
length-take (suc n) (x ∷ xs) = omega (arith, length-take n xs)

take-full :
    (n : ℕ) (xs : List ℕ) (y : ℕ) (ys : List ℕ)
    → drop_bytes n xs ≡ y ∷ ys
    → length (take_bytes n xs) ≡ n
take-full zero xs y ys h = refl
take-full (suc n) [] y ys h = let no : ⊥ = ground (arith, h) in elim no [ ]
take-full (suc n) (x ∷ xs) y ys h = omega (arith, take-full n xs y ys h)

pub joined-chunks :
    (fuel n : ℕ) (xs : List ℕ) → length xs ≤ fuel → joined (chunks fuel (suc n) xs) ≡ xs
joined-chunks fuel n [] enough = refl
joined-chunks zero n (x ∷ xs) enough = let no : ⊥ = omega (arith, enough) in elim no [ ]
joined-chunks (suc fuel) n (x ∷ xs) enough =
    ap (λ ys. x ∷ (take_bytes n xs ++ ys))
      (joined-chunks fuel n (drop_bytes n xs) (omega (arith, enough, length-drop n xs)))
    ∙ ap (λ ys. x ∷ ys) (take-drop n xs)

pub chunks-IsSplit : (fuel n : ℕ) (xs : List ℕ) → IsSplit (suc n) (chunks fuel (suc n) xs)
chunks-IsSplit fuel n [] = tt
chunks-IsSplit zero n (x ∷ xs) = tt
chunks-IsSplit (suc fuel) n (x ∷ xs) =
    after (drop_bytes n xs) refl fuel (chunks-IsSplit fuel n (drop_bytes n xs))
  where
    after :
        (rest : List ℕ)
        → drop_bytes n xs ≡ rest
        → (f : ℕ) → IsSplit (suc n) (chunks f (suc n) rest)
        → IsSplit (suc n) ((x ∷ take_bytes n xs) ∷ chunks f (suc n) rest)
    after [] e f h = (omega arith, omega (arith, length-take n xs))
    after (y ∷ ys) e zero h = (omega arith, omega (arith, length-take n xs))
    after (y ∷ ys) e (suc f) h = (omega (arith, take-full n xs y ys e), h)

module _ (last : List UploadRequest) (none_put : bodies last ≡ [])
    (none_numbered : numbers last ≡ []) where
  pub bodies-put :
      (k : ℕ) (cs : List (List ℕ)) → bodies (put_requests [] (numbered k cs) ++ last) ≡ cs
  unfolding put_requests completed_etag
  bodies-put k [] = none_put
  bodies-put k (c ∷ cs) = ap (λ ds. c ∷ ds) (bodies-put (suc k) cs)

  pub numbers-put :
      (k : ℕ) (cs : List (List ℕ))
      → numbers (put_requests [] (numbered k cs) ++ last) ≡ from_on k (length cs)
  unfolding put_requests completed_etag
  numbers-put k [] = none_numbered
  numbers-put k (c ∷ cs) = ap (λ ks. k ∷ ks) (numbers-put (suc k) cs)

  pub completion-put :
      (k : ℕ) (cs : List (List ℕ))
      → completion (put_requests [] (numbered k cs) ++ last) ≡ completion last
  unfolding put_requests completed_etag
  completion-put k [] = refl
  completion-put k (c ∷ cs) = completion-put (suc k) cs

  pub is_aborted-put :
      (k : ℕ) (cs : List (List ℕ))
      → is_aborted (put_requests [] (numbered k cs) ++ last) ≡ is_aborted last
  unfolding put_requests completed_etag
  is_aborted-put k [] = refl
  is_aborted-put k (c ∷ cs) = is_aborted-put (suc k) cs

pub count_bytes-joined :
    (n k : ℕ) (cs : List (List ℕ))
    → n + length (joined cs) < 2 ^ 63
    → count_bytes (pos n) (numbered k cs) ≡ pos (n + length (joined cs))
unfolding count_bytes ◌+ℤ◌
count_bytes-joined n k [] h = ap pos (omega arith)
count_bytes-joined n k (c ∷ cs) h =
    let all = length-append c (joined cs) in
    ap (λ t. count_bytes t (numbered (suc k) cs))
      (wrap64_exact (pos n +ℤ pos (length c)) (ground (arith, all, h), ground (arith, all, h))
        ∙ (ground arith))
    ∙ count_bytes-joined (n + length c) (suc k) cs (omega (arith, all, h))
    ∙ ap pos (omega (arith, all))

-- The parts that are collected.
pub record IsCollected (on_put : ℕ → Option String) (k n : ℕ) (ps : List CompletePart)
    : Type 0 where
  pub as_many : length ps ≡ n
  pub tagged :
      (p : CompletePart)
      → In p ps
      → In p.part_number (from_on k n) × (on_put p.part_number ≡ some p.etag)
  pub every : (j : ℕ) → In j (from_on k n) → (e : String) × In (part_of j e) ps

pub collected-IsCollected :
    (on_put : ℕ → Option String) (k : ℕ) (cs : List (List ℕ)) (ps : List CompletePart)
    → collected on_put [] (numbered k cs) ≡ some ps
    → IsCollected on_put k (length cs) ps
unfolding collected completed_etag
collected-IsCollected on_put k [] ps h =
    let empty : [] ≡ ps = ground (arith, h) in
    subst (IsCollected on_put k 0) empty
      (record { as_many = refl; tagged = λ p i. absurd i; every = λ j i. absurd i })
collected-IsCollected on_put k (c ∷ cs) ps h =
    put (on_put k) refl h (collected-IsCollected on_put (suc k) cs)
  where
    gathered :
        (e : String) (o : Option (List CompletePart))
        → on_put k ≡ some e
        → collected on_put [] (numbered (suc k) cs) ≡ o
        → (elim o as (λ x. Option (List CompletePart)) [
          | none ↦ none
          | some parts ↦ some (part_of k e ∷ parts)
        ])
          ≡ some ps
        → ((qs : List CompletePart)
            → collected on_put [] (numbered (suc k) cs) ≡ some qs
            → IsCollected on_put (suc k) (length cs) qs)
        → IsCollected on_put k (suc (length cs)) ps
    gathered e none t q g others = let no : ⊥ = ground (arith, g) in elim no [ ]
    gathered e (some parts) t q g others =
        let rest = others parts q in
        let same : part_of k e ∷ parts ≡ ps = ground (arith, g) in
        subst (IsCollected on_put k (suc (length cs))) same (record {
          as_many = omega (arith, rest.as_many);
          tagged = λ p i. elim i [
            | inl here ↦ (
              inl (ap (λ x. x.part_number) here),
              subst (λ x. on_put x.part_number ≡ some x.etag) (sym here) t,
            )
            | inr there ↦ let (among, answered) = rest.tagged p there in (inr among, answered)
          ];
          every = λ j i. elim i [
            | inl here ↦ (e, inl (ap (λ x. part_of x e) here))
            | inr there ↦ let (e', among) = rest.every j there in (e', inr among)
          ];
        })

    put :
        (o : Option String)
        → on_put k ≡ o
        → (elim o as (λ x. Option (List CompletePart)) [
          | none ↦ none
          | some e ↦ elim (collected on_put [] (numbered (suc k) cs)) [
            | none ↦ none
            | some parts ↦ some (part_of k e ∷ parts)
          ]
        ])
          ≡ some ps
        → ((qs : List CompletePart)
            → collected on_put [] (numbered (suc k) cs) ≡ some qs
            → IsCollected on_put (suc k) (length cs) qs)
        → IsCollected on_put k (suc (length cs)) ps
    put none t g others = let no : ⊥ = ground (arith, g) in elim no [ ]
    put (some e) t g others = gathered e (collected on_put [] (numbered (suc k) cs)) t refl g others
