-- ===== src/Queue/Places.antt =====
-- internal/queue/ops.go: where a job is. The lists pending, processing and dead-letter are the
-- places; the theorem is on calls that are made in good order.
use redline.Base.{
  ℕ, suc, ◌+◌, ◌-◌, max, String, ◌≡◌, refl, ap, ◌∙◌, ◌⊎◌, inl, inr, Bool, true, false, not, none,
  some, List, [], ◌∷◌, ◌++◌, arith, str_eq, eq_iff, if◌then◌else◌, Option-cases, keep_if, ℤ, Call,
  served,
}
use Prim.Native.String.{◌++◌ as str_append}
use text.Mathlib.TextLemmas.{append_cancel_left}
use redline.Redis.{JobStore}
use redline.Queue.{
  pending_key, processing_key, dead_letter_key, visibility_key, job_key, last_item, dequeue_script,
  ack_script, nack_script,
}

-- How often a job is in a list.
abbrev pub occurrences : String → List String → ℕ
occurrences id [] = 0
occurrences id (x ∷ xs) = let rest = occurrences id xs in if str_eq id x then suc rest else rest

pub occurrences-snoc :
    (id v : String) (xs : List String) → occurrences id (xs ++ (v ∷ [])) ≡ occurrences id (v ∷ xs)
occurrences-snoc id v [] = refl
occurrences-snoc id v (x ∷ xs) = ground (arith, occurrences-snoc id v xs)

occurrences-removed :
    (id v : String) (xs : List String)
    → occurrences id (keep_if (λ x. not (str_eq v x)) xs)
      ≡ (if str_eq v id then 0 else occurrences id xs)
occurrences-removed id v [] = ground arith
occurrences-removed id v (x ∷ xs) =
    ground (arith, eq_iff v id, eq_iff v x, eq_iff id x, occurrences-removed id v xs)

pub last_item-none : (xs : List String) → last_item xs ≡ none → xs ≡ []
unfolding last_item
last_item-none [] h = refl
last_item-none (x ∷ xs) h = ground (arith, h, Option-cases (last_item xs))

pub last_item-snoc :
    (xs : List String) (v : String)
    → last_item xs ≡ some v
    → (ys : List String) × (xs ≡ ys ++ (v ∷ []))
unfolding last_item
last_item-snoc [] v h = let no : ⊥ = ground (arith, h) in elim no [ ]
last_item-snoc (x ∷ xs) v h = elim (Option-cases (last_item xs)) [
  | inl e ↦ ([], ground (arith, h, e, last_item-none xs e))
  | inr (w, e) ↦ let (ys, p) = last_item-snoc xs w e in (x ∷ ys, ground (arith, h, e, p))
]

abbrev pub is_served : Call → Bool
is_served served = true
is_served _ = false

-- The three lists are at different keys.
module _ (name : String) where
  key_neq :
      (a b : String)
      → str_eq a b ≡ false
      → str_eq (str_append "queue:" (str_append name a)) (str_append "queue:" (str_append name b))
        ≡ false
  key_neq a b h = ground (
    arith,
    h,
    eq_iff a b,
    eq_iff (str_append "queue:" (str_append name a)) (str_append "queue:" (str_append name b)),
    append_cancel_left "queue:" (str_append name a) (str_append name b),
    append_cancel_left name a b,
  )

  pub pending≢processing : str_eq (pending_key name) (processing_key name) ≡ false
  unfolding pending_key processing_key
  pending≢processing = key_neq ":pending" ":processing" refl

  pub processing≢pending : str_eq (processing_key name) (pending_key name) ≡ false
  unfolding pending_key processing_key
  processing≢pending = key_neq ":processing" ":pending" refl

  pub pending≢dead : str_eq (pending_key name) (dead_letter_key name) ≡ false
  unfolding pending_key dead_letter_key
  pending≢dead = key_neq ":pending" ":deadletter" refl

  pub dead≢pending : str_eq (dead_letter_key name) (pending_key name) ≡ false
  unfolding pending_key dead_letter_key
  dead≢pending = key_neq ":deadletter" ":pending" refl

  pub processing≢dead : str_eq (processing_key name) (dead_letter_key name) ≡ false
  unfolding processing_key dead_letter_key
  processing≢dead = key_neq ":processing" ":deadletter" refl

  dead≢processing : str_eq (dead_letter_key name) (processing_key name) ≡ false
  unfolding processing_key dead_letter_key
  dead≢processing = key_neq ":deadletter" ":processing" refl

  pub self : (k : String) → str_eq k k ≡ true
  self k = ground (arith, eq_iff k k)

module _ (R : JobStore) (name : String) where
  open R use {
    Db, items, lpush, rpoplpush, lrem, zadd, zrem, attempts_of, hset_job, incr_attempts, del_job,
    items-lpush, items-rpoplpush, items-lrem, items-zadd, items-zrem, items-hset, items-incr,
    items-del,
  }

  abbrev pub pending_count : Db → String → ℕ
  pending_count d id = occurrences id (items d (pending_key name))

  abbrev pub processing_count : Db → String → ℕ
  processing_count d id = occurrences id (items d (processing_key name))

  abbrev pub dead_count : Db → String → ℕ
  dead_count d id = occurrences id (items d (dead_letter_key name))

  -- In how many places of the queue a job is.
  abbrev pub total : Db → String → ℕ
  total d id = pending_count d id + processing_count d id + dead_count d id

  -- The places after a push of one job to one list.
  pub pushed-total :
      (d e : Db) (k id j : String)
      → ((l : String) → items e l ≡ (if str_eq k l then id ∷ items d l else items d l))
      → (str_eq k (pending_key name) ≡ true) ⊎ (str_eq k (dead_letter_key name) ≡ true)
      → total e j ≡ (if str_eq j id then suc (total d j) else total d j)
  pushed-total d e k id j h place = ground (
    arith,
    place,
    eq_iff k (pending_key name),
    eq_iff k (dead_letter_key name),
    ap (occurrences j) (h (pending_key name)),
    ap (occurrences j) (h (processing_key name)),
    ap (occurrences j) (h (dead_letter_key name)),
    pending≢processing name,
    pending≢dead name,
    dead≢pending name,
    dead≢processing name,
  )

  pub items-removed :
      (d : Db) (id l : String)
      → items (zrem (lrem d (processing_key name) id) (visibility_key name) id) l ≡ (
          if str_eq (processing_key name) l
          then keep_if (λ x. not (str_eq id x)) (items d l)
          else items d l)
  items-removed d id l = items-zrem _ _ _ l ∙ items-lrem d (processing_key name) id l

  -- The places after a job is taken off the list of those in processing.
  removed-total :
      (d e : Db) (id j : String)
      → ((l : String)
          → items e l ≡ (
              if str_eq (processing_key name) l
              then keep_if (λ x. not (str_eq id x)) (items d l)
              else items d l))
      → total e j ≡ (if str_eq id j then total d j - processing_count d j else total d j)
  removed-total d e id j h = ground (
    arith,
    ap (occurrences j) (h (pending_key name)),
    ap (occurrences j) (h (processing_key name)),
    ap (occurrences j) (h (dead_letter_key name)),
    occurrences-removed j id (items d (processing_key name)),
    processing≢pending name,
    processing≢dead name,
    self name (processing_key name),
  )

  pub ack-total :
      (d : Db) (id j : String)
      → total (ack_script R name d id) j
        ≡ (if str_eq id j then total d j - processing_count d j else total d j)
  unfolding ack_script
  ack-total d id j =
      removed-total d (ack_script R name d id) id j (λ l. items-del _ _ l ∙ items-removed d id l)

  pub nack-total :
      (d : Db) (max : ℤ) (id j : String)
      → total (nack_script R name d max id) j
        ≡ (if str_eq id j then suc (total d j - processing_count d j) else total d j)
  unfolding nack_script
  nack-total d max id j =
      let off = zrem (lrem d (processing_key name) id) (visibility_key name) id in
      let d' = incr_attempts off (job_key name id) in
      ground (
        arith,
        eq_iff id j,
        eq_iff j id,
        removed-total d d' id j (λ l. items-incr _ _ l ∙ items-removed d id l),
        pushed-total d' (lpush d' (dead_letter_key name) id) (dead_letter_key name) id j
            (items-lpush d' (dead_letter_key name) id) (inr (self name (dead_letter_key name))),
        pushed-total d' (lpush d' (pending_key name) id) (pending_key name) id j
            (items-lpush d' (pending_key name) id) (inl (self name (pending_key name))),
      )

  -- The places after one job moves from the pending list's end to the processing list's front.
  moved-total :
      (d e : Db) (id j : String) (ys : List String)
      → items d (pending_key name) ≡ ys ++ (id ∷ [])
      → ((l : String)
          → items e l ≡ (
              if str_eq (pending_key name) l
              then ys
              else if str_eq (processing_key name) l
              then id ∷ items d l
              else items d l))
      → total e j ≡ total d j
  moved-total d e id j ys p h = ground (
    arith,
    ap (occurrences j) p,
    occurrences-snoc j id ys,
    ap (occurrences j) (h (pending_key name)),
    ap (occurrences j) (h (processing_key name)),
    ap (occurrences j) (h (dead_letter_key name)),
    pending≢processing name,
    pending≢dead name,
    processing≢dead name,
    self name (pending_key name),
    self name (processing_key name),
  )

  pub dequeue-total :
      (d : Db) (deadline : ℕ) (j : String) → total (dequeue_script R name d deadline) j ≡ total d j
  unfolding dequeue_script
  dequeue-total d deadline j = elim (Option-cases (last_item (items d (pending_key name)))) [
    | inl e ↦ rw (e, dequeue_script) refl
    | inr (id, e) ↦
        let (ys, p) = last_item-snoc (items d (pending_key name)) id e in
        rw (e, dequeue_script)
          (moved-total d _ id j ys p (λ l.
            items-zadd _ _ _ _ l
            ∙ items-rpoplpush d (pending_key name) (processing_key name) l id ys
                (pending≢processing name) p))
  ]
