-- ===== src/Redis.antt =====
-- The Redis commands that the program's scripts and clients use, as an interface. Redis itself is
-- not part of the repository: the laws are the documented effect of each command, on data that
-- is held at keys of the command's own type, as the prefixes of the program's keys ensure. A script
-- runs its commands in order and without interruption.
use redline.Base.{
  ℕ, suc, String, ◌≡◌, Bool, false, not, ◌&&◌, Option, none, some, List, [], ◌∷◌, ◌++◌, str_eq,
  if◌then◌else◌, length, keep_if, ℤ, pos, ltb_ℤ,
}

-- Hashes: HGET, HSET of one field, HDEL of one field, DEL.
pub record Hashes : Type 1 where
  pub Db : Type 0
  pub hget : Db → String → String → Option String
  pub hset : Db → String → String → String → Db
  pub hdel : Db → String → String → Db
  pub del : Db → String → Db
  pub hget-hset :
      (d : Db) (k f v j g : String)
      → hget (hset d k f v) j g ≡ (if str_eq k j && str_eq f g then some v else hget d j g)
  pub hget-hdel :
      (d : Db) (k f j g : String)
      → hget (hdel d k f) j g ≡ (if str_eq k j && str_eq f g then none else hget d j g)
  pub hget-del :
      (d : Db) (k j g : String) → hget (del d k) j g ≡ (if str_eq k j then none else hget d j g)

-- Plain values: GET, SET with no expiry, DEL. A stored number is its decimal text, which `GET`
-- followed by the parse in the client gives back as the number.
pub record Numbers : Type 1 where
  pub Db : Type 0
  pub get : Db → String → Option ℤ
  pub set : Db → String → ℤ → Db
  pub del : Db → String → Db
  pub get-set :
      (d : Db) (k : String) (v : ℤ) (j : String)
      → get (set d k v) j ≡ (if str_eq k j then some v else get d j)
  pub get-del : (d : Db) (k j : String) → get (del d k) j ≡ (if str_eq k j then none else get d j)

abbrev pub counted_up : Option ℕ → ℕ
counted_up none = 1
counted_up (some n) = suc n

-- What a job queue uses: lists (LRANGE of the whole list, LPUSH, RPOPLPUSH, LREM with count 0),
-- sorted sets (ZSCORE, ZADD, ZREM, ZRANGEBYSCORE from -inf), and hashes with the two fields of a
-- job. A score is a number of milliseconds.
pub record JobStore : Type 1 where
  pub Db : Type 0
  pub items : Db → String → List String
  pub lpush : Db → String → String → Db
  pub rpoplpush : Db → String → String → Db
  pub lrem : Db → String → String → Db
  pub zadd : Db → String → ℕ → String → Db
  pub zrem : Db → String → String → Db
  pub zscore : Db → String → String → Option ℕ
  pub due_by : Db → String → ℕ → List String
  pub payload_of : Db → String → Option String
  pub attempts_of : Db → String → Option ℕ
  pub hset_job : Db → String → String → ℕ → Db
  pub incr_attempts : Db → String → Db
  pub del_job : Db → String → Db
  pub items-lpush :
      (d : Db) (k v j : String)
      → items (lpush d k v) j ≡ (if str_eq k j then v ∷ items d j else items d j)
  -- the last item of the one list becomes the first of the other
  pub items-rpoplpush :
      (d : Db) (k l j v : String) (xs : List String)
      → str_eq k l ≡ false
      → items d k ≡ xs ++ (v ∷ [])
      → items (rpoplpush d k l) j
        ≡ (if str_eq k j then xs else if str_eq l j then v ∷ items d j else items d j)
  pub items-lrem :
      (d : Db) (k v j : String)
      → items (lrem d k v) j
        ≡ (if str_eq k j then keep_if (λ x. not (str_eq v x)) (items d j) else items d j)
  pub items-zadd : (d : Db) (k : String) (s : ℕ) (v j : String) → items (zadd d k s v) j ≡ items d j
  pub items-zrem : (d : Db) (k v j : String) → items (zrem d k v) j ≡ items d j
  pub items-hset :
      (d : Db) (k p : String) (n : ℕ) (j : String) → items (hset_job d k p n) j ≡ items d j
  pub items-incr : (d : Db) (k j : String) → items (incr_attempts d k) j ≡ items d j
  pub items-del : (d : Db) (k j : String) → items (del_job d k) j ≡ items d j
  -- HINCRBY of a field that is not there counts from 0; the calls on lists and sorted sets leave the
  -- hashes
  pub attempts-incr :
      (d : Db) (k j : String)
      → attempts_of (incr_attempts d k) j
        ≡ (if str_eq k j then some (counted_up (attempts_of d k)) else attempts_of d j)
  pub attempts-del :
      (d : Db) (k j : String)
      → attempts_of (del_job d k) j ≡ (if str_eq k j then none else attempts_of d j)
  pub attempts-lpush : (d : Db) (k v j : String) → attempts_of (lpush d k v) j ≡ attempts_of d j
  pub attempts-rpoplpush :
      (d : Db) (k l j : String) → attempts_of (rpoplpush d k l) j ≡ attempts_of d j
  pub attempts-lrem : (d : Db) (k v j : String) → attempts_of (lrem d k v) j ≡ attempts_of d j
  pub attempts-zadd :
      (d : Db) (k : String) (s : ℕ) (v j : String) → attempts_of (zadd d k s v) j ≡ attempts_of d j
  pub attempts-zrem : (d : Db) (k v j : String) → attempts_of (zrem d k v) j ≡ attempts_of d j

-- A sorted set by its scores, which ascend (ZRANGE with scores; ZCARD is their number):
-- ZREMRANGEBYSCORE from -inf, and ZADD of a member that is not there yet.
pub record Scores : Type 1 where
  pub Db : Type 0
  pub scores : Db → String → List ℕ
  pub zremrange : Db → String → ℤ → Db
  pub zadd_new : Db → String → ℕ → Db
  pub scores-zremrange :
      (d : Db) (k : String) (max : ℤ)
      → scores (zremrange d k max) k ≡ keep_if (λ s. ltb_ℤ max (pos s)) (scores d k)
  pub count-zadd :
      (d : Db) (k : String) (s : ℕ) (p : ℕ → Bool)
      → length (keep_if p (scores (zadd_new d k s) k))
        ≡ (if p s then suc (length (keep_if p (scores d k))) else length (keep_if p (scores d k)))
