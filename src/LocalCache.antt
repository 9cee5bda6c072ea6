-- ===== src/LocalCache.antt =====
-- internal/localcache/lru.go: the worker's cache of artifacts on disk. A list element of Go is an
-- entry with the number of its allocation, `element`; the map `elements` holds these numbers.
-- A size and the used bytes are an int64, held as its bit pattern, a number below 2^64: sums and
-- differences are taken modulo 2^64, and a comparison reads the pattern as signed. `removed`
-- records the paths handed to `os.Remove`, newest first. Each method holds the mutex throughout.
pub mod Entries
pub mod Invariant
pub mod Evicting
pub mod Putting
pub mod Calls
use redline.Base.{
  ℕ, zero, suc, ◌+◌, ◌-◌, ◌*◌, ◌/◌, ◌%◌, ◌^◌, ◌≤◌, ◌<◌, min, max, String, ◌≡◌, refl, sym, ap, subst,
  ◌∙◌, ◌≢◌, ◌↔◌, ◌⊎◌, inl, inr, Bool, true, false, not, ◌&&◌, ◌||◌, Option, none, some, List, [],
  ◌∷◌, ◌++◌, map, arith, str_eq, eq_iff, ltb, leb, ◌==◌, if◌then◌else◌, Bool-cases, Option-cases,
  length, length-append, keep_if, length-keep_if-le, all_of, any_of, All, contains, ℤ, pos, negsuc,
  pos_part, neg_part, ◌+ℤ◌, ◌*ℤ◌, ◌≤ℤ◌, ltb_ℤ, leb_ℤ, wrap64, IsInt64, wrap64_exact, wrap64-IsInt64,
  +ℤ_parts, eq_of_parts, lookup, insert, delete, lookup-insert, lookup-delete, Call, served,
  refused, lost, is_empty, cut_prefix, has_prefix, cut_prefix-append, In, str_contains, has_suffix,
}

pub record Entry : Type 0 where
  pub element : ℕ
  pub key : String
  pub path : String
  pub size : ℕ
  pub ref_count : ℕ

pub record LruCache : Type 0 where
  pub max_bytes : ℤ
  pub used_bytes : ℕ
  pub order : List Entry
  pub elements : List (String × ℕ)
  pub next_element : ℕ
  pub removed : List String

pub data CacheError : Type 0 where
  insufficient_capacity not_found not_referenced : CacheError

-- `+` and `-` of int64 on bit patterns.
unfoldable pub add64 : ℕ → ℕ → ℕ
add64 a b = (a + b) % 2 ^ 64

unfoldable pub sub64 : ℕ → ℕ → ℕ
sub64 a b = (a + (2 ^ 64 - b)) % 2 ^ 64

unfoldable pub new_lru_cache : ℤ → LruCache
new_lru_cache max_bytes = record {
  max_bytes = max_bytes;
  used_bytes = 0;
  order = [];
  elements = [];
  next_element = 0;
  removed = [];
}

-- The value of a list element.
unfoldable pub at_element : ℕ → List Entry → Option Entry
at_element n [] = none
at_element n (e ∷ es) = if e.element == n then some e else at_element n es

-- `order.Remove(el)`.
unfoldable pub without : ℕ → List Entry → List Entry
without n [] = []
without n (e ∷ es) = if e.element == n then es else e ∷ without n es

-- A write through the pointer to an entry.
unfoldable pub set_refs : ℕ → ℕ → List Entry → List Entry
set_refs n refs [] = []
set_refs n refs (e ∷ es) =
    if e.element == n then record e { ref_count = refs } ∷ es else e ∷ set_refs n refs es

-- `c.elements[key]`, followed to the entry.
unfoldable pub find : LruCache → String → Option Entry
unfolding at_element
find c key = elim (lookup key c.elements) [ none ↦ none | some n ↦ at_element n c.order ]

unfoldable pub remove_element : LruCache → Entry → Bool → LruCache
unfolding without sub64
remove_element c e delete_file = record c {
  order = without e.element c.order;
  elements = delete e.key c.elements;
  used_bytes = sub64 c.used_bytes e.size;
  removed = if delete_file then e.path ∷ c.removed else c.removed;
}

-- The search from the back of the list.
unfoldable pub least_recently_used_unreferenced : List Entry → Option Entry
least_recently_used_unreferenced [] = none
least_recently_used_unreferenced (e ∷ es) = elim (least_recently_used_unreferenced es) [
  | some victim ↦ some victim
  | none ↦ if e.ref_count == 0 then some e else none
]

-- How the eviction loop ends. `no_fuel` does not occur with the fuel that `evict_until_fits` gives.
pub data Eviction : Type 0 where
  fits : LruCache → Eviction
  too_large : LruCache → Eviction
  no_fuel : Eviction

-- `c.usedBytes+incomingSize > c.maxBytes`.
unfoldable pub exceeds : LruCache → ℕ → Bool
unfolding add64
exceeds c incoming = ltb_ℤ c.max_bytes (wrap64 (pos (add64 c.used_bytes incoming)))

unfoldable pub evict_loop : ℕ → LruCache → ℕ → Eviction
unfolding remove_element least_recently_used_unreferenced exceeds
evict_loop zero c incoming = no_fuel
evict_loop (suc fuel) c incoming = elim (exceeds c incoming) [
  | false ↦ fits c
  | true ↦ elim (least_recently_used_unreferenced c.order) [
    | none ↦ too_large c
    | some victim ↦ evict_loop fuel (remove_element c victim true) incoming
  ]
]

unfoldable pub evict_until_fits : LruCache → ℕ → Eviction
unfolding evict_loop
evict_until_fits c incoming =
    if leb_ℤ c.max_bytes (pos 0) then fits c else evict_loop (suc (length c.order)) c incoming

-- `Put` first drops an entry that is there under the key, and keeps its file.
unfoldable pub drop_existing : LruCache → String → LruCache
unfolding find remove_element
drop_existing c key = elim (find c key) [ none ↦ c | some e ↦ remove_element c e false ]

abbrev pub new_entry : LruCache → String → String → ℕ → Entry
new_entry c key path size = record {
  element = c.next_element;
  key = key;
  path = path;
  size = size;
  ref_count = 0;
}

unfoldable pub push_front : LruCache → String → String → ℕ → LruCache
unfolding add64
push_front c key path size = record c {
  order = new_entry c key path size ∷ c.order;
  elements = insert key c.next_element c.elements;
  used_bytes = add64 c.used_bytes size;
  next_element = suc c.next_element;
}

unfoldable pub finish_put : Eviction → String → String → ℕ → LruCache → LruCache × Option CacheError
unfolding push_front
finish_put (fits c) key path size d = (push_front c key path size, none)
finish_put (too_large c) key path size d = (c, some insufficient_capacity)
finish_put no_fuel key path size d = (d, none)

-- The last argument of `finish_put` is reached only where the fuel runs out.
unfoldable pub put : LruCache → String → String → ℕ → LruCache × Option CacheError
unfolding drop_existing evict_until_fits finish_put
put c key path size =
    let d = drop_existing c key in finish_put (evict_until_fits d size) key path size d

unfoldable pub get : LruCache → String → LruCache × Option String
unfolding find without
get c key = elim (find c key) [
  | none ↦ (c, none)
  | some e ↦ (record c { order = e ∷ without e.element c.order }, some e.path)
]

unfoldable pub acquire : LruCache → String → LruCache × Option CacheError
unfolding find set_refs
acquire c key = elim (find c key) [
  | none ↦ (c, some not_found)
  | some e ↦ (record c { order = set_refs e.element (e.ref_count + 1) c.order }, none)
]

unfoldable pub release : LruCache → String → LruCache × Option CacheError
unfolding find set_refs
release c key = elim (find c key) [
  | none ↦ (c, some not_found)
  | some e ↦
      if e.ref_count == 0
      then (c, some not_referenced)
      else (record c { order = set_refs e.element (e.ref_count - 1) c.order }, none)
]

unfoldable pub ref_count_of : LruCache → String → Option ℕ
unfolding find
ref_count_of c key = elim (find c key) [ none ↦ none | some e ↦ some e.ref_count ]

unfoldable pub remove : LruCache → String → LruCache × Option CacheError
unfolding find remove_element
remove c key = elim (find c key) [
  | none ↦ (c, some not_found)
  | some e ↦ (remove_element c e true, none)
]
