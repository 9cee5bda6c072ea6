-- ===== src/ObjectCache.antt =====
-- internal/cache/upload.go: the client's side of an upload in parts. The object store is not
-- modelled: its answers are arguments, and an upload is the requests that it sends and its result.
pub mod Parts
pub mod Sorted
pub mod Uploaded
pub mod Pipeline
pub mod Verified
use redline.Base.{
  ℕ, zero, suc, ◌+◌, ◌-◌, ◌*◌, ◌/◌, ◌%◌, ◌^◌, ◌≤◌, ◌<◌, min, max, String, ◌≡◌, refl, sym, ap, subst,
  ◌∙◌, ◌≢◌, ◌↔◌, ◌⊎◌, inl, inr, Bool, true, false, not, ◌&&◌, ◌||◌, Option, none, some, List, [],
  ◌∷◌, ◌++◌, map, arith, str_eq, eq_iff, ltb, leb, ◌==◌, if◌then◌else◌, Bool-cases, Option-cases,
  length, length-append, keep_if, length-keep_if-le, all_of, any_of, All, contains, ℤ, pos, negsuc,
  pos_part, neg_part, ◌+ℤ◌, ◌*ℤ◌, ◌≤ℤ◌, ltb_ℤ, leb_ℤ, wrap64, IsInt64, wrap64_exact, wrap64-IsInt64,
  +ℤ_parts, eq_of_parts, lookup, insert, delete, lookup-insert, lookup-delete, Call, served,
  refused, lost, is_empty, cut_prefix, has_prefix, cut_prefix-append, In, str_contains, has_suffix,
  sub_ℕ,
}

-- A stream: the bytes that it gives, and whether reading it ends in an error. The ends that count as
-- none are io.EOF and io.ErrUnexpectedEOF, which a response that is cut short ends in.
pub record Source : Type 0 where
  pub bytes : List ℕ
  pub is_broken : Bool

-- The part size of `NewChunkedUploader`.
unfoldable pub part_size_of : ℤ → ℕ
part_size_of n = if leb_ℤ n (pos 0) then 67108864 else pos_part n

abbrev pub take_bytes : ℕ → List ℕ → List ℕ
take_bytes zero xs = []
take_bytes (suc n) [] = []
take_bytes (suc n) (x ∷ xs) = x ∷ take_bytes n xs

abbrev pub drop_bytes : ℕ → List ℕ → List ℕ
drop_bytes zero xs = xs
drop_bytes (suc n) [] = []
drop_bytes (suc n) (x ∷ xs) = drop_bytes n xs

-- The reads of `Resume`, at most `fuel` of them: full parts, and what is left for the last.
abbrev pub chunks : ℕ → ℕ → List ℕ → List (List ℕ)
chunks fuel n [] = []
chunks zero n (x ∷ xs) = []
chunks (suc fuel) n (x ∷ xs) = take_bytes n (x ∷ xs) ∷ chunks fuel n (drop_bytes n (x ∷ xs))

abbrev pub numbered : ℕ → List (List ℕ) → List (ℕ × List ℕ)
numbered k [] = []
numbered k (c ∷ cs) = (k, c) ∷ numbered (suc k) cs

pub record CompletePart : Type 0 where
  pub part_number : ℕ
  pub etag : String

-- `alreadyCompleted[pn]`.
unfoldable pub completed_etag : ℕ → List CompletePart → Option String
completed_etag k [] = none
completed_etag k (p ∷ ps) =
    let rest = completed_etag k ps in if p.part_number == k then some p.etag else rest

-- How the store answers: `on_start` with the upload's id, `on_put` with the tag of a part, and
-- `on_complete` with that of the object; `none` is an error. `arrives` is the order in which the
-- parts, whose uploads run at once, are appended.
pub record StoreReplies : Type 0 where
  pub on_start : Option String
  pub on_put : ℕ → Option String
  pub arrives : List CompletePart → List CompletePart
  pub on_complete : Option String

-- The requests of an upload; those of its parts are listed by their numbers.
pub data UploadRequest : Type 0 where
  puts_part : ℕ → List ℕ → UploadRequest
  completes : List CompletePart → UploadRequest
  aborts : UploadRequest

pub record UploadResult : Type 0 where
  pub object_etag : String
  pub size : ℤ

unfoldable pub put_requests : List CompletePart → List (ℕ × List ℕ) → List UploadRequest
unfolding completed_etag
put_requests already [] = []
put_requests already ((k, c) ∷ ps) =
    let rest = put_requests already ps in
    elim (completed_etag k already) [ some _ ↦ rest | none ↦ puts_part k c ∷ rest ]

-- The tag of a part that was completed before, or the one that its upload is answered with.
unfoldable pub tag_of : (ℕ → Option String) → List CompletePart → ℕ → Option String
unfolding completed_etag
tag_of on_put already k = elim (completed_etag k already) [ some e ↦ some e | none ↦ on_put k ]

-- The parts once all uploads have ended; `none` is that one failed.
unfoldable pub collected :
    (ℕ → Option String) → List CompletePart → List (ℕ × List ℕ) → Option (List CompletePart)
unfolding tag_of
collected on_put already [] = some []
collected on_put already ((k, c) ∷ ps) =
    let rest = collected on_put already ps in
    elim (tag_of on_put already k) [
      | none ↦ none
      | some e ↦ elim rest [
        | none ↦ none
        | some parts ↦ some (record { part_number = k; etag = e } ∷ parts)
      ]
    ]

-- `totalSize`, an int64.
unfoldable pub count_bytes : ℤ → List (ℕ × List ℕ) → ℤ
count_bytes total [] = total
count_bytes total ((k, c) ∷ ps) = count_bytes (wrap64 (total +ℤ pos (length c))) ps

-- `sort.Slice` by the numbers.
unfoldable pub insert_part : CompletePart → List CompletePart → List CompletePart
insert_part p [] = p ∷ []
insert_part p (q ∷ qs) =
    let rest = insert_part p qs in if leb p.part_number q.part_number then p ∷ q ∷ qs else q ∷ rest

unfoldable pub sort_parts : List CompletePart → List CompletePart
unfolding insert_part
sort_parts [] = []
sort_parts (p ∷ ps) = insert_part p (sort_parts ps)

-- What follows the uploads of the parts.
unfoldable pub finish_upload :
    StoreReplies → ℤ → List CompletePart → List UploadRequest × Option UploadResult
unfolding sort_parts
finish_upload r size parts = elim r.on_complete [
  | none ↦ (completes (sort_parts (r.arrives parts)) ∷ aborts ∷ [], none)
  | some tag ↦ (
    completes (sort_parts (r.arrives parts)) ∷ [],
    some (record { object_etag = tag; size = size }),
  )
]

-- The abort that is deferred, where the reads or an upload of a part failed.
unfoldable pub end_upload :
    StoreReplies → ℤ → Option (List CompletePart) → List UploadRequest × Option UploadResult
unfolding finish_upload
end_upload r size none = (aborts ∷ [], none)
end_upload r size (some parts) = finish_upload r size parts

unfoldable pub resume :
    StoreReplies → ℕ → Source → List CompletePart → List UploadRequest × Option UploadResult
unfolding put_requests collected count_bytes end_upload
resume r part_size src already =
    let ps = numbered 1 (chunks (length src.bytes) part_size src.bytes) in
    let parts = if src.is_broken then none else collected r.on_put already ps in
    let (last, result) = end_upload r (count_bytes (pos 0) ps) parts in
    (put_requests already ps ++ last, result)

unfoldable pub upload : StoreReplies → ℕ → Source → List UploadRequest × Option UploadResult
unfolding resume
upload r part_size src = elim r.on_start [ none ↦ ([], none) | some id ↦ resume r part_size src [] ]
