-- ===== src/Ingest/Header.antt =====
-- internal/ingest/safetensors.go and header.go: reading and checking the header of a safetensors
-- file. What the host sends for a byte range of the file, and what the JSON decoder makes of
-- bytes and of entries, are arguments. A map is a list of its entries, in the order of the loop.
pub mod Checked
use redline.Base.{
  ℕ, zero, suc, ◌+◌, ◌-◌, ◌*◌, ◌/◌, ◌%◌, ◌^◌, ◌≤◌, ◌<◌, min, max, String, ◌≡◌, refl, sym, ap, subst,
  ◌∙◌, ◌≢◌, ◌↔◌, ◌⊎◌, inl, inr, Bool, true, false, not, ◌&&◌, ◌||◌, Option, none, some, List, [],
  ◌∷◌, ◌++◌, map, arith, str_eq, eq_iff, ltb, leb, ◌==◌, if◌then◌else◌, Bool-cases, Option-cases,
  length, length-append, keep_if, length-keep_if-le, all_of, any_of, All, contains, ℤ, pos, negsuc,
  pos_part, neg_part, ◌+ℤ◌, ◌*ℤ◌, ◌≤ℤ◌, ltb_ℤ, leb_ℤ, wrap64, IsInt64, wrap64_exact, wrap64-IsInt64,
  +ℤ_parts, eq_of_parts, lookup, insert, delete, lookup-insert, lookup-delete, Call, served,
  refused, lost, is_empty, cut_prefix, has_prefix, cut_prefix-append, In, str_contains, has_suffix,
  sub_ℕ,
}
use Prim.Native.String.{compare}
use Prim.Native.Nat.{lt, eq, gt}

pub record TensorEntry : Type 0 where
  pub dtype : String
  pub shape : List ℤ
  pub offsets_start : ℤ
  pub offsets_end : ℤ

pub record TensorInfo : Type 0 where
  pub name : String
  pub entry : TensorEntry

pub record Header : Type 0 where
  pub tensors : List TensorInfo
  pub metadata : List (String × String)

-- An entry of the header's object: what it decodes to as a tensor, and as metadata.
pub record RawEntry : Type 0 where
  pub as_tensor : Option TensorEntry
  pub as_metadata : Option (List (String × String))

pub data HeaderError : Type 0 where
  fetch_failed short_prefix wrong_length bad_json bad_metadata bad_tensor : HeaderError
  header_too_large too_many_tensors invalid_tensor_metadata : HeaderError

pub data Parsed (A : Type 0) : Type 0 where
  ok : A → Parsed A
  err : HeaderError → Parsed A

abbrev pub default_max_header_bytes : ℤ
default_max_header_bytes = pos 67108864

abbrev pub default_max_tensor_count : ℤ
default_max_tensor_count = pos 200000

pub record HeaderLimits : Type 0 where
  pub max_header_bytes : ℤ
  pub max_tensor_count : ℤ

unfoldable pub normalize_limits : HeaderLimits → HeaderLimits
normalize_limits l = record {
  max_header_bytes =
      if leb_ℤ l.max_header_bytes (pos 0) then default_max_header_bytes else l.max_header_bytes;
  max_tensor_count =
      if leb_ℤ l.max_tensor_count (pos 0) then default_max_tensor_count else l.max_tensor_count;
}

abbrev pub safetensors_header_prefix_bytes : ℕ
safetensors_header_prefix_bytes = 8

-- `binary.LittleEndian.Uint64`.
unfoldable pub little_endian : List ℕ → ℕ
little_endian [] = 0
little_endian (b ∷ bytes) = b + 256 * little_endian bytes

unfoldable pub check_length : ℤ → List ℕ → Parsed ℕ
unfolding little_endian
check_length max_header_bytes raw =
    if not (length raw == safetensors_header_prefix_bytes)
    then err short_prefix
    else if ltb (pos_part max_header_bytes) (little_endian raw)
    then err header_too_large
    else ok (little_endian raw)

unfoldable pub read_header_length : (ℤ → ℤ → Option (List ℕ)) → ℤ → Parsed ℕ
unfolding check_length
read_header_length fetch_range max_header_bytes =
    let bound =
      if leb_ℤ max_header_bytes (pos 0) then default_max_header_bytes else max_header_bytes in
    elim (fetch_range (pos 0) (pos 7)) [
      | none ↦ err fetch_failed
      | some raw ↦ check_length bound raw
    ]

abbrev pub max_shape_rank : ℕ
max_shape_rank = 16

unfoldable pub valid_dtypes : List String
valid_dtypes =
    "BOOL" ∷ "U8" ∷ "I8" ∷ "U16" ∷ "I16" ∷ "U32" ∷ "I32" ∷ "U64" ∷ "I64" ∷ "F16" ∷ "BF16" ∷ "F32"
    ∷ "F64" ∷ "F8_E4M3" ∷ "F8_E5M2" ∷ []

-- Whether `validateTensorEntry` returns nil.
unfoldable pub validate_tensor_entry : TensorEntry → Bool
unfolding valid_dtypes
validate_tensor_entry t =
    if not (contains t.dtype valid_dtypes)
    then false
    else if ltb max_shape_rank (length t.shape)
    then false
    else if any_of (λ dim. ltb_ℤ dim (pos 0)) t.shape
    then false
    else not (ltb_ℤ t.offsets_start (pos 0) || ltb_ℤ t.offsets_end t.offsets_start)

abbrev pub metadata_key : String
metadata_key = "__metadata__"

-- One round of the loop of `decodeHeader`.
unfoldable pub add_entry : Header → String → RawEntry → Parsed Header
unfolding validate_tensor_entry
add_entry h name raw =
    if str_eq name metadata_key
    then elim raw.as_metadata [
      | none ↦ err bad_metadata
      | some meta ↦ ok (record h { metadata = meta })
    ]
    else elim raw.as_tensor [
      | none ↦ err bad_tensor
      | some t ↦
          if validate_tensor_entry t
          then ok (record h { tensors = h.tensors ++ (record { name = name; entry = t } ∷ []) })
          else err invalid_tensor_metadata
    ]

unfoldable pub add_entries : Header → List (String × RawEntry) → Parsed Header
unfolding add_entry
add_entries h [] = ok h
add_entries h ((name, raw) ∷ entries) = elim (add_entry h name raw) [
  | err e ↦ err e
  | ok h' ↦ add_entries h' entries
]

-- The sort by name, an insertion sort.
unfoldable pub insert_tensor : TensorInfo → List TensorInfo → List TensorInfo
insert_tensor t [] = t ∷ []
insert_tensor t (u ∷ us) =
    let rest = insert_tensor t us in
    elim (compare t.name u.name) [ lt ↦ t ∷ u ∷ us | eq ↦ u ∷ rest | gt ↦ u ∷ rest ]

unfoldable pub sort_tensors : List TensorInfo → List TensorInfo
unfolding insert_tensor
sort_tensors [] = []
sort_tensors (t ∷ ts) = insert_tensor t (sort_tensors ts)

unfoldable pub sorted : Parsed Header → Parsed Header
unfolding sort_tensors
sorted (err e) = err e
sorted (ok h) = ok (record h { tensors = sort_tensors h.tensors })

unfoldable pub tensor_count : List (String × RawEntry) → ℕ
tensor_count entries =
    if any_of (λ e. str_eq e.0 metadata_key) entries then length entries - 1 else length entries

unfoldable pub decode_entries : HeaderLimits → List (String × RawEntry) → Parsed Header
unfolding sorted add_entries tensor_count
decode_entries limits entries =
    if ltb_ℤ limits.max_tensor_count (pos (tensor_count entries))
    then err too_many_tensors
    else sorted (add_entries (record { tensors = []; metadata = [] }) entries)

unfoldable pub decode_header :
    (List ℕ → Option (List (String × RawEntry))) → HeaderLimits → List ℕ → Parsed Header
unfolding decode_entries
decode_header unmarshal limits raw = elim (unmarshal raw) [
  | none ↦ err bad_json
  | some entries ↦ decode_entries limits entries
]

-- The last byte of the header, in int64 arithmetic.
unfoldable pub header_end : ℕ → ℤ
header_end header_length = wrap64 (wrap64 (pos 8 +ℤ wrap64 (pos header_length)) +ℤ negsuc 0)

unfoldable pub fetch_content :
    (ℤ → ℤ → Option (List ℕ))
    → (List ℕ → Option (List (String × RawEntry)))
    → HeaderLimits
    → ℕ
    → Parsed Header
unfolding decode_header header_end
fetch_content fetch_range unmarshal limits header_length =
    elim (fetch_range (pos 8) (header_end header_length)) [
      | none ↦ err fetch_failed
      | some raw ↦
          if length raw == header_length
          then decode_header unmarshal limits raw
          else err wrong_length
    ]

unfoldable pub fetch_header :
    (ℤ → ℤ → Option (List ℕ))
    → (List ℕ → Option (List (String × RawEntry)))
    → HeaderLimits
    → Parsed Header
unfolding fetch_content read_header_length normalize_limits
fetch_header fetch_range unmarshal limits =
    let l = normalize_limits limits in
    elim (read_header_length fetch_range l.max_header_bytes) [
      | err e ↦ err e
      | ok header_length ↦ fetch_content fetch_range unmarshal l header_length
    ]
