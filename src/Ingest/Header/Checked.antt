-- ===== src/Ingest/Header/Checked.antt =====
-- internal/ingest/header.go: what a header that was accepted satisfies.
use redline.Base.{
  ℕ, suc, ◌+◌, ◌-◌, ◌^◌, ◌≤◌, ◌<◌, String, ◌≡◌, refl, ap, subst, ◌∙◌, Bool, true, false, ◌&&◌,
  Option, none, some, List, [], ◌∷◌, ◌++◌, arith, str_eq, ◌==◌, if◌then◌else◌, Bool-cases,
  Option-cases, length, length-append, all_of, any_of, ℤ, pos, negsuc, pos_part, ◌+ℤ◌, ltb_ℤ,
  wrap64, wrap64_exact,
}
use redline.Ingest.Header.{
  TensorEntry, TensorInfo, Header, RawEntry, Parsed, ok, err, HeaderLimits, normalize_limits,
  read_header_length, check_length, validate_tensor_entry, metadata_key, add_entry, add_entries,
  insert_tensor, sort_tensors, sorted, tensor_count, decode_entries, decode_header, header_end,
  fetch_content, fetch_header, too_many_tensors, bad_metadata, bad_tensor, invalid_tensor_metadata,
  bad_json, wrong_length, fetch_failed,
}

abbrev pub all_valid : List TensorInfo → Bool
all_valid ts = all_of (λ t. validate_tensor_entry t.entry) ts

-- A result that is an error, or a header of valid tensors, at most n of them.
abbrev pub Checked : ℕ → Parsed Header → Type 0
Checked n (err e) = Unit
Checked n (ok h) = (all_valid h.tensors ≡ true) × (length h.tensors ≤ n)

abbrev pub entry_count : List (String × RawEntry) → ℕ
entry_count [] = 0
entry_count ((name, raw) ∷ entries) =
    let rest = entry_count entries in if str_eq name metadata_key then rest else suc rest

all_of-snoc :
    (ts : List TensorInfo) (t : TensorInfo)
    → all_valid (ts ++ (t ∷ [])) ≡ (all_valid ts && validate_tensor_entry t.entry)
all_of-snoc [] t = ground (arith, Bool-cases (validate_tensor_entry t.entry))
all_of-snoc (u ∷ us) t = ground (arith, all_of-snoc us t)

insert_tensor-lem :
    (t : TensorInfo) (ts : List TensorInfo)
    → (all_valid (insert_tensor t ts) ≡ (validate_tensor_entry t.entry && all_valid ts))
      × (length (insert_tensor t ts) ≡ suc (length ts))
unfolding insert_tensor
insert_tensor-lem t [] = (refl, refl)
insert_tensor-lem t (u ∷ us) =
    let (valid, size) = insert_tensor-lem t us in (ground (arith, valid), ground (arith, size))

sort_tensors-lem :
    (ts : List TensorInfo)
    → (all_valid (sort_tensors ts) ≡ all_valid ts) × (length (sort_tensors ts) ≡ length ts)
unfolding sort_tensors
sort_tensors-lem [] = (refl, refl)
sort_tensors-lem (t ∷ ts) =
    let (valid, size) = sort_tensors-lem ts in
    let (valid', size') = insert_tensor-lem t (sort_tensors ts) in
    (ground (arith, valid, valid'), ground (arith, size, size'))

sorted-Checked : (n : ℕ) (r : Parsed Header) → Checked n r → Checked n (sorted r)
unfolding sorted
sorted-Checked n (err e) c = tt
sorted-Checked n (ok h) (valid, size) =
    let (valid', size') = sort_tensors-lem h.tensors in (valid' ∙ valid, omega (arith, size, size'))

either-Checked :
    (m : Bool) (n k : ℕ) (x y : Parsed Header)
    → Checked n x
    → Checked k y
    → Checked (if m then n else k) (if m then x else y)
either-Checked true n k x y p q = p
either-Checked false n k x y p q = q

metadata-Checked :
    (h : Header) (n : ℕ) (o : Option (List (String × String)))
    → Checked n (ok h)
    → Checked n (elim o as (λ x. Parsed Header) [
      | none ↦ err bad_metadata
      | some meta ↦ ok (record h { metadata = meta })
    ])
metadata-Checked h n none c = tt
metadata-Checked h n (some meta) c = c

valid-Checked :
    (h : Header) (t : TensorInfo) (n : ℕ) (b : Bool)
    → validate_tensor_entry t.entry ≡ b
    → Checked n (ok h)
    → Checked (suc n) (
        if b
        then ok (record h { tensors = h.tensors ++ (t ∷ []) })
        else err invalid_tensor_metadata)
valid-Checked h t n false v c = tt
valid-Checked h t n true v (valid, size) = (
  ground (arith, all_of-snoc h.tensors t, valid, v),
  omega (arith, size, length-append h.tensors (t ∷ [])),
)

tensor-Checked :
    (h : Header) (name : String) (n : ℕ) (o : Option TensorEntry)
    → Checked n (ok h)
    → Checked (suc n) (elim o as (λ x. Parsed Header) [
      | none ↦ err bad_tensor
      | some t ↦
          if validate_tensor_entry t
          then ok (record h { tensors = h.tensors ++ (record { name = name; entry = t } ∷ []) })
          else err invalid_tensor_metadata
    ])
tensor-Checked h name n none c = tt
tensor-Checked h name n (some t) c =
    valid-Checked h (record { name = name; entry = t }) n (validate_tensor_entry t) refl c

add_entry-Checked :
    (h : Header) (name : String) (raw : RawEntry) (n : ℕ)
    → Checked n (ok h)
    → Checked (if str_eq name metadata_key then n else suc n) (add_entry h name raw)
unfolding add_entry
add_entry-Checked h name raw n c =
    either-Checked (str_eq name metadata_key) n (suc n) _ _ (metadata-Checked h n raw.as_metadata c)
      (tensor-Checked h name n raw.as_tensor c)

then-Checked :
    (r : Parsed Header) (f : Header → Parsed Header) (n m : ℕ)
    → Checked n r
    → ((h : Header) → Checked n (ok h) → Checked m (f h))
    → Checked m (elim r as (λ x. Parsed Header) [ err e ↦ err e | ok h ↦ f h ])
then-Checked (err e) f n m c g = tt
then-Checked (ok h) f n m c g = g h c

add_entries-Checked :
    (entries : List (String × RawEntry)) (h : Header) (n : ℕ)
    → Checked n (ok h)
    → Checked (n + entry_count entries) (add_entries h entries)
unfolding add_entries
add_entries-Checked [] h n (valid, size) = (valid, omega (arith, size))
add_entries-Checked ((name, raw) ∷ entries) h n c =
    then-Checked (add_entry h name raw) (λ h'. add_entries h' entries) _ _
      (add_entry-Checked h name raw n c)
      (λ h' q.
        subst (λ k. Checked k (add_entries h' entries)) (ground arith)
          (add_entries-Checked entries h' (if str_eq name metadata_key then n else suc n) q))

entry_count-le_length :
    (entries : List (String × RawEntry))
    → (entry_count entries ≤ length entries)
      × (any_of (λ e. str_eq e.0 metadata_key) entries ≡ true
          → suc (entry_count entries) ≤ length entries)
entry_count-le_length [] = (omega arith, λ h. ground (arith, h))
entry_count-le_length ((name, raw) ∷ entries) =
    let (all, fewer) = entry_count-le_length entries in
    (ground (arith, all), λ h. ground (arith, all, fewer, h))

entry_count-le : (entries : List (String × RawEntry)) → entry_count entries ≤ tensor_count entries
unfolding tensor_count
entry_count-le entries =
    let (all, fewer) = entry_count-le_length entries in ground (arith, all, fewer)

weaken-Checked : (n m : ℕ) (r : Parsed Header) → n ≤ m → Checked n r → Checked m r
weaken-Checked n m (err e) le c = tt
weaken-Checked n m (ok h) le (valid, size) = (valid, omega (arith, le, size))

decode_entries-Checked :
    (limits : HeaderLimits) (entries : List (String × RawEntry))
    → Checked (pos_part limits.max_tensor_count) (decode_entries limits entries)
unfolding decode_entries
decode_entries-Checked limits entries =
    counted (ltb_ℤ limits.max_tensor_count (pos (tensor_count entries))) refl
      (sorted-Checked _ _ (add_entries-Checked entries _ 0 (refl, omega arith)))
  where
    counted :
        (b : Bool)
        → ltb_ℤ limits.max_tensor_count (pos (tensor_count entries)) ≡ b
        → Checked
            (0 + entry_count entries)
            (sorted (add_entries (record { tensors = []; metadata = [] }) entries))
        → Checked (pos_part limits.max_tensor_count) (
            if b
            then err too_many_tensors
            else sorted (add_entries (record { tensors = []; metadata = [] }) entries))
    counted true h c = tt
    counted false h c = weaken-Checked _ _ _ (ground (arith, h, entry_count-le entries)) c

decode_header-Checked :
    (unmarshal : List ℕ → Option (List (String × RawEntry))) (limits : HeaderLimits) (raw : List ℕ)
    → Checked (pos_part limits.max_tensor_count) (decode_header unmarshal limits raw)
unfolding decode_header
decode_header-Checked unmarshal limits raw = decoded (unmarshal raw)
  where
    decoded :
        (o : Option (List (String × RawEntry)))
        → Checked (pos_part limits.max_tensor_count) (elim o as (λ x. Parsed Header) [
          | none ↦ err bad_json
          | some entries ↦ decode_entries limits entries
        ])
    decoded none = tt
    decoded (some entries) = decode_entries-Checked limits entries

fetch_content-Checked :
    (fetch_range : ℤ → ℤ → Option (List ℕ)) (unmarshal : List ℕ → Option (List (String × RawEntry)))
    (limits : HeaderLimits) (n : ℕ)
    → Checked (pos_part limits.max_tensor_count) (fetch_content fetch_range unmarshal limits n)
unfolding fetch_content
fetch_content-Checked fetch_range unmarshal limits n = fetched (fetch_range (pos 8) (header_end n))
  where
    exact :
        (raw : List ℕ) (b : Bool)
        → Checked
            (pos_part limits.max_tensor_count)
            (if b then decode_header unmarshal limits raw else err wrong_length)
    exact raw true = decode_header-Checked unmarshal limits raw
    exact raw false = tt

    fetched :
        (o : Option (List ℕ))
        → Checked (pos_part limits.max_tensor_count) (elim o as (λ x. Parsed Header) [
          | none ↦ err fetch_failed
          | some raw ↦
              if length raw == n then decode_header unmarshal limits raw else err wrong_length
        ])
    fetched none = tt
    fetched (some raw) = exact raw (length raw == n)

-- Whatever the host sends and however it decodes: `FetchHeader` returns an error, or a header
-- whose tensors all pass the entry check and are no more than the normalized limit.
pub fetch_header-Checked :
    (fetch_range : ℤ → ℤ → Option (List ℕ)) (unmarshal : List ℕ → Option (List (String × RawEntry)))
    (limits : HeaderLimits)
    → Checked
        (pos_part (normalize_limits limits).max_tensor_count)
        (fetch_header fetch_range unmarshal limits)
unfolding fetch_header
fetch_header-Checked fetch_range unmarshal limits =
    long (read_header_length fetch_range (normalize_limits limits).max_header_bytes)
  where
    long :
        (r : Parsed ℕ)
        → Checked
            (pos_part (normalize_limits limits).max_tensor_count)
            (elim r as (λ x. Parsed Header) [
              | err e ↦ err e
              | ok n ↦ fetch_content fetch_range unmarshal (normalize_limits limits) n
            ])
    long (err e) = tt
    long (ok n) = fetch_content-Checked fetch_range unmarshal (normalize_limits limits) n

header_end-exact : (n : ℕ) → n < 2 ^ 63 - 8 → header_end n ≡ pos (7 + n)
unfolding header_end ◌+ℤ◌
header_end-exact n h =
    ap (λ z. wrap64 (wrap64 (pos 8 +ℤ z) +ℤ negsuc 0))
      (wrap64_exact (pos n) (omega (arith, h), omega arith))
    ∙ ap (λ z. wrap64 (z +ℤ negsuc 0))
        (wrap64_exact (pos 8 +ℤ pos n) (ground (arith, h), ground arith))
    ∙ wrap64_exact ((pos 8 +ℤ pos n) +ℤ negsuc 0) (ground (arith, h), ground arith)
    ∙ ground arith

-- A header length that `ReadHeaderLength` returns is within the bound, of a bound that an int64
-- holds with eight to spare; the range that is then asked for has exactly that length, from byte 8
-- on, with no wrap-around.
pub header_length_bounded :
    (fetch_range : ℤ → ℤ → Option (List ℕ)) (bound n : ℕ)
    → suc bound < 2 ^ 63 - 8
    → read_header_length fetch_range (pos (suc bound)) ≡ ok n
    → (n ≤ suc bound) × (header_end n ≡ pos (7 + n))
unfolding read_header_length check_length
header_length_bounded fetch_range bound n small h =
    let le : n ≤ suc bound = ground (arith, h, Option-cases (fetch_range (pos 0) (pos 7))) in
    (le, header_end-exact n (omega (arith, le, small)))
