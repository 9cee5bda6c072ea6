-- ===== src/Ingest/Reference.antt =====
-- internal/ingest/reference.go, manifest.go and format.go: what names a repository, what it holds, and
-- the formats that are refused. The URL parser, the extension of a path in lower case and the
-- answers of the host are arguments.
pub mod Parsed
use redline.Base.{
  ℕ, zero, suc, ◌+◌, ◌-◌, ◌*◌, ◌/◌, ◌%◌, ◌^◌, ◌≤◌, ◌<◌, min, max, String, ◌≡◌, refl, sym, ap, subst,
  ◌∙◌, ◌≢◌, ◌↔◌, ◌⊎◌, inl, inr, Bool, true, false, not, ◌&&◌, ◌||◌, Option, none, some, List, [],
  ◌∷◌, ◌++◌, map, arith, str_eq, eq_iff, ltb, leb, ◌==◌, if◌then◌else◌, Bool-cases, Option-cases,
  length, length-append, keep_if, length-keep_if-le, all_of, any_of, All, contains, ℤ, pos, negsuc,
  pos_part, neg_part, ◌+ℤ◌, ◌*ℤ◌, ◌≤ℤ◌, ltb_ℤ, leb_ℤ, wrap64, IsInt64, wrap64_exact, wrap64-IsInt64,
  +ℤ_parts, eq_of_parts, lookup, insert, delete, lookup-insert, lookup-delete, Call, served,
  refused, lost, is_empty, cut_prefix, has_prefix, cut_prefix-append, In, str_contains, has_suffix,
  sub_ℕ,
}
use Prim.Native.String
use Prim.Native.Char.{Char, code}
use Prim.Native.String.{◌++◌ as str_append}
use redline.Ingest.Quota.{ManifestFile}

pub record Reference : Type 0 where
  pub owner : String
  pub name : String
  pub revision : String

pub record Url : Type 0 where
  pub scheme : String
  pub host : String
  pub url_path : String

abbrev pub is_slash : Char → Bool
is_slash c = code c == 47

abbrev pub in_range : ℕ → ℕ → ℕ → Bool
in_range low high n = leb low n && leb n high

-- A letter or a digit of ASCII, or one of "-", "_" and ".".
unfoldable pub valid_char : Char → Bool
valid_char c =
    in_range 97 122 (code c)
    || in_range 65 90 (code c)
    || in_range 48 57 (code c)
    || code c == 45
    || code c == 95
    || code c == 46

unfoldable pub all_valid : String → Bool
unfolding valid_char
all_valid String.[] = true
all_valid (String.◌∷◌ c s) = valid_char c && all_valid s

unfoldable pub valid_segment : String → Bool
unfolding all_valid
valid_segment s = not (is_empty s) && all_valid s

-- `strings.Cut` at the first "/".
unfoldable pub cut_slash : String → Option (String × String)
cut_slash String.[] = none
cut_slash (String.◌∷◌ c s) =
    let rest = cut_slash s in
    if is_slash c
    then some ("", s)
    else elim rest [ none ↦ none | some (before, after) ↦ some (String.◌∷◌ c before, after) ]

-- `none` is an error.
unfoldable pub parse_bare_reference : String → Option Reference
unfolding cut_slash valid_segment
parse_bare_reference input = elim (cut_slash input) [
  | none ↦ none
  | some (owner, name) ↦
      if valid_segment owner && valid_segment name
      then some (record { owner = owner; name = name; revision = "main" })
      else none
]

-- `strings.Trim` and `strings.Split` for "/".
unfoldable pub trim_left : String → String
trim_left String.[] = ""
trim_left (String.◌∷◌ c s) = let rest = trim_left s in if is_slash c then rest else String.◌∷◌ c s

unfoldable pub trim_right : String → String
trim_right String.[] = ""
trim_right (String.◌∷◌ c s) =
    let rest = trim_right s in if is_slash c && is_empty rest then "" else String.◌∷◌ c rest

abbrev pub push_char : Char → List String → List String
push_char c [] = String.◌∷◌ c "" ∷ []
push_char c (s ∷ ss) = String.◌∷◌ c s ∷ ss

unfoldable pub split_slash : String → List String
split_slash String.[] = "" ∷ []
split_slash (String.◌∷◌ c s) =
    let rest = split_slash s in if is_slash c then "" ∷ rest else push_char c rest

unfoldable pub revision_of : List String → String
unfolding valid_segment
revision_of (tree ∷ revision ∷ more) =
    if str_eq tree "tree" && valid_segment revision then revision else "main"
revision_of _ = "main"

unfoldable pub reference_of : List String → Option Reference
unfolding valid_segment revision_of
reference_of [] = none
reference_of (owner ∷ []) = none
reference_of (owner ∷ name ∷ more) =
    if valid_segment owner && valid_segment name
    then some (record { owner = owner; name = name; revision = revision_of more })
    else none

unfoldable pub supported_host : String → Bool
supported_host h = str_eq h "huggingface.co" || str_eq h "www.huggingface.co"

unfoldable pub parse_reference_url : (String → Option Url) → String → Option Reference
unfolding reference_of split_slash trim_left trim_right supported_host
parse_reference_url parse_url input = elim (parse_url input) [
  | none ↦ none
  | some u ↦
      if str_eq u.scheme "https" && supported_host u.host
      then reference_of (split_slash (trim_right (trim_left u.url_path)))
      else none
]

unfoldable pub parse_reference :
    (String → String) → (String → Option Url) → String → Option Reference
unfolding parse_reference_url parse_bare_reference
parse_reference trim parse_url input =
    if is_empty (trim input)
    then none
    else if str_contains (trim input) "://"
    then parse_reference_url parse_url (trim input)
    else parse_bare_reference (trim input)

unfoldable pub repo_id : Reference → String
repo_id r = str_append r.owner (str_append "/" r.name)

-- What `getJSON` gives: a decoded body, `ErrRepositoryNotFound`, or another error.
pub data Fetched (A : Type 0) : Type 0 where
  fetched : A → Fetched A
  repository_not_found fetch_failed : Fetched A

pub record TreeEntry : Type 0 where
  pub entry_type : String
  pub file : ManifestFile

pub record Manifest : Type 0 where
  pub revision_sha : String
  pub files : List ManifestFile

unfoldable pub files_of : List TreeEntry → List ManifestFile
files_of [] = []
files_of (e ∷ es) =
    let rest = files_of es in if str_eq e.entry_type "file" then e.file ∷ rest else rest

unfoldable pub fetch_manifest : Fetched String → Fetched (List TreeEntry) → Fetched Manifest
unfolding files_of
fetch_manifest repository_not_found tree = repository_not_found
fetch_manifest fetch_failed tree = fetch_failed
fetch_manifest (fetched sha) repository_not_found =
    if is_empty sha then fetch_failed else repository_not_found
fetch_manifest (fetched sha) fetch_failed = fetch_failed
fetch_manifest (fetched sha) (fetched entries) =
    if is_empty sha
    then fetch_failed
    else fetched (record { revision_sha = sha; files = files_of entries })

-- `FetchConfig` and `FetchLicense`: a repository without the file is no error.
unfoldable pub fetch_optional : {A : Type 0} → A → Fetched A → Fetched A
fetch_optional absent (fetched x) = fetched x
fetch_optional absent repository_not_found = fetched absent
fetch_optional absent fetch_failed = fetch_failed

unfoldable pub unsafe_extension : String → Bool
unsafe_extension e = str_eq e ".bin" || str_eq e ".pt" || str_eq e ".pth" || str_eq e ".ckpt"

-- The paths that the error names; the nil error is the empty list.
unfoldable pub validate_artifact_formats : (String → String) → List ManifestFile → List String
unfolding unsafe_extension
validate_artifact_formats lower_extension [] = []
validate_artifact_formats lower_extension (f ∷ fs) =
    let rest = validate_artifact_formats lower_extension fs in
    if unsafe_extension (lower_extension f.path) then f.path ∷ rest else rest
