-- ===== src/Ingest/Jobs.antt =====
-- internal/ingest/orchestrator.go, dedup.go and, of internal/db/ingestion_jobs.go, the updates it
-- makes: one ingestion job from the manifest to a terminal state. What the upstream host, the
-- artifact lookup and the model table answer, and how each update of the job's row ends, are
-- arguments. What the errors say, and the architecture's name, are not modelled.
pub mod Ending
use redline.Base.{
  ℕ, zero, suc, ◌+◌, ◌-◌, ◌*◌, ◌/◌, ◌%◌, ◌^◌, ◌≤◌, ◌<◌, min, max, String, ◌≡◌, refl, sym, ap, subst,
  ◌∙◌, ◌≢◌, ◌↔◌, ◌⊎◌, inl, inr, Bool, true, false, not, ◌&&◌, ◌||◌, Option, none, some, List, [],
  ◌∷◌, ◌++◌, map, arith, str_eq, eq_iff, ltb, leb, ◌==◌, if◌then◌else◌, Bool-cases, Option-cases,
  length, length-append, keep_if, length-keep_if-le, all_of, any_of, All, contains, ℤ, pos, negsuc,
  pos_part, neg_part, ◌+ℤ◌, ◌*ℤ◌, ◌≤ℤ◌, ltb_ℤ, leb_ℤ, wrap64, IsInt64, wrap64_exact, wrap64-IsInt64,
  +ℤ_parts, eq_of_parts, lookup, insert, delete, lookup-insert, lookup-delete, Call, served,
  refused, lost, is_empty, cut_prefix, has_prefix, cut_prefix-append, In, str_contains, has_suffix,
  sub_ℕ,
}
use redline.Ingest.Quota.{ManifestFile, Quota, enforce_quota}
use redline.Ingest.Header.{
  TensorInfo, Header, RawEntry, HeaderLimits, Parsed, ok, err, fetch_header,
}
use redline.Ingest.Vram.{ModelGeometry, VramFootprint, parameter_count, compute_vram_footprint}

pub data JobState : Type 0 where
  queued downloading verifying cached failed : JobState

-- The row of the job that runs.
pub record Job : Type 0 where
  pub state : JobState
  pub bytes_total : ℤ
  pub bytes_downloaded : ℤ
  pub model_id : Option String

-- An update of the row, by how the call ends; `none` is no such row.
unfoldable pub update_row : Call → (Job → Job) → Option Job → Option Job
update_row refused f row = row
update_row _ f none = none
update_row _ f (some job) = some (f job)

-- Whether the update reports success: it is served and there is a row.
unfoldable pub update_ok : Call → Option Job → Bool
update_ok served (some _) = true
update_ok _ _ = false

unfoldable pub update_state : JobState → Job → Job
update_state state job = record job { state = state }

unfoldable pub update_progress : ℤ → ℤ → Job → Job
update_progress total downloaded job = record job {
  state = downloading;
  bytes_total = total;
  bytes_downloaded = downloaded;
}

unfoldable pub complete : String → Job → Job
complete model job = record job { state = cached; model_id = some model }

unfoldable pub fail_job : Job → Job
fail_job job = record job { state = failed }

pub data IngestError : Type 0 where
  manifest_failed over_quota lookup_failed no_weight_file header_failed : IngestError
  config_failed license_failed create_failed : IngestError
  store_failed : IngestError

-- What the artifact lookup finds at the revision.
pub data Existing : Type 0 where
  found : String → Existing
  not_found lookup_error : Existing

-- `db.NewModel`, of the fields that the run computes.
pub record NewModel : Type 0 where
  pub revision_sha : String
  pub parameters : ℤ
  pub dtype_of_model : String
  pub footprint : VramFootprint

-- The answers of everything outside. `none` is an error; a config that is missing is the geometry
-- of zeros, which is what the source passes on then.
pub record Outside : Type 0 where
  pub manifest : Option (String × List ManifestFile)
  pub existing : String → Existing
  pub fetch_range : String → ℤ → ℤ → Option (List ℕ)
  pub unmarshal : List ℕ → Option (List (String × RawEntry))
  pub config : Option ModelGeometry
  pub license : Option String
  pub create : NewModel → Option String
  pub on_start : Call
  pub on_downloaded : Call
  pub on_verifying : Call
  pub on_complete : Call
  pub on_fail : Call

-- `none` is the nil error.
pub record Ran : Type 0 where
  pub row : Option Job
  pub error : Option IngestError

unfoldable pub find_existing_artifact : Outside → String → Existing
find_existing_artifact o revision = o.existing revision

unfoldable pub find_weight_file : List ManifestFile → Option ManifestFile
find_weight_file [] = none
find_weight_file (f ∷ files) =
    let rest = find_weight_file files in if has_suffix f.path ".safetensors" then some f else rest

unfoldable pub dominant_dtype : List TensorInfo → String
dominant_dtype [] = ""
dominant_dtype (t ∷ ts) = t.entry.dtype

unfoldable pub fail : Outside → Option Job → IngestError → Ran
unfolding fail_job update_row
fail o row cause = record { row = update_row o.on_fail fail_job row; error = some cause }

unfoldable pub finish : Outside → Option Job → String → Ran
unfolding complete update_row update_ok
finish o row model = record {
  row = update_row o.on_complete (complete model) row;
  error = if update_ok o.on_complete row then none else some store_failed;
}

unfoldable pub new_model : String → Header → ModelGeometry → NewModel
unfolding dominant_dtype parameter_count compute_vram_footprint
new_model revision header geometry = record {
  revision_sha = revision;
  parameters = parameter_count (pos 0) header.tensors;
  dtype_of_model = dominant_dtype header.tensors;
  footprint = compute_vram_footprint (parameter_count (pos 0) header.tensors) geometry;
}

unfoldable pub create_model : Outside → Option Job → String → Header → ModelGeometry → Ran
unfolding finish fail new_model
create_model o row revision header geometry = elim (o.create (new_model revision header geometry)) [
  | none ↦ fail o row create_failed
  | some model ↦ finish o row model
]

-- From the config on.
unfoldable pub describe : Outside → Option Job → String → Header → Ran
unfolding create_model
describe o row revision header = elim o.config [
  | none ↦ fail o row config_failed
  | some geometry ↦ elim o.license [
    | none ↦ fail o row license_failed
    | some _ ↦ create_model o row revision header geometry
  ]
]

-- From a header that was read: the download's end, and verification.
unfoldable pub verify : Outside → Option Job → String → ManifestFile → Header → Ran
unfolding describe update_progress update_state
verify o row revision f header =
    let row1 = update_row o.on_downloaded (update_progress f.size f.size) row in
    let row2 = update_row o.on_verifying (update_state verifying) row1 in
    if update_ok o.on_downloaded row
    then if update_ok o.on_verifying row1
      then describe o row2 revision header
      else record { row = row2; error = some store_failed }
    else record { row = row1; error = some store_failed }

-- From a weight file: the download's start, and its header.
unfoldable pub download : Outside → Option Job → String → ManifestFile → Ran
unfolding verify
download o row revision f =
    let row0 = update_row o.on_start (update_progress f.size (pos 0)) row in
    if update_ok o.on_start row
    then elim (fetch_header (o.fetch_range f.path) o.unmarshal
        (record { max_header_bytes = pos 0; max_tensor_count = pos 0 })) [
          | err _ ↦ fail o row0 header_failed
          | ok header ↦ verify o row0 revision f header
        ]
    else record { row = row0; error = some store_failed }

unfoldable pub ingest_files : Outside → Option Job → String → List ManifestFile → Ran
unfolding download find_existing_artifact find_weight_file
ingest_files o row revision files = elim (find_existing_artifact o revision) [
  | lookup_error ↦ fail o row lookup_failed
  | found model ↦ finish o row model
  | not_found ↦ elim (find_weight_file files) [
    | none ↦ fail o row no_weight_file
    | some f ↦ download o row revision f
  ]
]

unfoldable pub run : Outside → Quota → Option Job → Ran
unfolding ingest_files
run o quota row = elim o.manifest [
  | none ↦ fail o row manifest_failed
  | some (revision, files) ↦ elim (enforce_quota files quota) [
    | some _ ↦ fail o row over_quota
    | none ↦ ingest_files o row revision files
  ]
]
