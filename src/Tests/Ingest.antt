-- ===== src/Tests/Ingest.antt =====
-- Witnesses for internal/ingest, and the runs that the comments of the source do not tell of.
use redline.Base.{
  ℕ, ◌+◌, ◌*◌, ◌/◌, ◌≤◌, String, ◌≡◌, refl, ◌↔◌, ◌⊎◌, length, true, Option, none, some, List, [],
  ◌∷◌, arith, if◌then◌else◌, ℤ, pos, pos_part, ◌+ℤ◌, ◌*ℤ◌, ◌≤ℤ◌, leb_ℤ, wrap64, served, refused,
  has_suffix,
}
use redline.Ingest.Quota.{
  ManifestFile, Quota, default_quota, enforce_quota, normalize, total_bytes, sum_of_sizes,
}
use redline.Ingest.Quota
use redline.Ingest.Header.{
  RawEntry, HeaderLimits, ok, fetch_header, normalize_limits, read_header_length, check_length,
  little_endian, header_end,
}
use redline.Ingest.Header.Checked.{Checked}
use redline.Ingest.Header.Checked
use redline.Ingest.Vram.{
  ModelGeometry, compute_vram_footprint, kv_cache_bytes, kv_cache_bytes_per_token, mul64, quot,
}
use redline.Ingest.Vram
use redline.Ingest.Jobs.{
  Job, queued, Outside, not_found, run, store_failed, find_existing_artifact, find_weight_file,
  download, ingest_files, update_row, update_ok,
}
use redline.Ingest.Jobs.Ending.{StoreServes, settled, HasModel, HasWeights}
use redline.Ingest.Jobs.Ending

abbrev weights : ManifestFile
weights = record { path = "model.safetensors"; size = pos 1000 }

abbrev two_files : List ManifestFile
two_files = weights ∷ record { path = "config.json"; size = pos 20 } ∷ []

enforce_quota-exact_example : (enforce_quota two_files default_quota ≡ none) ↔ (
    (pos 2 ≤ℤ (normalize default_quota).max_file_count)
    × (pos 1020 ≤ℤ (normalize default_quota).max_total_bytes))
enforce_quota-exact_example =
    Quota.enforce_quota-exact two_files default_quota (omega arith, (omega arith, tt)) (omega arith)

-- Two files of 2^62 bytes: the sum wraps to -2^63, and the default quota lets them through.
abbrev huge_files : List ManifestFile
huge_files =
    record { path = "a"; size = pos 4611686018427387904 }
    ∷ record { path = "b"; size = pos 4611686018427387904 }
    ∷ []

huge_files_pass : enforce_quota huge_files default_quota ≡ none
unfolding enforce_quota normalize total_bytes wrap64 ◌+ℤ◌
huge_files_pass = refl

abbrev small_file : ℤ → ℤ → Option (List ℕ)
small_file from to =
    if leb_ℤ to (pos 7) then some (2 ∷ 0 ∷ 0 ∷ 0 ∷ 0 ∷ 0 ∷ 0 ∷ 0 ∷ []) else some (123 ∷ 125 ∷ [])

abbrev one_tensor : List ℕ → Option (List (String × RawEntry))
one_tensor raw = some (
    (
      "wte",
      record {
        as_tensor = some (record {
          dtype = "F16";
          shape = pos 4 ∷ pos 2 ∷ [];
          offsets_start = pos 0;
          offsets_end = pos 16;
        });
        as_metadata = none;
      },
    )
    ∷ [])

abbrev no_limits : HeaderLimits
no_limits = record { max_header_bytes = pos 0; max_tensor_count = pos 0 }

fetch_header-Checked_example :
    Checked
      (pos_part (normalize_limits no_limits).max_tensor_count)
      (fetch_header small_file one_tensor no_limits)
fetch_header-Checked_example = Checked.fetch_header-Checked small_file one_tensor no_limits

small_length : read_header_length small_file (pos 64) ≡ ok 2
unfolding read_header_length check_length little_endian
small_length = refl

length_of_two : (2 ≤ 64) × (header_end 2 ≡ pos 9)
length_of_two = Checked.header_length_bounded small_file 63 2 (omega arith) small_length

abbrev geometry : ModelGeometry
geometry = record {
  num_layers = pos 2;
  num_attention_heads = pos 4;
  num_key_value_heads = pos 2;
  hidden_size = pos 64;
  context_length = pos 10;
}

geometry_cache : kv_cache_bytes geometry ≡ pos 2560
unfolding kv_cache_bytes kv_cache_bytes_per_token mul64 quot ◌*ℤ◌ wrap64
geometry_cache = refl

footprint_of_geometry :
    ((compute_vram_footprint (pos 7) geometry).fp16.total_estimate ≡ pos (7 * 2 + 2560))
    × ((compute_vram_footprint (pos 7) geometry).fp8.total_estimate ≡ pos (7 + 2560))
    × ((compute_vram_footprint (pos 7) geometry).int4.total_estimate ≡ pos ((7 + 1) / 2 + 2560))
footprint_of_geometry =
    Vram.compute_vram_footprint-exact geometry 7 2560 geometry_cache (omega arith)

abbrev new_job : Job
new_job = record { state = queued; bytes_total = pos 0; bytes_downloaded = pos 0; model_id = none }

abbrev all_well : Outside
all_well = record {
  manifest = some ("sha", two_files);
  existing = λ _. not_found;
  fetch_range = λ _. small_file;
  unmarshal = one_tensor;
  config = some geometry;
  license = some "mit";
  create = λ _. some "m1";
  on_start = served;
  on_downloaded = served;
  on_verifying = served;
  on_complete = served;
  on_fail = served;
}

all_well-StoreServes : StoreServes all_well
all_well-StoreServes = record {
  starts = refl;
  downloads = refl;
  verifies = refl;
  completes = refl;
  fails = refl;
}

run-settled_example : settled (run all_well default_quota (some new_job)) ≡ true
run-settled_example = Ending.run-settled all_well default_quota new_job all_well-StoreServes

all_well_runs : (run all_well default_quota (some new_job)).error ≡ none
unfolding run ingest_files find_existing_artifact find_weight_file download update_row update_ok
    enforce_quota wrap64 ◌+ℤ◌ has_suffix fetch_header
all_well_runs = refl

run-usable_example :
    (m : String × List ManifestFile) × (all_well.manifest ≡ some m)
    × (pos (length m.1) ≤ℤ (normalize default_quota).max_file_count)
    × (pos (sum_of_sizes m.1) ≤ℤ (normalize default_quota).max_total_bytes)
    × (HasModel all_well m.0 ⊎ HasWeights all_well m.1)
run-usable_example =
    Ending.run-usable all_well default_quota (some new_job) (omega arith, (omega arith, tt))
      (omega arith) all_well_runs

-- A refused update of the progress: the job stays as it is, no failure is recorded.
abbrev no_progress : Outside
no_progress = record all_well { on_start = refused }

no_progress_stays :
    run no_progress default_quota (some new_job)
    ≡ record { row = some new_job; error = some store_failed }
unfolding run ingest_files find_existing_artifact find_weight_file download update_row update_ok
    enforce_quota wrap64 ◌+ℤ◌ has_suffix
no_progress_stays = refl
