-- ===== src/Ingest/Jobs/Ending.antt =====
-- internal/ingest/orchestrator.go: how a job ends.
use redline.Base.{
  ℕ, ◌^◌, ◌<◌, String, ◌≡◌, refl, sym, ap, subst, ◌⊎◌, inl, inr, Bool, true, false, Option, none,
  some, List, [], ◌∷◌, arith, if◌then◌else◌, Bool-cases, Option-cases, length, All, pos, ◌≤ℤ◌,
  served, In, has_suffix,
}
use redline.Ingest.Quota.{
  ManifestFile, Quota, enforce_quota, normalize, sum_of_sizes, enforce_quota-exact,
}
use redline.Ingest.Header.Checked.{Checked, all_valid, fetch_header-Checked}
use redline.Ingest.Header.{Header, HeaderLimits, Parsed, ok, err, fetch_header}
use redline.Ingest.Jobs.{
  JobState, cached, failed, Job, update_row, update_ok, update_progress, complete, fail_job,
  IngestError, Existing, found, not_found, lookup_error, Outside, Ran, find_existing_artifact,
  find_weight_file, fail, finish, create_model, describe, verify, download, header_failed,
  store_failed, ingest_files, run,
}

-- Every update of the job's row is served.
pub record StoreServes (o : Outside) : Type 0 where
  pub starts : o.on_start ≡ served
  pub downloads : o.on_downloaded ≡ served
  pub verifies : o.on_verifying ≡ served
  pub completes : o.on_complete ≡ served
  pub fails : o.on_fail ≡ served

-- Cached with the nil error, or failed with an error.
abbrev pub ended_as : JobState → Option IngestError → Bool
ended_as cached none = true
ended_as failed (some _) = true
ended_as _ _ = false

abbrev pub settled : Ran → Bool
settled r = elim r.row [ none ↦ false | some job ↦ ended_as job.state r.error ]

module _ (o : Outside) (s : StoreServes o) where
  fail-settled : (job : Job) (cause : IngestError) → settled (fail o (some job) cause) ≡ true
  unfolding fail update_row fail_job
  fail-settled job cause = ground (arith, s.fails)

  finish-settled : (job : Job) (model : String) → settled (finish o (some job) model) ≡ true
  unfolding finish update_row update_ok complete
  finish-settled job model = ground (arith, s.completes)

  describe-settled :
      (job : Job) (revision : String) (h : Header)
      → settled (describe o (some job) revision h) ≡ true
  unfolding describe create_model
  describe-settled job revision h =
      ground
        (arith, Option-cases o.config, Option-cases o.license, fail-settled job, finish-settled job)

  verify-settled :
      (job : Job) (revision : String) (f : ManifestFile) (h : Header)
      → settled (verify o (some job) revision f h) ≡ true
  unfolding verify update_row update_ok
  verify-settled job revision f h =
      ground (arith, s.downloads, s.verifies, describe-settled _ revision h)

  download-settled :
      (job : Job) (revision : String) (f : ManifestFile)
      → settled (download o (some job) revision f) ≡ true
  unfolding download update_row update_ok
  download-settled job revision f = read (
      fetch_header (o.fetch_range f.path) o.unmarshal
        (record { max_header_bytes = pos 0; max_tensor_count = pos 0 }))
    where
      read :
          (r : Parsed Header)
          → settled (
              if update_ok o.on_start (some job)
              then elim r as (λ x. Ran) [
                | err _ ↦
                    fail o
                      (update_row o.on_start (update_progress f.size (pos 0)) (some job))
                      header_failed
                | ok header ↦
                    verify o
                      (update_row o.on_start (update_progress f.size (pos 0)) (some job))
                      revision
                      f
                      header
              ]
              else record {
                row = update_row o.on_start (update_progress f.size (pos 0)) (some job);
                error = some store_failed;
              })
            ≡ true
      read (err e) = ground (arith, s.starts, fail-settled (update_progress f.size (pos 0) job))
      read (ok h) =
          ground (arith, s.starts, verify-settled (update_progress f.size (pos 0) job) revision f h)

  ingest_files-settled :
      (job : Job) (revision : String) (files : List ManifestFile)
      → settled (ingest_files o (some job) revision files) ≡ true
  unfolding ingest_files
  ingest_files-settled job revision files = ground (
    arith,
    Option-cases (find_weight_file files),
    fail-settled job,
    finish-settled job,
    download-settled job revision,
  )

  run-settled_on : (quota : Quota) (job : Job) → settled (run o quota (some job)) ≡ true
  unfolding run
  run-settled_on quota job =
      ground (arith, Option-cases o.manifest, fail-settled job, ingest_files-settled job)

-- Where every update of the job's row is served, a run leaves an existing job cached, with the nil
-- error, or failed, with an error, whatever the host and the other tables answer.
pub run-settled :
    (o : Outside) (quota : Quota) (job : Job)
    → StoreServes o
    → settled (run o quota (some job)) ≡ true
run-settled o quota job s = run-settled_on o s quota job

abbrev pub is_ok : Parsed Header → Bool
is_ok (ok h) = true
is_ok (err e) = false

abbrev pub no_limits : HeaderLimits
no_limits = record { max_header_bytes = pos 0; max_tensor_count = pos 0 }

-- What the files of a manifest need for a job to be cached: a model of the same revision, or a
-- weight file whose header is accepted.
abbrev pub usable : Outside → String → List ManifestFile → Bool
usable o revision files = elim (o.existing revision) [
  | lookup_error ↦ false
  | found _ ↦ true
  | not_found ↦ elim (find_weight_file files) [
    | none ↦ false
    | some f ↦ is_ok (
        fetch_header (o.fetch_range f.path) o.unmarshal
          (record { max_header_bytes = pos 0; max_tensor_count = pos 0 }))
  ]
]

download-usable :
    (o : Outside) (row : Option Job) (revision : String) (f : ManifestFile)
    → (download o row revision f).error ≡ none
    → is_ok (
        fetch_header
          (o.fetch_range f.path)
          o.unmarshal
          (record { max_header_bytes = pos 0; max_tensor_count = pos 0 }))
      ≡ true
unfolding download fail
download-usable o row revision f h = ground (arith, h)

ingest_files-usable :
    (o : Outside) (row : Option Job) (revision : String) (files : List ManifestFile)
    → (ingest_files o row revision files).error ≡ none
    → usable o revision files ≡ true
unfolding ingest_files find_existing_artifact fail
ingest_files-usable o row revision files h =
    ground (arith, h, Option-cases (find_weight_file files), download-usable o row revision)

manifest-read :
    (o : Outside) (quota : Quota) (row : Option Job)
    → (run o quota row).error ≡ none
    → (m : String × List ManifestFile) × (o.manifest ≡ some m)
unfolding run fail
manifest-read o quota row h = elim (Option-cases o.manifest) [
  | inl missing ↦ let no : ⊥ = ground (arith, h, missing) in elim no [ ]
  | inr there ↦ there
]

find_weight_file-In :
    (files : List ManifestFile) (f : ManifestFile)
    → find_weight_file files ≡ some f
    → In f files × (has_suffix f.path ".safetensors" ≡ true)
unfolding find_weight_file
find_weight_file-In [] f h = let no : ⊥ = ground (arith, h) in elim no [ ]
find_weight_file-In (x ∷ files) f h = elim (Bool-cases (has_suffix x.path ".safetensors")) [
  | inl e ↦
      let same : x ≡ f = ground (arith, h, e) in
      (inl (sym same), subst (λ g. has_suffix g.path ".safetensors" ≡ true) same e)
  | inr e ↦
      let (there, named) = find_weight_file-In files f (ground (arith, h, e)) in (inr there, named)
]

-- A weight file of a list, whose header the host serves and all of whose tensors pass the check.
abbrev pub HasWeights : Outside → List ManifestFile → Type 0
HasWeights o files =
    (f : ManifestFile) × In f files
    × (has_suffix f.path ".safetensors" ≡ true)
    × (h : Header) × (fetch_header (o.fetch_range f.path) o.unmarshal no_limits ≡ ok h)
    × (all_valid h.tensors ≡ true)

abbrev pub HasModel : Outside → String → Type 0
HasModel o revision = (id : String) × (o.existing revision ≡ found id)

header-Valid :
    (n : ℕ) (r : Parsed Header)
    → Checked n r
    → is_ok r ≡ true
    → (h : Header) × (r ≡ ok h) × (all_valid h.tensors ≡ true)
header-Valid n (ok h) (valid, _) good = (h, refl, valid)
header-Valid n (err e) c good = let no : ⊥ = ground (arith, good) in elim no [ ]

usable-HasWeights :
    (o : Outside) (revision : String) (files : List ManifestFile)
    → usable o revision files ≡ true
    → HasModel o revision ⊎ HasWeights o files
usable-HasWeights o revision files good = looked (o.existing revision) refl good
  where
    weights :
        (w : Option ManifestFile)
        → find_weight_file files ≡ w
        → (elim w as (λ x. Bool) [
          | none ↦ false
          | some f ↦ is_ok (fetch_header (o.fetch_range f.path) o.unmarshal no_limits)
        ])
          ≡ true
        → HasWeights o files
    weights none e g = let no : ⊥ = ground (arith, g) in elim no [ ]
    weights (some f) e g =
        let (there, named) = find_weight_file-In files f e in
        let (h, is_h, valid) =
          header-Valid _ _ (fetch_header-Checked (o.fetch_range f.path) o.unmarshal no_limits) g in
        (f, there, named, h, is_h, valid)

    looked :
        (x : Existing)
        → o.existing revision ≡ x
        → (elim x as (λ y. Bool) [
          | lookup_error ↦ false
          | found _ ↦ true
          | not_found ↦ elim (find_weight_file files) [
            | none ↦ false
            | some f ↦ is_ok (fetch_header (o.fetch_range f.path) o.unmarshal no_limits)
          ]
        ])
          ≡ true
        → HasModel o revision ⊎ HasWeights o files
    looked lookup_error e g = let no : ⊥ = ground (arith, g) in elim no [ ]
    looked (found id) e g = inl (id, e)
    looked not_found e g = inr (weights (find_weight_file files) refl g)

-- The files of the manifest, if there is one.
abbrev pub files_of : Outside → List ManifestFile
files_of o = elim o.manifest [ none ↦ [] | some m ↦ m.1 ]

-- Where no size that the manifest claims is negative and their sum is below 2^63: a run that returns
-- the nil error has read a manifest with no more files, and no more bytes, than the normalized
-- quota allows; and there is a model of its revision, or a weight file of it whose header is
-- served and has only tensors that pass the check.
pub run-usable :
    (o : Outside) (quota : Quota) (row : Option Job)
    → All (λ f. pos 0 ≤ℤ f.size) (files_of o)
    → sum_of_sizes (files_of o) < 2 ^ 63
    → (run o quota row).error ≡ none
    → (m : String × List ManifestFile) × (o.manifest ≡ some m)
      × (pos (length m.1) ≤ℤ (normalize quota).max_file_count)
      × (pos (sum_of_sizes m.1) ≤ℤ (normalize quota).max_total_bytes)
      × (HasModel o m.0 ⊎ HasWeights o m.1)
unfolding run fail
run-usable o quota row sizes total h =
    let ((revision, files), there) = manifest-read o quota row h in
    let let_through : enforce_quota files quota ≡ none =
      ground (arith, h, there, Option-cases (enforce_quota files quota)) in
    let same : files_of o ≡ files =
      ap (λ x. elim x as (λ y. List ManifestFile) [ none ↦ [] | some m ↦ m.1 ]) there in
    let (few, small) =
      (enforce_quota-exact files quota (subst (All (λ f. pos 0 ≤ℤ f.size)) same sizes)
          (subst (λ fs. sum_of_sizes fs < 2 ^ 63) same total)).0
        let_through in
    let good : usable o revision files ≡ true =
      ground (arith, h, there, let_through, ingest_files-usable o row revision files) in
    ((revision, files), there, few, small, usable-HasWeights o revision files good)
