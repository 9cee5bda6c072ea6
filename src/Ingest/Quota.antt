-- ===== src/Ingest/Quota.antt =====
-- internal/ingest/quota.go and vram.go: the bound on what one ingestion downloads, and the memory
-- a model takes. An int is an int64.
use redline.Base.{
  ℕ, ◌+◌, ◌^◌, ◌<◌, String, ◌≡◌, ap, ◌∙◌, ◌↔◌, Option, none, some, List, [], ◌∷◌, arith,
  if◌then◌else◌, length, All, ℤ, pos, negsuc, pos_part, ◌+ℤ◌, ◌≤ℤ◌, ltb_ℤ, leb_ℤ, wrap64,
  wrap64_exact,
}

-- A file of the manifest; a size is what the upstream host claims.
pub record ManifestFile : Type 0 where
  pub path : String
  pub size : ℤ

pub record Quota : Type 0 where
  pub max_total_bytes : ℤ
  pub max_file_count : ℤ

abbrev pub default_quota : Quota
default_quota = record { max_total_bytes = pos 536870912000; max_file_count = pos 10000 }

unfoldable pub normalize : Quota → Quota
normalize q = record {
  max_total_bytes =
      if leb_ℤ q.max_total_bytes (pos 0) then default_quota.max_total_bytes else q.max_total_bytes;
  max_file_count =
      if leb_ℤ q.max_file_count (pos 0) then default_quota.max_file_count else q.max_file_count;
}

-- Both reasons are `ErrQuotaExceeded` with a text of their own.
pub data QuotaError : Type 0 where
  too_many_files too_many_bytes : ℤ → ℤ → QuotaError

unfoldable pub total_bytes : ℤ → List ManifestFile → ℤ
total_bytes total [] = total
total_bytes total (f ∷ files) = total_bytes (wrap64 (total +ℤ f.size)) files

unfoldable pub enforce_quota : List ManifestFile → Quota → Option QuotaError
unfolding normalize total_bytes
enforce_quota files quota =
    let q = normalize quota in
    if ltb_ℤ q.max_file_count (pos (length files))
    then some (too_many_files (pos (length files)) q.max_file_count)
    else if ltb_ℤ q.max_total_bytes (total_bytes (pos 0) files)
    then some (too_many_bytes (total_bytes (pos 0) files) q.max_total_bytes)
    else none

-- The sum of the sizes with no wrap-around, of sizes that are not negative.
abbrev pub sum_of_sizes : List ManifestFile → ℕ
sum_of_sizes [] = 0
sum_of_sizes (f ∷ files) = pos_part f.size + sum_of_sizes files

add-exact :
    (n : ℕ) (z : ℤ)
    → pos 0 ≤ℤ z
    → n + pos_part z < 2 ^ 63
    → wrap64 (pos n +ℤ z) ≡ pos (n + pos_part z)
unfolding ◌+ℤ◌
add-exact n (pos m) h b =
    wrap64_exact (pos n +ℤ pos m) (ground (arith, b), ground (arith, b)) ∙ ground arith
add-exact n (negsuc m) h b = ground (arith, h)

total_bytes-exact :
    (files : List ManifestFile) (n : ℕ)
    → All (λ f. pos 0 ≤ℤ f.size) files
    → n + sum_of_sizes files < 2 ^ 63
    → total_bytes (pos n) files ≡ pos (n + sum_of_sizes files)
unfolding total_bytes
total_bytes-exact [] n h b = ground (arith, b)
total_bytes-exact (f ∷ files) n (here, there) b =
    ap (λ t. total_bytes t files) (add-exact n f.size here (omega (arith, b)))
    ∙ total_bytes-exact files (n + pos_part f.size) there (omega (arith, b))
    ∙ ap pos (omega arith)

-- Where no size is negative and their sum is below 2^63: the quota lets a manifest through exactly
-- if it has no more files, and no more bytes, than the normalized quota allows.
pub enforce_quota-exact :
    (files : List ManifestFile) (quota : Quota)
    → All (λ f. pos 0 ≤ℤ f.size) files
    → sum_of_sizes files < 2 ^ 63
    → (enforce_quota files quota ≡ none) ↔ (
        (pos (length files) ≤ℤ (normalize quota).max_file_count)
        × (pos (sum_of_sizes files) ≤ℤ (normalize quota).max_total_bytes))
unfolding enforce_quota
enforce_quota-exact files quota h b = ground (arith, total_bytes-exact files 0 h (omega (arith, b)))
