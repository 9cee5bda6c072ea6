-- ===== src/ObjectCache/Verified.antt =====
-- internal/ingest/pipeline.go and retrying_download.go: what a download leaves under its key.
use redline.Base.{ℕ, ◌≡◌, ◌⊎◌, inl, inr, Bool, true, false, Option, none, some, List, [], ◌∷◌}
use redline.ObjectCache.Pipeline.{
  DownloadError, checksum_mismatch, CacheEvent, stored, quarantines, Downloaded,
}

-- What is under the key: an upload puts its bytes there, and a quarantine that succeeds takes what is
-- there away.
abbrev pub live : Option (List ℕ) → List CacheEvent → Option (List ℕ)
live before [] = before
live before (stored bytes ∷ es) = live (some bytes) es
live before (quarantines true ∷ es) = live none es
live before (quarantines false ∷ es) = live before es

-- Bytes whose digest is, or is not, the expected one.
abbrev pub IsLive : Option (List ℕ → Bool) → Bool → Option (List ℕ) → Type 0
IsLive matches good now =
    (test : List ℕ → Bool) × (bytes : List ℕ) × (matches ≡ some test)
    × (now ≡ some bytes)
    × (test bytes ≡ good)

abbrev pub has_failed_quarantine : List CacheEvent → Bool
has_failed_quarantine [] = false
has_failed_quarantine (stored bytes ∷ es) = has_failed_quarantine es
has_failed_quarantine (quarantines true ∷ es) = has_failed_quarantine es
has_failed_quarantine (quarantines false ∷ es) = true

-- A quarantine failed, or the key has what it had before, nothing, or the expected bytes.
abbrev pub IsClean : Option (List ℕ → Bool) → Option (List ℕ) → List CacheEvent → Type 0
IsClean matches before es =
    (has_failed_quarantine es ≡ true)
    ⊎ ((live before es ≡ before) ⊎ ((live before es ≡ none) ⊎ IsLive matches true (live before es)))

-- What a mismatch says of the key.
abbrev pub Told :
    Option (List ℕ → Bool) → Option (List ℕ) → List CacheEvent → DownloadError → Type 0
Told matches before es (checksum_mismatch true) = live before es ≡ none
Told matches before es (checksum_mismatch false) =
    (has_failed_quarantine es ≡ true) × IsLive matches false (live before es)
Told matches before es _ = Unit

abbrev pub IsSafe : Option (List ℕ → Bool) → Option (List ℕ) → Downloaded → Type 0
IsSafe matches before (es, inl result) = IsLive matches true (live before es)
IsSafe matches before (es, inr e) = IsClean matches before es × Told matches before es e
