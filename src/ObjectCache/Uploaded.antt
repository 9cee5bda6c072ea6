-- ===== src/ObjectCache/Uploaded.antt =====
-- internal/cache/upload.go: what an upload has sent when it succeeds, and when it fails.
use redline.Base.{ℕ, suc, ◌^◌, ◌<◌, ◌≡◌, ◌⊎◌, true, Option, none, some, List, length}
use redline.ObjectCache.{Source, chunks, StoreReplies, UploadRequest, UploadResult}
use redline.ObjectCache.Parts.{is_aborted, KeepsParts, IsSent}

-- What the end of an upload is: a success, or an abort.
abbrev pub Ended : StoreReplies → ℕ → Source → List UploadRequest × Option UploadResult → Type 0
Ended r part_size src (requests, some result) = IsSent r part_size src requests result
Ended r part_size src (requests, none) = (r.on_start ≡ none) ⊎ (is_aborted requests ≡ true)

module _ (r : StoreReplies) (n : ℕ) (src : Source) (keeps : KeepsParts r.arrives)
    (small : length src.bytes < 2 ^ 63) where
  abbrev reads : List (List ℕ)
  reads = chunks (length src.bytes) (suc n) src.bytes
