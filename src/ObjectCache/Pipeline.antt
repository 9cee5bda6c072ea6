-- ===== src/ObjectCache/Pipeline.antt =====
-- internal/ingest/pipeline.go, checksum.go and retrying_download.go: artifacts that are streamed into the
-- object store, checked, and tried again. The hash, with the folding of case, and the answers of the
-- HTTP client, the uploader and the quarantiner are arguments. A download is what these two
-- acknowledged under the object's key, in order, and its result. The uploader reads the stream to
-- its end where it succeeds, as Uploaded shows of the one of internal/cache.
use redline.Base.{
  ℕ, zero, suc, ◌⊎◌, inl, inr, Bool, true, false, not, Option, none, some, List, [], ◌∷◌, ◌++◌,
  ◌==◌, if◌then◌else◌, pos, pos_part, leb_ℤ,
}
use redline.ObjectCache.{Source, UploadResult}
use redline.Scheduler.Retry.{RetryPolicy, default_retry_policy}

-- What the client's request ends in: an error, or a status and a body.
pub data HostReply : Type 0 where
  no_response : HostReply
  responded : ℕ → Source → HostReply

pub data DownloadError : Type 0 where
  download_failed unsupported_algorithm upload_failed context_done : DownloadError
  unexpected_status : ℕ → DownloadError
  checksum_mismatch : Bool → DownloadError

unfoldable pub is_mismatch : DownloadError → Bool
is_mismatch (checksum_mismatch quarantined) = true
is_mismatch _ = false

-- An upload of the bytes that succeeded, and a quarantine with whether it succeeded.
pub data CacheEvent : Type 0 where
  stored : List ℕ → CacheEvent
  quarantines : Bool → CacheEvent

-- One download's answers: of the host, of the uploader, and whether a quarantine succeeds.
pub record Attempt : Type 0 where
  pub response : HostReply
  pub uploads : Source → Option UploadResult
  pub on_quarantine : Bool

abbrev pub Downloaded : Type 0
Downloaded = List CacheEvent × (UploadResult ⊎ DownloadError)

-- `matches` is whether the digest of the bytes is the expected one, if the algorithm is known.
module _ (matches : Option (List ℕ → Bool)) where
  unfoldable pub check_digest : Attempt → (List ℕ → Bool) → List ℕ → UploadResult → Downloaded
  check_digest a test bytes result =
      if not (test bytes)
      then (
        stored bytes ∷ quarantines a.on_quarantine ∷ [],
        inr (checksum_mismatch a.on_quarantine),
      )
      else (stored bytes ∷ [], inl result)

  unfoldable pub stream_to_cache : Attempt → (List ℕ → Bool) → Source → Downloaded
  unfolding check_digest
  stream_to_cache a test src = elim (a.uploads src) [
    | none ↦ ([], inr upload_failed)
    | some result ↦ check_digest a test src.bytes result
  ]

  unfoldable pub download_to_cache : Attempt → Downloaded
  unfolding stream_to_cache
  download_to_cache a = elim a.response [
    | no_response ↦ ([], inr download_failed)
    | responded status src ↦
        if not (status == 200) then ([], inr (unexpected_status status)) else elim matches [
          | none ↦ ([], inr unsupported_algorithm)
          | some test ↦ stream_to_cache a test src
        ]
  ]

  -- The loop of `RetryingDownload`, with `left` attempts still to make. `stops` is whether the context
  -- ends in the wait after an attempt.
  unfoldable pub retry_from : ℕ → (ℕ → Attempt) → (ℕ → Bool) → Downloaded
  unfolding download_to_cache is_mismatch
  retry_from zero attempts stops = ([], inr context_done)
  retry_from (suc left) attempts stops =
      let (events, o) = download_to_cache (attempts left) in
      let (more, last) = retry_from left attempts stops in
      elim o [
        | inl result ↦ (events, inl result)
        | inr e ↦
            if not (is_mismatch e)
            then (events, inr e)
            else if left == 0
            then (events, inr e)
            else if stops left
            then (events, inr context_done)
            else (events ++ more, last)
      ]

  unfoldable pub retrying_download : RetryPolicy → (ℕ → Attempt) → (ℕ → Bool) → Downloaded
  unfolding retry_from
  retrying_download policy attempts stops =
      retry_from
        (pos_part (
          if leb_ℤ policy.max_attempts (pos 0)
          then default_retry_policy.max_attempts
          else policy.max_attempts))
        attempts stops
