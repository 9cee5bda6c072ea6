-- ===== src/Tests/ObjectCache.antt =====
-- Witnesses for internal/cache and the downloads of internal/ingest, and a quarantine that fails.
use redline.Base.{
  ℕ, ◌≡◌, refl, Bool, true, false, Option, none, some, List, [], ◌∷◌, ◌==◌, if◌then◌else◌, length,
  ◌+ℤ◌, wrap64,
}
use redline.ObjectCache.{StoreReplies, Source, upload}
use redline.ObjectCache.Uploaded
use redline.ObjectCache.Pipeline.{Attempt, responded, download_to_cache}
use redline.ObjectCache.Verified.{live}
use redline.ObjectCache.Verified

abbrev accepting : StoreReplies
accepting = record {
  on_start = some "u1";
  on_put = λ k. some "t";
  arrives = λ ps. ps;
  on_complete = some "o";
}

abbrev five_bytes : Source
five_bytes = record { bytes = 1 ∷ 2 ∷ 3 ∷ 4 ∷ 5 ∷ []; is_broken = false }

-- The digest is the number of bytes.
abbrev is_five : Option (List ℕ → Bool)
is_five = some (λ bytes. length bytes == 5)

-- A body that is cut short.
abbrev short : Source
short = record { bytes = 1 ∷ 2 ∷ []; is_broken = false }

-- The first attempt gets too few bytes, the next all.
abbrev attempt : ℕ → Attempt
attempt left = record {
  response = responded 200 (if left == 7 then short else five_bytes);
  uploads = λ src. (upload accepting 2 src).1;
  on_quarantine = true;
}

-- Where the quarantine fails, the bytes of the wrong digest stay under the key.
abbrev no_quarantine : Attempt
no_quarantine = record (attempt 7) { on_quarantine = false }

mismatch_stays : live none (download_to_cache is_five no_quarantine).0 ≡ some (1 ∷ 2 ∷ [])
unfolding download_to_cache upload wrap64 ◌+ℤ◌
mismatch_stays = refl
