-- ===== src/Chat/Stream.antt =====
-- internal/api/handler.go: what a stream writes and observes.
use redline.Base.{
  ℕ, ◌+◌, min, String, ◌≡◌, refl, ap, Bool, true, false, not, ◌||◌, none, some, List, [], ◌∷◌,
  arith, if◌then◌else◌, ◌==◌, length, keep_if, any_of, is_empty,
}
use redline.Chat.{
  Event, failed, token, finished, Frame, delta, last_chunk, done_frame, Observed, touched,
  time_to_first_token, inter_token_latency, role_of, observe, stream_events,
}

-- The events up to the first failure.
abbrev pub before_failure : List Event → List Event
before_failure [] = []
before_failure (failed ∷ es) = []
before_failure (token text ∷ es) = token text ∷ before_failure es
before_failure (finished reason u ∷ es) = finished reason u ∷ before_failure es

abbrev pub is_failed : Event → Bool
is_failed failed = true
is_failed (token text) = false
is_failed (finished reason u) = false

-- The texts of the tokens, and how many have one.
abbrev pub texts : List Event → List String
texts [] = []
texts (failed ∷ es) = texts es
texts (token text ∷ es) = text ∷ texts es
texts (finished reason u ∷ es) = texts es

abbrev pub spoken : List Event → ℕ
spoken es = length (keep_if (λ t. not (is_empty t)) (texts es))

abbrev pub written_texts : List Frame → List String
written_texts [] = []
written_texts (delta role text ∷ fs) = text ∷ written_texts fs
written_texts (last_chunk reason n ∷ fs) = written_texts fs
written_texts (done_frame ∷ fs) = written_texts fs

abbrev pub is_done : Frame → Bool
is_done (delta role text) = false
is_done (last_chunk reason n) = false
is_done done_frame = true

-- The last frame is the marker, and no other.
abbrev pub ends_with_marker : List Frame → Bool
ends_with_marker [] = false
ends_with_marker (f ∷ fs) = if is_done f then length fs == 0 else ends_with_marker fs

abbrev pub has_role : Frame → Bool
has_role (delta none text) = false
has_role (delta (some role) text) = true
has_role (last_chunk reason n) = false
has_role done_frame = false

abbrev pub number : (Observed → Bool) → List Observed → ℕ
number p os = length (keep_if p os)

abbrev pub is_touch : Observed → Bool
is_touch touched = true
is_touch _ = false

abbrev pub is_first : Observed → Bool
is_first time_to_first_token = true
is_first _ = false

abbrev pub is_latency : Observed → Bool
is_latency inter_token_latency = true
is_latency _ = false

-- The number of roles and of first-token times that are still to come.
abbrev owed : Bool → ℕ → ℕ
owed pending n = if pending then min 1 n else 0

stream_events-frames :
    (first recorded : Bool) (es : List Event)
    → let w = stream_events first recorded es in
      (written_texts w.frames ≡ texts (before_failure es))
      × (any_of is_done w.frames ≡ not (any_of is_failed es))
      × (ends_with_marker w.frames ≡ not (any_of is_failed es))
      × (length (keep_if has_role w.frames) ≡ owed first (length (texts (before_failure es))))
unfolding stream_events role_of
stream_events-frames first recorded [] = (refl, refl, refl, ground arith)
stream_events-frames first recorded (failed ∷ es) = (refl, refl, refl, ground arith)
stream_events-frames first recorded (token text ∷ es) =
    let (a, b, m, c) = stream_events-frames false (recorded || not (is_empty text)) es in
    (ap (λ ts. text ∷ ts) a, b, m, ground (arith, c))
stream_events-frames first recorded (finished reason u ∷ es) =
    let (a, b, m, c) = stream_events-frames first recorded es in (a, b, m, c)

stream_events-observed :
    (first recorded : Bool) (es : List Event)
    → let o = (stream_events first recorded es).observed in
      (number is_touch o ≡ spoken (before_failure es))
      × (number is_first o ≡ owed (not recorded) (spoken (before_failure es)))
      × (number is_first o + number is_latency o ≡ number is_touch o)
unfolding stream_events observe
stream_events-observed first recorded [] = (refl, ground arith, omega arith)
stream_events-observed first recorded (failed ∷ es) = (refl, ground arith, omega arith)
stream_events-observed first recorded (token text ∷ es) =
    let (a, b, c) = stream_events-observed false (recorded || not (is_empty text)) es in
    (ground (arith, a), ground (arith, b), ground (arith, c))
stream_events-observed first recorded (finished reason u ∷ es) =
    stream_events-observed first recorded es

-- A stream writes the tokens' texts up to the first failure of the backend, in order; it ends with the
-- marker, and has no other, if nothing failed, and has no marker if something failed; only one delta has a role, if there is a delta; the watchdog is
-- touched once for each token up to the failure that has a text; the time to the first token is
-- observed once, if there is such a token, and the latency between tokens for each of the others.
pub stream_events-measured :
    (es : List Event)
    → let w = stream_events true false es in
      (written_texts w.frames ≡ texts (before_failure es))
      × (any_of is_done w.frames ≡ not (any_of is_failed es))
      × (ends_with_marker w.frames ≡ not (any_of is_failed es))
      × (length (keep_if has_role w.frames) ≡ min 1 (length (texts (before_failure es))))
      × (number is_touch w.observed ≡ spoken (before_failure es))
      × (number is_first w.observed ≡ min 1 (spoken (before_failure es)))
      × (number is_first w.observed + number is_latency w.observed ≡ number is_touch w.observed)
stream_events-measured es =
    let (a, b, m, c) = stream_events-frames true false es in
    let (d, e, f) = stream_events-observed true false es in (a, b, m, c, d, e, f)
