-- ===== src/Chat.antt =====
-- internal/api/chat.go and handler.go: the validation of a completion request, and its handler. A
-- float is a type with comparisons; trimming white space and counting words are arguments, and so
-- is what the backend answers. An int is an int64.
pub mod Valid
pub mod Stream
use redline.Base.{
  ℕ, zero, suc, ◌+◌, ◌-◌, ◌*◌, ◌/◌, ◌%◌, ◌^◌, ◌≤◌, ◌<◌, min, max, String, ◌≡◌, refl, sym, ap, subst,
  ◌∙◌, ◌≢◌, ◌↔◌, ◌⊎◌, inl, inr, Bool, true, false, not, ◌&&◌, ◌||◌, Option, none, some, List, [],
  ◌∷◌, ◌++◌, map, arith, str_eq, eq_iff, ltb, leb, ◌==◌, if◌then◌else◌, Bool-cases, Option-cases,
  length, length-append, keep_if, length-keep_if-le, all_of, any_of, All, contains, ℤ, pos, negsuc,
  pos_part, neg_part, ◌+ℤ◌, ◌*ℤ◌, ◌≤ℤ◌, ltb_ℤ, leb_ℤ, wrap64, IsInt64, wrap64_exact, wrap64-IsInt64,
  +ℤ_parts, eq_of_parts, lookup, insert, delete, lookup-insert, lookup-delete, Call, served,
  refused, lost, is_empty, cut_prefix, has_prefix, cut_prefix-append, In, str_contains, has_suffix,
  sub_ℕ,
}
use redline.Inference.{Message}

pub record ChatCompletionRequest (F : Type 0) : Type 0 where
  pub model : String
  pub messages : List Message
  pub temperature : Option F
  pub top_p : Option F
  pub max_tokens : Option ℤ
  pub is_stream : Bool

-- The field of a `FieldError`; a message's is its index and which part.
pub data FieldError : Type 0 where
  model_field messages_field temperature_field top_p_field max_tokens_field : FieldError
  role_field content_field : ℕ → FieldError

unfoldable pub is_valid_role : String → Bool
is_valid_role r = str_eq r "system" || str_eq r "user" || str_eq r "assistant"

unfoldable pub only_if : Bool → FieldError → List FieldError
only_if b e = if b then e ∷ [] else []

unfoldable pub fails : {F : Type 0} → (F → Bool) → Option F → Bool
fails test none = false
fails test (some x) = test x

unfoldable pub is_not_positive : Option ℤ → Bool
is_not_positive none = false
is_not_positive (some n) = leb_ℤ n (pos 0)

-- The nil error.
unfoldable pub no_errors : List FieldError → Bool
no_errors [] = true
no_errors (e ∷ es) = false

-- `outside_temperature` is a temperature below 0 or above 2, `outside_top_p` a top_p not above 0 or
-- above 1.
module _ {F : Type 0} (trim : String → String) (outside_temperature outside_top_p : F → Bool) where
  unfoldable pub message_errors : ℕ → List Message → List FieldError
  unfolding only_if is_valid_role
  message_errors i [] = []
  message_errors i (m ∷ ms) =
      only_if (not (is_valid_role m.role)) (role_field i)
      ++ (only_if (is_empty (trim m.content)) (content_field i) ++ message_errors (suc i) ms)

  -- `Validate`.
  unfoldable pub validate : ChatCompletionRequest F → List FieldError
  unfolding message_errors fails is_not_positive only_if
  validate r =
      only_if (is_empty (trim r.model)) model_field
      ++ (only_if (length r.messages == 0) messages_field
          ++ (message_errors 0 r.messages
              ++ (only_if (fails outside_temperature r.temperature) temperature_field
                  ++ (only_if (fails outside_top_p r.top_p) top_p_field
                      ++ only_if (is_not_positive r.max_tokens) max_tokens_field))))

-- `estimatedSequenceLength`, from the words of each message.
unfoldable pub words_of : (String → ℕ) → List Message → ℕ
words_of count [] = 0
words_of count (m ∷ ms) = count m.content + words_of count ms

unfoldable pub estimated_sequence_length : {F : Type 0} → (String → ℕ) → ChatCompletionRequest F → ℤ
unfolding words_of
estimated_sequence_length count r = elim r.max_tokens [
  | none ↦ pos (words_of count r.messages)
  | some n ↦ wrap64 (pos (words_of count r.messages) +ℤ n)
]

pub record Usage : Type 0 where
  pub prompt_tokens : ℤ
  pub completion_tokens : ℤ

unfoldable pub total_tokens : Usage → ℤ
total_tokens u = wrap64 (u.prompt_tokens +ℤ u.completion_tokens)

-- What `Complete` of the backend answers, and an event of `Stream`.
pub data Completion : Type 0 where
  completed : String → String → String → Usage → Completion
  deadline_exceeded completion_failed : Completion

pub data Event : Type 0 where
  failed : Event
  token : String → Event
  finished : String → Usage → Event

-- What is written to the client: the role of a delta, if it has one, and its text; the last chunk;
-- and the marker of the stream's end.
pub data Frame : Type 0 where
  delta : Option String → String → Frame
  last_chunk : String → ℤ → Frame
  done_frame : Frame

-- The calls of the recorders and of the watchdog.
pub data Observed : Type 0 where
  touched time_to_first_token inter_token_latency : Observed

pub record Written : Type 0 where
  pub frames : List Frame
  pub observed : List Observed

unfoldable pub role_of : Bool → Option String
role_of first = if first then some "assistant" else none

-- What is observed at a token, with whether a first token was.
unfoldable pub observe : Bool → String → List Observed
observe ttft_recorded text =
    if is_empty text
    then []
    else if ttft_recorded
    then touched ∷ inter_token_latency ∷ []
    else touched ∷ time_to_first_token ∷ []

-- The loop of `streamChatCompletion` and what follows it, with the recorders and the watchdog there.
unfoldable pub stream_events : Bool → Bool → List Event → Written
unfolding role_of observe total_tokens
stream_events first ttft_recorded [] = record { frames = done_frame ∷ []; observed = [] }
stream_events first ttft_recorded (failed ∷ es) = record { frames = []; observed = [] }
stream_events first ttft_recorded (token text ∷ es) =
    let rest = stream_events false (ttft_recorded || not (is_empty text)) es in
    record {
      frames = delta (role_of first) text ∷ rest.frames;
      observed = observe ttft_recorded text ++ rest.observed;
    }
stream_events first ttft_recorded (finished reason u ∷ es) =
    let rest = stream_events first ttft_recorded es in
    record rest { frames = last_chunk reason (total_tokens u) ∷ rest.frames }

pub data ChatReply : Type 0 where
  chat_error : ℕ → ChatReply
  chat_response : String → String → String → Usage → ℤ → ChatReply
  chat_stream : Written → ChatReply

unfoldable pub complete_reply : Completion → ChatReply
unfolding total_tokens
complete_reply (completed model content reason u) =
    chat_response model content reason u (total_tokens u)
complete_reply deadline_exceeded = chat_error 504
complete_reply completion_failed = chat_error 500

-- `none` is an error of the call that opens the stream.
unfoldable pub stream_reply : Option (List Event) → ChatReply
unfolding stream_events
stream_reply none = chat_error 500
stream_reply (some es) = chat_stream (stream_events true false es)

-- The backend is called with the request: `complete` and `open_stream` are its answers, and `can_flush`
-- is whether the writer is a flusher.
module _ {F : Type 0} (trim : String → String) (outside_temperature outside_top_p : F → Bool)
    (count : String → ℕ) (complete : ChatCompletionRequest F → Completion)
    (open_stream : ChatCompletionRequest F → Option (List Event)) (can_flush : Bool)
    (max_sequence_length : ℤ) where
  unfoldable pub too_long : ChatCompletionRequest F → Bool
  unfolding estimated_sequence_length
  too_long r =
      ltb_ℤ (pos 0) max_sequence_length
      && ltb_ℤ max_sequence_length (estimated_sequence_length count r)

  -- `none` is a body that does not decode.
  unfoldable pub chat_completions : Option (ChatCompletionRequest F) → ChatReply
  unfolding no_errors validate too_long complete_reply stream_reply
  chat_completions none = chat_error 400
  chat_completions (some r) =
      if not (no_errors (validate trim outside_temperature outside_top_p r))
      then chat_error 422
      else if too_long r
      then chat_error 422
      else if not r.is_stream
      then complete_reply (complete r)
      else if can_flush
      then stream_reply (open_stream r)
      else chat_error 500
