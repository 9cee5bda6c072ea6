-- ===== src/Tests/Chat.antt =====
-- Witnesses for internal/api/chat.go and handler.go, and a request that is longer than the limit.
use redline.Base.{
  ℕ, ◌+◌, min, String, ◌≡◌, refl, ◌↔◌, Bool, true, false, not, ◌&&◌, Option, none, some, List, [],
  ◌∷◌, ltb, length, keep_if, any_of, ℤ, pos, negsuc, ◌+ℤ◌, wrap64,
}
use redline.Chat.{
  ChatCompletionRequest, Completion, completed, Event, failed, token, chat_error, chat_completions,
  estimated_sequence_length, stream_events, Usage,
}
use redline.Chat.Valid.{is_good, is_over_limit}
use redline.Chat.Valid
use redline.Chat.Stream.{
  ends_with_marker, texts, before_failure, written_texts, is_done, is_failed, has_role, number,
  is_touch, is_first, is_latency, spoken,
}
use redline.Chat.Stream

-- Temperatures in tenths; a message counts as one word.
abbrev hot : ℕ → Bool
hot t = ltb 20 t

abbrev top : ℕ → Bool
top p = ltb 10 p

abbrev one_word : String → ℕ
one_word s = 1

abbrev no_usage : Usage
no_usage = record { prompt_tokens = pos 1; completion_tokens = pos 1 }

abbrev answers : ChatCompletionRequest ℕ → Completion
answers r = completed "m" "hello" "stop" no_usage

abbrev two_tokens : List Event
two_tokens = token "" ∷ token "a" ∷ token "b" ∷ failed ∷ token "c" ∷ []

abbrev opens : ChatCompletionRequest ℕ → Option (List Event)
opens r = some two_tokens

abbrev asking : Option ℤ → ChatCompletionRequest ℕ
asking max_tokens = record {
  model = "m";
  messages = record { role = "user"; content = "hi" } ∷ [];
  temperature = some 30;
  top_p = none;
  max_tokens = max_tokens;
  is_stream = false;
}

chat_completions-rejects_example :
    (chat_completions (λ s. s) hot top one_word answers opens true (pos 4096) (some (asking none))
      ≡ chat_error 422)
    ↔ ((is_good (λ s. s) hot top (asking none)
          && not
              (is_over_limit (λ s. s) hot top one_word answers opens true (pos 4096) (asking none)))
        ≡ false)
chat_completions-rejects_example =
    Valid.chat_completions-rejects (λ s. s) hot top one_word answers opens true (pos 4096)
      (asking none)

-- A max_tokens of 2^63 - 1 wraps the estimate round to a negative number, below any limit.
estimate_wraps :
    estimated_sequence_length one_word (asking (some (pos 9223372036854775807)))
    ≡ negsuc 9223372036854775807
unfolding estimated_sequence_length wrap64 ◌+ℤ◌
estimate_wraps = refl

stream_events-measured_example :
    let w = stream_events true false two_tokens in
    (written_texts w.frames ≡ texts (before_failure two_tokens))
    × (any_of is_done w.frames ≡ not (any_of is_failed two_tokens))
    × (ends_with_marker w.frames ≡ not (any_of is_failed two_tokens))
    × (length (keep_if has_role w.frames) ≡ min 1 (length (texts (before_failure two_tokens))))
    × (number is_touch w.observed ≡ spoken (before_failure two_tokens))
    × (number is_first w.observed ≡ min 1 (spoken (before_failure two_tokens)))
    × (number is_first w.observed + number is_latency w.observed ≡ number is_touch w.observed)
stream_events-measured_example = Stream.stream_events-measured two_tokens
