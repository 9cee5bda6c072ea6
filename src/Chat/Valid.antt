-- ===== src/Chat/Valid.antt =====
-- internal/api/chat.go and handler.go: which requests are rejected.
use redline.Base.{
  ℕ, suc, ◌+◌, String, ◌≡◌, refl, sym, ap, subst, ◌≢◌, ◌↔◌, inl, inr, Bool, true, false, not, ◌&&◌,
  Option, none, some, List, [], ◌∷◌, ◌++◌, arith, ltb, if◌then◌else◌, Option-cases, length, all_of,
  contains, ℤ, pos, ◌+ℤ◌, ltb_ℤ, leb_ℤ, wrap64, is_empty,
}
use redline.Inference.{Message}
use redline.Chat.{
  ChatCompletionRequest, FieldError, is_valid_role, no_errors, only_if, message_errors, fails,
  is_not_positive, validate, too_long, words_of, estimated_sequence_length, chat_completions,
  Completion, completed, deadline_exceeded, completion_failed, Event, ChatReply, chat_error,
  complete_reply, stream_reply,
}

append-none : (xs ys : List FieldError) → no_errors (xs ++ ys) ≡ (no_errors xs && no_errors ys)
unfolding no_errors
append-none [] ys = refl
append-none (x ∷ xs) ys = refl

only_if-none : (b : Bool) (e : FieldError) → no_errors (only_if b e) ≡ not b
unfolding only_if no_errors
only_if-none b e = ground arith

module _ {F : Type 0} (trim : String → String) (outside_temperature outside_top_p : F → Bool) where
  -- What a message must be, and a request.
  abbrev pub is_good_message : Message → Bool
  is_good_message m =
      contains m.role ("system" ∷ "user" ∷ "assistant" ∷ []) && not (is_empty (trim m.content))

  abbrev pub absent_or : {A : Type 0} → (A → Bool) → Option A → Bool
  absent_or p none = true
  absent_or p (some x) = p x

  abbrev pub is_good : ChatCompletionRequest F → Bool
  is_good r =
      not (is_empty (trim r.model))
      && ltb 0 (length r.messages)
      && all_of is_good_message r.messages
      && absent_or (λ t. not (outside_temperature t)) r.temperature
      && absent_or (λ p. not (outside_top_p p)) r.top_p
      && absent_or (λ n. ltb_ℤ (pos 0) n) r.max_tokens

  message_errors-none :
      (i : ℕ) (ms : List Message)
      → no_errors (message_errors trim outside_temperature outside_top_p i ms)
        ≡ all_of is_good_message ms
  unfolding message_errors no_errors is_valid_role
  message_errors-none i [] = refl
  message_errors-none i (m ∷ ms) =
      simp (append-none, only_if-none, message_errors-none (suc i) ms) (ground arith)

  validate-none :
      (r : ChatCompletionRequest F)
      → no_errors (validate trim outside_temperature outside_top_p r) ≡ is_good r
  unfolding validate fails is_not_positive
  validate-none r =
      simp (append-none, only_if-none, message_errors-none)
        (ground
          (arith, Option-cases r.temperature, Option-cases r.top_p, Option-cases r.max_tokens))

not_422_complete : (c : Completion) → complete_reply c ≢ chat_error 422
unfolding complete_reply
not_422_complete (completed a b c u) e = let no : ⊥ = ground (arith, e) in elim no [ ]
not_422_complete deadline_exceeded e = let no : ⊥ = ground (arith, e) in elim no [ ]
not_422_complete completion_failed e = let no : ⊥ = ground (arith, e) in elim no [ ]

not_422_stream : (o : Option (List Event)) → stream_reply o ≢ chat_error 422
unfolding stream_reply
not_422_stream none e = let no : ⊥ = ground (arith, e) in elim no [ ]
not_422_stream (some es) e = let no : ⊥ = ground (arith, e) in elim no [ ]

not_422 : chat_error 500 ≢ chat_error 422
not_422 e = let no : ⊥ = ground (arith, e) in elim no [ ]

true≢false : true ≢ false
true≢false e = let no : ⊥ = ground (arith, e) in elim no [ ]

-- The handler's guards, over the answers `a` and `b` of the backend.
abbrev guards : Bool → Bool → Bool → Bool → ChatReply → ChatReply → ChatReply
guards valid long streams flushes a b =
    if not valid
    then chat_error 422
    else if long
    then chat_error 422
    else if not streams
    then a
    else if flushes
    then b
    else chat_error 500

guards-rejects :
    (valid long streams flushes : Bool) (a b : ChatReply)
    → a ≢ chat_error 422
    → b ≢ chat_error 422
    → (guards valid long streams flushes a b ≡ chat_error 422) ↔ ((valid && not long) ≡ false)
guards-rejects false long streams flushes a b na nb = (λ _. refl, λ _. refl)
guards-rejects true true streams flushes a b na nb = (λ _. refl, λ _. refl)
guards-rejects true false false flushes a b na nb = (λ e. absurd (na e), λ e. absurd (true≢false e))
guards-rejects true false true true a b na nb = (λ e. absurd (nb e), λ e. absurd (true≢false e))
guards-rejects true false true false a b na nb =
    (λ e. absurd (not_422 e), λ e. absurd (true≢false e))

module _ {F : Type 0} (trim : String → String) (outside_temperature outside_top_p : F → Bool)
    (count : String → ℕ) (complete : ChatCompletionRequest F → Completion)
    (open_stream : ChatCompletionRequest F → Option (List Event)) (can_flush : Bool)
    (max_sequence_length : ℤ) where
  -- The words of the messages and the tokens asked for, added as an int64.
  abbrev pub words : List Message → ℕ
  words [] = 0
  words (m ∷ ms) = count m.content + words ms

  abbrev pub length_with : ℕ → Option ℤ → ℤ
  length_with n none = pos n
  length_with n (some m) = wrap64 (pos n +ℤ m)

  -- A limit that is set, and below the length.
  abbrev pub is_over_limit : ChatCompletionRequest F → Bool
  is_over_limit r =
      not (leb_ℤ max_sequence_length (pos 0))
      && not (leb_ℤ (length_with (words r.messages) r.max_tokens) max_sequence_length)

  words_of-words : (ms : List Message) → words_of count ms ≡ words ms
  unfolding words_of
  words_of-words [] = refl
  words_of-words (m ∷ ms) = omega (arith, words_of-words ms)

  estimated-length_with :
      (r : ChatCompletionRequest F)
      → estimated_sequence_length count r ≡ length_with (words r.messages) r.max_tokens
  unfolding estimated_sequence_length
  estimated-length_with r = elim (Option-cases r.max_tokens) [
    | inl e ↦ rw e (ap pos (words_of-words r.messages))
    | inr (n, e) ↦ rw e (ap (λ k. wrap64 (pos k +ℤ n)) (words_of-words r.messages))
  ]

  too_long-is_over_limit :
      (r : ChatCompletionRequest F)
      → too_long trim outside_temperature outside_top_p count complete open_stream can_flush
          max_sequence_length r
        ≡ is_over_limit r
  unfolding too_long
  too_long-is_over_limit r = ground (arith, estimated-length_with r)

  -- A request that decodes is answered with status 422, whatever the backend's answers are, exactly if
  -- its model or a message is empty once trimmed, it has no message, a role is not one of the
  -- three, its temperature or its top_p is outside its range, its max_tokens is not positive, or
  -- a limit is set and below the words of its messages and its max_tokens, added as an int64.
  pub chat_completions-rejects :
      (r : ChatCompletionRequest F)
      → (chat_completions trim outside_temperature outside_top_p count complete open_stream
            can_flush max_sequence_length
            (some r)
          ≡ chat_error 422)
        ↔ ((is_good trim outside_temperature outside_top_p r && not (is_over_limit r)) ≡ false)
  unfolding chat_completions
  chat_completions-rejects r =
      let valid = validate-none trim outside_temperature outside_top_p r in
      let long = too_long-is_over_limit r in
      subst
        (λ l.
          (guards (no_errors (validate trim outside_temperature outside_top_p r)) l r.is_stream
              can_flush (complete_reply (complete r)) (stream_reply (open_stream r))
            ≡ chat_error 422)
          ↔ ((is_good trim outside_temperature outside_top_p r && not (is_over_limit r)) ≡ false))
        (sym long)
        (subst
          (λ v.
            (guards v (is_over_limit r) r.is_stream can_flush (complete_reply (complete r))
                (stream_reply (open_stream r))
              ≡ chat_error 422)
            ↔ ((is_good trim outside_temperature outside_top_p r && not (is_over_limit r)) ≡ false))
          (sym valid)
          (guards-rejects (is_good trim outside_temperature outside_top_p r) _ r.is_stream can_flush
            _ _ (not_422_complete (complete r)) (not_422_stream (open_stream r))))
