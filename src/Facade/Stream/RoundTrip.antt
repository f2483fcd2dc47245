-- ===== src/Facade/Stream/RoundTrip.antt =====
-- What a client puts together from a stream is what the single response says.
use mathlib.Core.List.{append_assoc, append-nil}
use cursor_gateway.Base.{
  ℕ, zero, suc, ◌+◌, ◌-◌, ◌≤◌, Bool, true, false, none, some, List, [], ◌∷◌, ◌++◌, map, ◌≡◌, refl,
  sym, ap, ◌∙◌, arith, ltb, min, length, Bool-cases, inl, inr, All,
}
use cursor_gateway.Text.{Text, take, drop, slice, concat}
use cursor_gateway.Text.Laws.{length-take, length-drop, take-drop, drop-drop, drop-none}
use cursor_gateway.Facade.Stream.{
  chunk_size, chunks_from, chunk_text, Answer, StopReason, AnthropicFrame, build_anthropic_response,
  build_anthropic_stream_frames, OpenAiDelta, OpenAiFrame, build_open_ai_response, open_ai_frame,
  build_open_ai_stream_frames,
}

-- Enough fuel: what the loop returns from an index on is the rest of the text.
chunks_from-concat :
    (fuel size : ℕ) (text : Text) (i : ℕ)
    → 1 ≤ size
    → length text ≤ fuel + i
    → concat (chunks_from fuel size text i) ≡ drop i text
unfolding chunks_from concat slice
chunks_from-concat zero size text i h enough =
    let small : length text ≤ i = omega (arith, enough) in sym (drop-none i text small)
chunks_from-concat (suc fuel) size text i h enough = elim (Bool-cases (ltb i (length text))) [
  | inr over ↦
      let small : length text ≤ i = ground (arith, over) in rw over (sym (drop-none i text small))
  | inl more ↦
      let e : i + size - i ≡ size = omega arith in
      rw
        (
          more,
          e,
          chunks_from-concat fuel size text (i + size) h (omega (arith, h, enough)),
          sym (drop-drop i size text),
        )
        (take-drop size (drop i text))
]

-- A chunk that the client is sent.
pub IsChunk : (size : ℕ) → Text → Type 0
IsChunk size chunk = (1 ≤ length chunk) × (length chunk ≤ size)

chunks_from-IsChunk :
    (fuel size : ℕ) (text : Text) (i : ℕ)
    → 1 ≤ size
    → All (IsChunk size) (chunks_from fuel size text i)
unfolding chunks_from slice IsChunk
chunks_from-IsChunk zero size text i h = tt
chunks_from-IsChunk (suc fuel) size text i h = elim (Bool-cases (ltb i (length text))) [
  | inr over ↦ rw over tt
  | inl more ↦
      let n : length (take (i + size - i) (drop i text)) ≡ min (i + size - i) (length text - i) =
        length-take (i + size - i) (drop i text) ∙ ap (min (i + size - i)) (length-drop i text) in
      rw more (
        (ground (arith, more, n, h), ground (arith, more, n, h)),
        chunks_from-IsChunk fuel size text (i + size) h,
      )
]

-- For a size of at least 1, the chunks of a text, one after the other, are the text, and each of
-- them has at least one code unit and at most `size`: the loop ends and loses nothing.
pub chunk_text-concat :
    (size : ℕ) (text : Text)
    → 1 ≤ size
    → (concat (chunk_text size text) ≡ text) × All (IsChunk size) (chunk_text size text)
unfolding chunk_text concat drop
chunk_text-concat size [] h = (refl, tt)
chunk_text-concat size (x ∷ xs) h = (
  chunks_from-concat (length (x ∷ xs)) size (x ∷ xs) 0 h (omega arith),
  chunks_from-IsChunk (length (x ∷ xs)) size (x ∷ xs) 0 h,
)

-- What a client of the Anthropic stream appends.
abbrev pub anthropic_delta : AnthropicFrame → Text
anthropic_delta (AnthropicFrame.content_block_delta i t) = t
anthropic_delta (AnthropicFrame.message_start id m i o) = []
anthropic_delta (AnthropicFrame.content_block_start i t) = t
anthropic_delta AnthropicFrame.ping = []
anthropic_delta (AnthropicFrame.content_block_stop i) = []
anthropic_delta (AnthropicFrame.message_delta r o) = []
anthropic_delta AnthropicFrame.message_stop = []

-- What a client of the OpenAI stream appends.
abbrev pub delta_text : OpenAiDelta → Text
delta_text OpenAiDelta.role_delta = []
delta_text (OpenAiDelta.content_delta t) = t
delta_text OpenAiDelta.empty_delta = []

module _ {ℓ} {F : Type ℓ} (text_of : F → Text) where
  abbrev pub received : List F → Text
  received [] = []
  received (f ∷ fs) = text_of f ++ received fs

  received-append : (fs gs : List F) → received (fs ++ gs) ≡ received fs ++ received gs
  received-append [] gs = refl
  received-append (f ∷ fs) gs =
      rw (received-append fs gs) (sym (append_assoc (text_of f) (received fs) (received gs)))

  received-map :
      (frame : Text → F) (same : (t : Text) → text_of (frame t) ≡ t) (ts : List Text)
      → received (map frame ts) ≡ concat ts
  unfolding concat
  received-map frame same [] = refl
  received-map frame same (t ∷ ts) = rw (same t, received-map frame same ts) refl

anthropic-streamed :
    (a : Answer)
    → received anthropic_delta (build_anthropic_stream_frames a)
      ≡ concat ((build_anthropic_response a).content)
unfolding build_anthropic_stream_frames build_anthropic_response concat
anthropic-streamed a =
    let chunks = chunk_text chunk_size a.text in
    received-append anthropic_delta (map (AnthropicFrame.content_block_delta 0) chunks) (
      AnthropicFrame.content_block_stop 0
      ∷ AnthropicFrame.message_delta StopReason.end_turn a.output_tokens
      ∷ AnthropicFrame.message_stop
      ∷ [])
    ∙ ap (λ (t : Text). t ++ [])
        (received-map anthropic_delta (AnthropicFrame.content_block_delta 0) (λ t. refl) chunks
          ∙ (chunk_text-concat chunk_size a.text (omega arith)).0)

open_ai-contents :
    (created : ℕ) (a : Answer)
    → received
        (λ f. delta_text (OpenAiFrame.delta f))
        (map
            (λ c. open_ai_frame created a (OpenAiDelta.content_delta c) none)
            (chunk_text chunk_size a.text)
          ++ open_ai_frame created a OpenAiDelta.empty_delta (some StopReason.stop) ∷ [])
      ≡ a.text
unfolding open_ai_frame
open_ai-contents created a =
    let read : OpenAiFrame → Text = λ f. delta_text (OpenAiFrame.delta f) in
    let frame : Text → OpenAiFrame =
      λ c. open_ai_frame created a (OpenAiDelta.content_delta c) none in
    let chunks = chunk_text chunk_size a.text in
    received-append read (map frame chunks)
      (open_ai_frame created a OpenAiDelta.empty_delta (some StopReason.stop) ∷ [])
    ∙ ap (λ (t : Text). t ++ []) (received-map read frame (λ t. refl) chunks)
    ∙ append-nil (concat chunks)
    ∙ (chunk_text-concat chunk_size a.text (omega arith)).0

open_ai-streamed :
    (created : ℕ) (include_role : Bool) (a : Answer)
    → received
        (λ f. delta_text (OpenAiFrame.delta f))
        (build_open_ai_stream_frames created include_role a)
      ≡ (build_open_ai_response created a).content
unfolding build_open_ai_stream_frames build_open_ai_response open_ai_frame
open_ai-streamed created true a = open_ai-contents created a
open_ai-streamed created false a = open_ai-contents created a

-- For every answer, the deltas of either stream, put together, are the content of the single
-- response, with or without the frame of the OpenAI stream that names the role.
pub stream_frames-response :
    (created : ℕ) (include_role : Bool) (a : Answer)
    → (received anthropic_delta (build_anthropic_stream_frames a)
        ≡ concat ((build_anthropic_response a).content))
      × (received
            (λ f. delta_text (OpenAiFrame.delta f))
            (build_open_ai_stream_frames created include_role a)
          ≡ (build_open_ai_response created a).content)
stream_frames-response created include_role a =
    (anthropic-streamed a, open_ai-streamed created include_role a)
