-- ===== src/Facade/Stream.antt =====
-- The answer of a completed run as one response and as a stream of events:
-- apps/server/src/csapi/protocol.ts, `chunkText` and the response and frame builders. A frame is the
-- event it carries, with the fields that differ between frames of one stream.
pub mod RoundTrip
use cursor_gateway.Base.{
  ℕ, zero, suc, ◌+◌, ◌-◌, ◌/◌, max, Bool, Option, none, some, List, [], ◌∷◌, ◌++◌, map, ltb, length,
  if◌then◌else◌,
}
use cursor_gateway.Text.{Text, slice, is_empty}

-- The default of `size`.
abbrev pub chunk_size : ℕ
chunk_size = 96

-- The loop of `chunkText`, from the index `i` on; every pass but the last moves the index.
unfoldable pub chunks_from : (fuel : ℕ) → (size : ℕ) → Text → (i : ℕ) → List Text
unfolding slice
chunks_from zero size text i = []
chunks_from (suc fuel) size text i =
    let rest = chunks_from fuel size text (i + size) in
    if ltb i (length text) then slice i (i + size) text ∷ rest else []

-- `chunkText`
unfoldable pub chunk_text : (size : ℕ) → Text → List Text
unfolding chunks_from
chunk_text size text = if is_empty text then [] else chunks_from (length text) size text 0

-- `estimateTokens`
unfoldable pub estimate_tokens : Text → ℕ
estimate_tokens text = if is_empty text then 0 else max 1 ((length text + 3) / 4)

pub record Answer : Type 0 where
  pub id : Text
  pub model : Text
  pub text : Text
  pub input_tokens : ℕ
  pub output_tokens : ℕ

-- `stop_reason` and `finish_reason`
pub data StopReason : Type 0 where
  end_turn stop : StopReason

pub record AnthropicResponse : Type 0 where
  pub id : Text
  pub model : Text
  pub content : List Text
  pub stop_reason : StopReason
  pub input_tokens : ℕ
  pub output_tokens : ℕ

-- `buildAnthropicResponse`
unfoldable pub build_anthropic_response : Answer → AnthropicResponse
build_anthropic_response a = record {
  id = a.id;
  model = a.model;
  content = a.text ∷ [];
  stop_reason = StopReason.end_turn;
  input_tokens = a.input_tokens;
  output_tokens = a.output_tokens;
}

pub data AnthropicFrame : Type 0 where
  message_start : (id model : Text) → (input_tokens output_tokens : ℕ) → AnthropicFrame
  content_block_start : (index : ℕ) → (text : Text) → AnthropicFrame
  ping : AnthropicFrame
  content_block_delta : (index : ℕ) → (text : Text) → AnthropicFrame
  content_block_stop : (index : ℕ) → AnthropicFrame
  message_delta : StopReason → (output_tokens : ℕ) → AnthropicFrame
  message_stop : AnthropicFrame

-- `buildAnthropicStreamFrames`
unfoldable pub build_anthropic_stream_frames : Answer → List AnthropicFrame
unfolding chunk_text
build_anthropic_stream_frames a =
    AnthropicFrame.message_start a.id a.model a.input_tokens 0
      ∷ AnthropicFrame.content_block_start 0 []
      ∷ AnthropicFrame.ping
      ∷ map (AnthropicFrame.content_block_delta 0) (chunk_text chunk_size a.text)
    ++ AnthropicFrame.content_block_stop 0
      ∷ AnthropicFrame.message_delta StopReason.end_turn a.output_tokens
      ∷ AnthropicFrame.message_stop
      ∷ []

pub record OpenAiResponse : Type 0 where
  pub id : Text
  pub created : ℕ
  pub model : Text
  pub content : Text
  pub finish_reason : StopReason
  pub prompt_tokens : ℕ
  pub completion_tokens : ℕ
  pub total_tokens : ℕ

-- `buildOpenAiResponse`, given the time of its creation.
unfoldable pub build_open_ai_response : (created : ℕ) → Answer → OpenAiResponse
build_open_ai_response created a = record {
  id = a.id;
  created = created;
  model = a.model;
  content = a.text;
  finish_reason = StopReason.stop;
  prompt_tokens = a.input_tokens;
  completion_tokens = a.output_tokens;
  total_tokens = a.input_tokens + a.output_tokens;
}

pub data OpenAiDelta : Type 0 where
  role_delta : OpenAiDelta
  content_delta : (text : Text) → OpenAiDelta
  empty_delta : OpenAiDelta

pub record OpenAiFrame : Type 0 where
  pub id : Text
  pub created : ℕ
  pub model : Text
  pub delta : OpenAiDelta
  pub finish_reason : Option StopReason

unfoldable pub open_ai_frame : ℕ → Answer → OpenAiDelta → Option StopReason → OpenAiFrame
open_ai_frame at a delta reason = record {
  id = a.id;
  created = at;
  model = a.model;
  delta = delta;
  finish_reason = reason;
}

-- `buildOpenAiStreamFrames`
unfoldable pub build_open_ai_stream_frames :
    (created : ℕ) → (include_role : Bool) → Answer → List OpenAiFrame
unfolding chunk_text open_ai_frame
build_open_ai_stream_frames created include_role a =
    (if include_role then open_ai_frame created a OpenAiDelta.role_delta none ∷ [] else [])
    ++ map (λ c. open_ai_frame created a (OpenAiDelta.content_delta c) none)
        (chunk_text chunk_size a.text)
    ++ open_ai_frame created a OpenAiDelta.empty_delta (some StopReason.stop) ∷ []
