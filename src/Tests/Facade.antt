-- ===== src/Tests/Facade.antt =====
-- The csapi facade at concrete inputs.
use mathlib.Core.List.{reverse}
use cursor_gateway.Base.{
  ◌≢◌, ℕ, zero, suc, ◌+◌, ◌-◌, ◌≤◌, true, none, some, List, [], ◌∷◌, ◌++◌, ◌≡◌, refl, arith, length,
  All,
}
use cursor_gateway.Text.{Text, codes, concat, drop}
use cursor_gateway.Facade.Keys.{
  utf8, match_api_key, assert_unique_api_key_ids, api_key_id, Header, extract_api_key,
}
use cursor_gateway.Facade.Keys.Isolation.{match_api_key-isolated}
use cursor_gateway.Facade.Messages.{
  ChatRole, NormalizedMessage, transcript_line, transcript_parts, resolve_session_key,
}
use cursor_gateway.Facade.Prompt.{
  PromptInput, PromptMode, prompt_limit, build_prompt, clip_middle, system_prompt, clipped_system,
  system_share,
}
use cursor_gateway.Facade.Prompt.Bounds.{length-build_prompt}
use cursor_gateway.Facade.Prompt.Lines.{EndsWith}
use cursor_gateway.Facade.Prompt.Latest.{build_prompt-EndsWith, cut_at}
use cursor_gateway.Facade.Stream.{
  chunk_text, Answer, build_anthropic_response, build_anthropic_stream_frames, OpenAiFrame,
  build_open_ai_response, build_open_ai_stream_frames,
}
use cursor_gateway.Facade.Stream.RoundTrip.{
  IsChunk, chunk_text-concat, anthropic_delta, delta_text, received, stream_frames-response,
}
use cursor_gateway.Facade.Models.{build_models_response}

chunk_text-concat_example :
    (concat (chunk_text 3 (codes "hello gateway")) ≡ codes "hello gateway")
    × All (IsChunk 3) (chunk_text 3 (codes "hello gateway"))
chunk_text-concat_example = chunk_text-concat 3 (codes "hello gateway") (omega arith)

abbrev answer : Answer
answer = record {
  id = codes "msg_1";
  model = codes "auto";
  text = codes "A reply.";
  input_tokens = 7;
  output_tokens = 2;
}

stream_frames-response_example :
    (received anthropic_delta (build_anthropic_stream_frames answer)
      ≡ concat ((build_anthropic_response answer).content))
    × (received (λ f. delta_text (OpenAiFrame.delta f)) (build_open_ai_stream_frames 5 true answer)
        ≡ (build_open_ai_response 5 answer).content)
stream_frames-response_example = stream_frames-response 5 true answer

abbrev api_keys : List Text
api_keys = codes "key-a" ∷ [] ∷ codes "key-b" ∷ []

unique_ids : assert_unique_api_key_ids api_keys ≡ none
unfolding assert_unique_api_key_ids
unique_ids = refl

matched : match_api_key (some (codes "key-b")) api_keys ≡ some (api_key_id (codes "key-b"))
unfolding match_api_key
matched = refl

match_api_key-isolated_example : utf8 (codes "key-b") ≡ utf8 (codes "key-b")
match_api_key-isolated_example =
    match_api_key-isolated api_keys (codes "key-b") (codes "key-b") (api_key_id (codes "key-b"))
      unique_ids matched matched

-- Two listed keys with one id stop the start.
repeated_key_refused : assert_unique_api_key_ids (codes "key-a" ∷ codes "key-a" ∷ []) ≢ none
unfolding assert_unique_api_key_ids
repeated_key_refused = λ e. absurd (cc)

bearer_key :
    extract_api_key Header.missing (Header.single (codes "bearer  sk-1 ")) ≡ some (codes "sk-1")
unfolding extract_api_key
bearer_key = refl

session_of_body :
    resolve_session_key (Header.single (codes "  ")) none (some (codes " s1 ")) none
    ≡ some (codes "s1")
unfolding resolve_session_key
session_of_body = refl

models_listed :
    build_models_response (codes "auto" ∷ codes "gpt" ∷ codes "gpt" ∷ [])
    ≡ codes "auto" ∷ codes "gpt" ∷ []
unfolding build_models_response
models_listed = refl

abbrev says : ChatRole → Text → NormalizedMessage
says r t = record { role = r; text = t }

-- Texts of many characters.
abbrev long : ℕ → Text
long zero = []
long (suc n) = 97 ∷ long n

abbrev earlier : List NormalizedMessage
earlier = says ChatRole.user (long 60) ∷ says ChatRole.assistant (long 90) ∷ []

abbrev latest : NormalizedMessage
latest = says ChatRole.user (codes "And now?")

abbrev long_request : PromptInput
long_request = record {
  system = codes "Be brief.";
  messages = earlier ++ (latest ∷ []);
  mode = PromptMode.session_first;
  max_chars = some 150;
}

length-build_prompt_example : length (build_prompt long_request) ≤ prompt_limit long_request
length-build_prompt_example = length-build_prompt long_request refl

room :
    length (clipped_system (system_prompt long_request) (prompt_limit long_request))
      + 45
      + length (transcript_line latest)
    ≤ prompt_limit long_request
unfolding clipped_system system_prompt prompt_limit transcript_line
room = omega arith

not_44 :
    cut_at (reverse (transcript_parts earlier)) (
      prompt_limit long_request
      - length (clipped_system (system_prompt long_request) (prompt_limit long_request))
      - 45
      - length (transcript_line latest))
    ≢ 44
unfolding cut_at transcript_parts clipped_system system_prompt prompt_limit transcript_line
not_44 e = absurd (omega (arith, e))

build_prompt-EndsWith_example : EndsWith (transcript_line latest) (build_prompt long_request)
build_prompt-EndsWith_example =
    build_prompt-EndsWith long_request earlier latest refl refl refl room not_44

-- A text that is cut to 44 characters is longer than before.
clip_44 : length (clip_middle (long 60) 44) ≡ 104
unfolding clip_middle
clip_44 = refl

-- And one that is cut to none stays whole.
clip_0 : clip_middle (codes "abc") 0 ≡ codes "abc"
unfolding clip_middle
clip_0 = refl

-- The doubles below 35 hundredths.
share_180 : system_share 180 ≡ 62
unfolding system_share
share_180 = refl

-- An earlier message that is cut to 44 characters takes the place of the latest one: the prompt ends
-- within the earlier message.
abbrev lost_request : PromptInput
lost_request = record {
  system = [];
  messages = says ChatRole.user (long 90) ∷ latest ∷ [];
  mode = PromptMode.stateless;
  max_chars = some 105;
}

latest_lost : drop 99 (build_prompt lost_request) ≡ codes "aaaa"
unfolding build_prompt drop
latest_lost = refl
