-- ===== src/Facade/Prompt.antt =====
-- The prompt of a request and its bound: apps/server/src/csapi/protocol.ts, `clipMiddle`,
-- `boundedInitialPrompt` and `buildPrompt`.
pub mod Bounds
pub mod Lines
pub mod Latest
use mathlib.Core.List.{reverse}
use cursor_gateway.Base.{
  ℕ, zero, suc, ◌+◌, ◌-◌, ◌*◌, ◌/◌, ◌%◌, ◌^◌, min, max, Bool, not, ◌&&◌, ◌||◌, Option, List, [],
  ◌∷◌, ◌++◌, map, ltb, leb, ◌==◌, if◌then◌else◌, length, coalesce,
}
use cursor_gateway.Table.{rows_where}
use cursor_gateway.Text.{Text, codes, take, slice_end, is_empty, trim, join, nonempty_texts}
use cursor_gateway.Facade.Messages.{NormalizedMessage, is_system, last_user_text, transcript_parts}

abbrev pub prompt_truncation_marker : Text
prompt_truncation_marker = codes "[Earlier context truncated by CS Gateway]"

-- `clipMiddle`
unfoldable pub clip_middle : (value : Text) → (max_chars : ℕ) → Text
unfolding slice_end take
clip_middle value max_chars =
    let available = max_chars - length prompt_truncation_marker - 2 in
    let head = (available + 1) / 2 in
    let tail = available - head in
    if leb (length value) max_chars
    then value
    else if leb max_chars (length prompt_truncation_marker + 2)
    then slice_end max_chars value
    else take head value
      ++ codes "\n"
      ++ prompt_truncation_marker
      ++ codes "\n"
      ++ slice_end tail value

-- The bits of a product beyond the 53 of a double.
unfoldable pub excess_bits : (fuel : ℕ) → ℕ → ℕ
excess_bits zero p = 0
excess_bits (suc fuel) p =
    let rest = excess_bits fuel (p / 2) in if ltb p (2 ^ 53) then 0 else suc rest

-- A double has 53 bits: the nearest one to `p`, of two the even one.
unfoldable pub nearest_double : ℕ → ℕ
unfolding excess_bits
nearest_double p =
    let k = excess_bits 64 p in
    let low = p / 2 ^ k in
    let left = p % 2 ^ k in
    if ltb (2 ^ k) (2 * left) || (2 ^ k == 2 * left && low % 2 == 1)
    then suc low * 2 ^ k
    else low * 2 ^ k

-- `Math.floor(maxChars * 0.35)`: the double 0.35 is 6305039478318694 / 2^54.
unfoldable pub system_share : ℕ → ℕ
unfolding nearest_double
system_share max_chars = nearest_double (max_chars * 6305039478318694) / 2 ^ 54

abbrev separator_size : List Text → ℕ
separator_size [] = 0
separator_size (r ∷ rs) = 2

-- The loop over the parts, the latest one first.
unfoldable pub fill_recent :
    (latest_first : List Text) → (remaining : ℕ) → (recent : List Text) → List Text
unfolding clip_middle
fill_recent [] remaining recent = recent
fill_recent (part ∷ older) remaining recent =
    let size = length part + separator_size recent in
    let rest = fill_recent older (remaining - size) (part ∷ recent) in
    let available = remaining - separator_size recent in
    if not (ltb 0 remaining)
    then recent
    else if leb size remaining
    then rest
    else if ltb 0 available
    then clip_middle part available ∷ recent
    else recent

abbrev pub marker_block : Text
marker_block = codes "\n\n" ++ prompt_truncation_marker ++ codes "\n\n"

-- The system prompt as it is sent with a truncated transcript.
unfoldable pub clipped_system : (system : Text) → (max_chars : ℕ) → Text
unfolding clip_middle system_share
clipped_system system max_chars = clip_middle system (min (length system) (system_share max_chars))

-- The prompt that is not truncated.
unfoldable pub full_prompt : (system : Text) → (messages : List NormalizedMessage) → Text
unfolding transcript_parts join nonempty_texts trim
full_prompt system messages = trim (
    join (codes "\n\n")
      (nonempty_texts (system ∷ join (codes "\n\n") (transcript_parts messages) ∷ [])))

-- `boundedInitialPrompt`
unfoldable pub bounded_initial_prompt :
    (system : Text) → (messages : List NormalizedMessage) → (max_chars : ℕ) → Text
unfolding full_prompt clipped_system fill_recent transcript_parts join trim take
bounded_initial_prompt system messages max_chars =
    let clipped = clipped_system system max_chars in
    let remaining = max_chars - length clipped - length marker_block in
    let recent = fill_recent (reverse (transcript_parts messages)) remaining [] in
    if leb (length (full_prompt system messages)) max_chars
    then full_prompt system messages
    else trim (take max_chars (clipped ++ marker_block ++ join (codes "\n\n") recent))

pub data PromptMode : Type 0 where
  stateless session_first session_continued : PromptMode

pub record PromptInput : Type 0 where
  pub system : Text
  pub messages : List NormalizedMessage
  pub mode : PromptMode
  pub max_chars : Option ℕ

abbrev message_texts : List NormalizedMessage → List Text
unfolding trim
message_texts [] = []
message_texts (m ∷ ms) = trim m.text ∷ message_texts ms

-- The system prompt of the field `system` and of the system messages.
unfoldable pub system_prompt : PromptInput → Text
unfolding trim nonempty_texts join rows_where
system_prompt i = join (codes "\n\n") (
    nonempty_texts (
      trim i.system
      ∷ join (codes "\n\n") (
          message_texts (
            rows_where
              (λ m.
                is_system (NormalizedMessage.role m)
                && not (is_empty (trim (NormalizedMessage.text m))))
              i.messages))
      ∷ []))

-- `maxChars`, with `Number.MAX_SAFE_INTEGER` for a missing one.
unfoldable pub prompt_limit : PromptInput → ℕ
prompt_limit i = max 1 (coalesce i.max_chars 9007199254740991)

-- `buildPrompt`, by its mode.
unfoldable pub prompt_of : PromptMode → PromptInput → Text
unfolding system_prompt prompt_limit bounded_initial_prompt last_user_text clip_middle trim
prompt_of PromptMode.stateless i =
    bounded_initial_prompt (system_prompt i) i.messages (prompt_limit i)
prompt_of PromptMode.session_first i =
    bounded_initial_prompt (system_prompt i) i.messages (prompt_limit i)
prompt_of PromptMode.session_continued i =
    clip_middle (trim (coalesce (last_user_text i.messages) [])) (prompt_limit i)

-- `buildPrompt`
unfoldable pub build_prompt : PromptInput → Text
unfolding prompt_of
build_prompt i = prompt_of i.mode i
