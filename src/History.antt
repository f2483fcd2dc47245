-- ===== src/History.antt =====
-- The conversation history that is sent with a run: apps/server/src/history.ts. A text is the list
-- of its UTF-16 code units, which is what `length` and `slice` of the source count.
pub mod Bounds
use mathlib.Core.List.{reverse}
use cursor_gateway.Text.{take}
use cursor_gateway.Base.{
  ℕ, ◌+◌, ◌-◌, Bool, true, false, not, ◌&&◌, List, [], ◌∷◌, ltb, leb, min, if◌then◌else◌, length,
}

abbrev pub max_history_turns : ℕ
max_history_turns = 20

abbrev pub max_history_characters : ℕ
max_history_characters = 48000

pub record ConversationTurn : Type 0 where
  pub prompt : List ℕ
  pub response : List ℕ

-- `turn.prompt.length + turn.response.length`
unfoldable pub turn_characters : ConversationTurn → ℕ
turn_characters t = length t.prompt + length t.response

-- The turn, or as much of it as the remaining characters allow.
unfoldable pub fitted : (remaining : ℕ) → ConversationTurn → ConversationTurn
unfolding turn_characters take
fitted remaining t = if leb (turn_characters t) remaining then t else record {
  prompt = take (min (length t.prompt) remaining) t.prompt;
  response = take (remaining - length t.prompt) t.response;
}

-- The loop, over the turns from the latest one on; `selected` is in the order of the result.
unfoldable pub select :
    List ConversationTurn
    → (selected : List ConversationTurn) → (characters : ℕ) → List ConversationTurn
unfolding fitted turn_characters
select [] selected characters = selected
select (t ∷ older) selected characters =
    let remaining = max_history_characters - characters in
    let rest =
      select older (fitted remaining t ∷ selected)
        (characters + min (turn_characters t) remaining) in
    if not (ltb (length selected) max_history_turns)
    then selected
    else if ltb 0 (length selected) && ltb max_history_characters (characters + turn_characters t)
    then selected
    else rest

-- `truncateConversationHistory`
unfoldable pub truncate_conversation_history : List ConversationTurn → List ConversationTurn
unfolding select
truncate_conversation_history history = select (reverse history) [] 0
