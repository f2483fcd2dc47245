-- ===== src/History/Bounds.antt =====
-- The size of the history that is sent.
use mathlib.Core.List.{reverse, reverse_aux, reverse-reverse}
use cursor_gateway.Text.Laws.{length-take}
use cursor_gateway.Base.{
  ℕ, ◌+◌, ◌-◌, ◌≤◌, true, false, ◌&&◌, List, [], ◌∷◌, ◌≡◌, refl, ◌∙◌, arith, ltb, min, length,
  Bool-cases, inl, inr,
}
use cursor_gateway.History.{
  max_history_turns, max_history_characters, ConversationTurn, turn_characters, fitted, select,
  truncate_conversation_history,
}

-- The characters of all turns.
abbrev pub characters_of : List ConversationTurn → ℕ
characters_of [] = 0
characters_of (t ∷ ts) = turn_characters t + characters_of ts

fitted-characters :
    (n : ℕ) (t : ConversationTurn) → turn_characters (fitted n t) ≡ min (turn_characters t) n
unfolding fitted turn_characters
fitted-characters n t = ground (
  arith,
  length-take (min (length t.prompt) n) t.prompt,
  length-take (n - length t.prompt) t.response,
)

select-bounded :
    (ts selected : List ConversationTurn) (characters : ℕ)
    → length selected ≤ max_history_turns
    → characters_of selected ≡ characters
    → characters ≤ max_history_characters
    → (length (select ts selected characters) ≤ max_history_turns)
      × (characters_of (select ts selected characters) ≤ max_history_characters)
unfolding select
select-bounded [] selected characters few same h = (few, ground (arith, same, h))
select-bounded (t ∷ older) selected characters few same h =
    elim (Bool-cases (ltb (length selected) max_history_turns)) [
      | inr full ↦ rw full (few, ground (arith, same, h))
      | inl free ↦
          elim (Bool-cases (
            ltb 0 (length selected)
            && ltb max_history_characters (characters + turn_characters t))) [
              | inl over ↦ rw (free, over) (few, ground (arith, same, h))
              | inr fits ↦
                  rw (free, fits)
                    (select-bounded older _ _ (ground (arith, free))
                      (omega
                        (arith, same, h, fitted-characters (max_history_characters - characters) t))
                      (omega (arith, h)))
            ]
    ]

-- However long the history is, at most 20 turns and 48000 characters of it are sent.
pub truncate_conversation_history-bounded :
    (history : List ConversationTurn)
    → (length (truncate_conversation_history history) ≤ max_history_turns)
      × (characters_of (truncate_conversation_history history) ≤ max_history_characters)
unfolding truncate_conversation_history
truncate_conversation_history-bounded history =
    select-bounded (reverse history) [] 0 (omega arith) refl (omega arith)

length-reversed :
    (ts acc : List ConversationTurn) → length (reverse_aux ts acc) ≡ length ts + length acc
length-reversed [] acc = omega arith
length-reversed (t ∷ ts) acc = omega (arith, length-reversed ts (t ∷ acc))

characters-reversed :
    (ts acc : List ConversationTurn)
    → characters_of (reverse_aux ts acc) ≡ characters_of ts + characters_of acc
characters-reversed [] acc = omega arith
characters-reversed (t ∷ ts) acc = omega (arith, characters-reversed ts (t ∷ acc))

fitted-whole : (n : ℕ) (t : ConversationTurn) → turn_characters t ≤ n → fitted n t ≡ t
unfolding fitted
fitted-whole n t h = ground (arith, h)

-- Turns that fit are all selected, as they are.
select-whole :
    (ts selected : List ConversationTurn) (characters : ℕ)
    → characters + characters_of ts ≤ max_history_characters
    → length ts + length selected ≤ max_history_turns
    → select ts selected characters ≡ reverse_aux ts selected
unfolding select
select-whole [] selected characters fits few = refl
select-whole (t ∷ older) selected characters fits few =
    let remaining = max_history_characters - characters in
    let free : ltb (length selected) max_history_turns ≡ true = ground (arith, few) in
    let under : (ltb 0 (length selected)
          && ltb max_history_characters (characters + turn_characters t))
        ≡ false =
      ground (arith, fits) in
    let whole : turn_characters t ≤ remaining = omega (arith, fits) in
    rw (free, under, fitted-whole remaining t whole)
      (select-whole older (t ∷ selected) _ (omega (arith, fits, whole)) (omega (arith, few)))

-- A history that fits, of at most 20 turns and 48000 characters, is sent as it is.
pub truncate_conversation_history-whole :
    (history : List ConversationTurn)
    → length history ≤ max_history_turns
    → characters_of history ≤ max_history_characters
    → truncate_conversation_history history ≡ history
unfolding truncate_conversation_history
truncate_conversation_history-whole history few fits =
    select-whole (reverse history) [] 0 (omega (arith, fits, characters-reversed history []))
      (omega (arith, few, length-reversed history []))
    ∙ reverse-reverse history
