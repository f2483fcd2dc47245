-- ===== src/Facade/Prompt/Bounds.antt =====
-- The size of a prompt.
use cursor_gateway.Base.{
  ℕ, ◌+◌, ◌-◌, ◌/◌, ◌≤◌, Bool, true, false, ◌&&◌, ◌≡◌, ◌≢◌, List, [], ◌++◌, arith, length,
  length-append, leb, Bool-cases, inl, inr, coalesce, ◌==◌,
}
use cursor_gateway.Text.{Text, codes, take, slice_end, trim}
use cursor_gateway.Text.Laws.{length-take, length-slice_end, length-trim}
use cursor_gateway.Facade.Messages.{NormalizedMessage, last_user_text}
use cursor_gateway.Facade.Prompt.{
  prompt_truncation_marker, clip_middle, full_prompt, bounded_initial_prompt, PromptMode,
  PromptInput, prompt_limit, prompt_of, build_prompt, system_prompt,
}

length-around :
    (a b : Text)
    → length (a ++ codes "\n" ++ prompt_truncation_marker ++ codes "\n" ++ b)
      ≡ length a + 43 + length b
length-around a b = omega (
  arith,
  length-append (a ++ codes "\n" ++ prompt_truncation_marker ++ codes "\n") b,
  length-append (a ++ codes "\n" ++ prompt_truncation_marker) (codes "\n"),
  length-append (a ++ codes "\n") prompt_truncation_marker,
  length-append a (codes "\n"),
)

leb-≤ : (a b : ℕ) → leb a b ≡ true → a ≤ b
leb-≤ a b h = ground (arith, h)

-- A text that is cut has the size that it is cut to, except at 0 and at 44, where the tail of no
-- characters is the whole text.
pub length-clip_middle : (value : Text) (n : ℕ) → 1 ≤ n → n ≢ 44 → length (clip_middle value n) ≤ n
unfolding clip_middle
length-clip_middle value n h odd = elim (Bool-cases (leb (length value) n)) [
  | inl fits ↦ ground (arith, fits)
  | inr long ↦ elim (Bool-cases (leb n 43)) [
    | inl small ↦ rw (long, small) (length-slice_end n value h)
    | inr big ↦
        let available = n - 41 - 2 in
        let head = (available + 1) / 2 in
        let tail = available - head in
        let some_tail : 1 ≤ tail = ground (arith, big, odd) in
        let over : 43 + 1 ≤ n = ground (arith, big) in
        rw (long, big)
          (omega (
            arith,
            over,
            length-around (take head value) (slice_end tail value),
            length-take head value,
            length-slice_end tail value some_tail,
          ))
  ]
]

length-trim-take : (n : ℕ) (xs : Text) → length (trim (take n xs)) ≤ n
length-trim-take n xs = omega (arith, length-trim (take n xs), length-take n xs)

length-bounded_initial_prompt :
    (system : Text) (messages : List NormalizedMessage) (n : ℕ)
    → length (bounded_initial_prompt system messages n) ≤ n
unfolding bounded_initial_prompt
length-bounded_initial_prompt system messages n =
    elim (Bool-cases (leb (length (full_prompt system messages)) n)) [
      | inl fits ↦ rw fits (leb-≤ (length (full_prompt system messages)) n fits)
      | inr long ↦ rw long (length-trim-take n _)
    ]

abbrev pub is_continued : PromptMode → Bool
is_continued PromptMode.stateless = false
is_continued PromptMode.session_first = false
is_continued PromptMode.session_continued = true

prompt_limit-positive : (i : PromptInput) → 1 ≤ prompt_limit i
unfolding prompt_limit
prompt_limit-positive i = omega arith

length-prompt_of :
    (mode : PromptMode) (i : PromptInput)
    → (is_continued mode && prompt_limit i == 44) ≡ false
    → length (prompt_of mode i) ≤ prompt_limit i
unfolding prompt_of
length-prompt_of PromptMode.stateless i fine =
    length-bounded_initial_prompt (system_prompt i) i.messages (prompt_limit i)
length-prompt_of PromptMode.session_first i fine =
    length-bounded_initial_prompt (system_prompt i) i.messages (prompt_limit i)
length-prompt_of PromptMode.session_continued i fine =
    length-clip_middle (trim (coalesce (last_user_text i.messages) [])) (prompt_limit i)
      (prompt_limit-positive i) (λ e. absurd (ground (arith, e, fine)))

-- A prompt has at most the characters of its limit, unless it is the one of a continued session
-- with a limit of 44.
pub length-build_prompt :
    (i : PromptInput)
    → (is_continued i.mode && prompt_limit i == 44) ≡ false
    → length (build_prompt i) ≤ prompt_limit i
unfolding build_prompt
length-build_prompt i fine = length-prompt_of i.mode i fine
