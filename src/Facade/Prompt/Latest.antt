-- ===== src/Facade/Prompt/Latest.antt =====
-- The latest turn is kept when a transcript is truncated.
use mathlib.Core.List.{reverse, reverse-append, append_assoc}
use cursor_gateway.Base.{
  ℕ, ◌+◌, ◌-◌, ◌≤◌, true, false, not, ◌≡◌, ◌≢◌, ◌∙◌, refl, sym, ap, List, [], ◌∷◌, ◌++◌, arith,
  length, length-append, leb, ltb, Bool-cases, inl, inr, if◌then◌else◌,
}
use cursor_gateway.Text.Laws.{take-whole}
use cursor_gateway.Text.{Text, codes, take, join, nonempty_texts}
use cursor_gateway.Facade.Messages.{NormalizedMessage, is_system, transcript_line, transcript_parts}
use cursor_gateway.Facade.Prompt.{
  clip_middle, fill_recent, marker_block, clipped_system, full_prompt, bounded_initial_prompt,
  PromptMode, PromptInput, prompt_limit, build_prompt, prompt_of, system_prompt,
}
use cursor_gateway.Facade.Prompt.Bounds.{length-clip_middle, is_continued}
use cursor_gateway.Facade.Prompt.Lines.{
  IsLine, transcript_line-IsLine, EndsWith, EndsWith-trans, trim-EndsWith, ends, join-EndsWith,
  nonempty_texts-last, IsLine-length, EndsWith-nonempty, transcript_parts-last,
}

-- The budget at which a part is cut, behind a first one; 0 where none is.
unfoldable pub cut_at : (latest_first : List Text) → (remaining : ℕ) → ℕ
cut_at [] remaining = 0
cut_at (part ∷ older) remaining =
    let rest = cut_at older (remaining - (length part + 2)) in
    if not (ltb 0 remaining)
    then 0
    else if leb (length part + 2) remaining
    then rest
    else remaining - 2

fill_recent-keeps :
    (older : List Text) (remaining : ℕ) (r : Text) (rs : List Text)
    → (pre : List Text) × (fill_recent older remaining (r ∷ rs) ≡ pre ++ r ∷ rs)
unfolding fill_recent
fill_recent-keeps [] remaining r rs = ([], refl)
fill_recent-keeps (part ∷ older) remaining r rs = elim (Bool-cases (ltb 0 remaining)) [
  | inr none_left ↦ ([], rw none_left refl)
  | inl left ↦ elim (Bool-cases (leb (length part + 2) remaining)) [
    | inl fits ↦
        let (pre, e) = fill_recent-keeps older (remaining - (length part + 2)) part (r ∷ rs) in
        (pre ++ part ∷ [], rw (left, fits) (e ∙ sym (append_assoc pre (part ∷ []) (r ∷ rs))))
    | inr long ↦ elim (Bool-cases (ltb 0 (remaining - 2))) [
      | inl room ↦ (clip_middle part (remaining - 2) ∷ [], rw (left, long, room) refl)
      | inr none_left ↦ ([], rw (left, long, none_left) refl)
    ]
  ]
]

abbrev gap : Text
gap = codes "\n\n"

length-join_cons :
    (x y : Text) (rest : List Text)
    → length (join gap (x ∷ y ∷ rest)) ≡ length x + 2 + length (join gap (y ∷ rest))
unfolding join
length-join_cons x y rest =
    omega (arith, length-append (x ++ gap) (join gap (y ∷ rest)), length-append x gap)

-- The parts that are sent stay within the budget.
fill_recent-bounded :
    (older : List Text) (remaining : ℕ) (r : Text) (rs : List Text)
    → cut_at older remaining ≢ 44
    → length (join gap (fill_recent older remaining (r ∷ rs)))
      ≤ length (join gap (r ∷ rs)) + remaining
unfolding fill_recent cut_at
fill_recent-bounded [] remaining r rs fine = omega arith
fill_recent-bounded (part ∷ older) remaining r rs fine = elim (Bool-cases (ltb 0 remaining)) [
  | inr none_left ↦ rw none_left (omega arith)
  | inl left ↦ elim (Bool-cases (leb (length part + 2) remaining)) [
    | inl fits ↦
        let left_over = remaining - (length part + 2) in
        let same : cut_at (part ∷ older) remaining ≡ cut_at older left_over =
          rw (left, fits) refl in
        let small : length part + 2 ≤ remaining = ground (arith, fits) in
        rw (left, fits)
          (omega (
            arith,
            small,
            length-join_cons part r rs,
            fill_recent-bounded older left_over part (r ∷ rs) (λ e. fine (same ∙ e)),
          ))
    | inr long ↦ elim (Bool-cases (ltb 0 (remaining - 2))) [
      | inl room ↦
          let same : cut_at (part ∷ older) remaining ≡ remaining - 2 = rw (left, long) refl in
          let some_room : 1 ≤ remaining - 2 = ground (arith, room) in
          let cut = clip_middle part (remaining - 2) in
          rw (left, long, room)
            (omega (
              arith,
              some_room,
              length-join_cons cut r rs,
              length-clip_middle part (remaining - 2) some_room (λ e. fine (same ∙ e)),
            ))
      | inr none_left ↦ rw (left, long, none_left) (omega arith)
    ]
  ]
]

-- The parts that are sent, when the latest one fits: it is the last of them, and they fit.
fill_recent-latest :
    (older : List Text) (remaining : ℕ) (p : Text)
    → IsLine p
    → length p ≤ remaining
    → cut_at older (remaining - length p) ≢ 44
    → EndsWith p (join gap (fill_recent (p ∷ older) remaining []))
      × (length (join gap (fill_recent (p ∷ older) remaining [])) ≤ remaining)
unfolding fill_recent join
fill_recent-latest older remaining p line fits fine =
    let positive : 1 ≤ length p = IsLine-length p line in
    let left : ltb 0 remaining ≡ true = ground (arith, positive, fits) in
    let enough : leb (length p) remaining ≡ true = ground (arith, fits) in
    let zero_sum : length p + 0 ≡ length p = omega arith in
    let (pre, e) = fill_recent-keeps older (remaining - length p) p [] in
    let bound = fill_recent-bounded older (remaining - length p) p [] fine in
    rw (left, zero_sum, enough) (rw e (join-EndsWith gap p pre), omega (arith, bound, fits))

full_prompt-EndsWith :
    (system p : Text) (messages : List NormalizedMessage) (older : List Text)
    → IsLine p
    → transcript_parts messages ≡ older ++ p ∷ []
    → EndsWith p (full_prompt system messages)
unfolding full_prompt
full_prompt-EndsWith system p messages older line parts =
    let turns = join gap (transcript_parts messages) in
    let last : EndsWith p turns = rw parts (join-EndsWith gap p older) in
    let kept : nonempty_texts (system ∷ turns ∷ []) ≡ nonempty_texts (system ∷ []) ++ turns ∷ [] =
      nonempty_texts-last (system ∷ []) turns (EndsWith-nonempty p turns line last) in
    trim-EndsWith p (join gap (nonempty_texts (system ∷ turns ∷ []))) line (
      rw kept
        (EndsWith-trans p turns _ last (join-EndsWith gap turns (nonempty_texts (system ∷ [])))))

bounded-EndsWith :
    (system p : Text) (messages : List NormalizedMessage) (n : ℕ) (older : List Text)
    → IsLine p
    → transcript_parts messages ≡ older ++ p ∷ []
    → length (clipped_system system n) + 45 + length p ≤ n
    → cut_at (reverse older) (n - length (clipped_system system n) - 45 - length p) ≢ 44
    → EndsWith p (bounded_initial_prompt system messages n)
unfolding bounded_initial_prompt
bounded-EndsWith system p messages n older line parts room fine =
    elim (Bool-cases (leb (length (full_prompt system messages)) n)) [
      | inl fits ↦ rw fits (full_prompt-EndsWith system p messages older line parts)
      | inr long ↦
          let clipped = clipped_system system n in
          let remaining = n - length clipped - 45 in
          let turned : reverse (transcript_parts messages) ≡ p ∷ reverse older =
            ap reverse parts ∙ reverse-append older (p ∷ []) in
          let (last, small) =
            fill_recent-latest (reverse older) remaining p line (omega (arith, room)) fine in
          let recent = join gap (fill_recent (p ∷ reverse older) remaining []) in
          let whole : take n (clipped ++ marker_block ++ recent)
              ≡ clipped ++ marker_block ++ recent =
            take-whole n (clipped ++ marker_block ++ recent) (
              omega (
                arith,
                room,
                small,
                length-append (clipped ++ marker_block) recent,
                length-append clipped marker_block,
              )) in
          rw (long, turned, whole)
            (trim-EndsWith p (clipped ++ marker_block ++ recent) line
              (EndsWith-trans p recent _ last (ends (clipped ++ marker_block) recent)))
    ]

prompt_of-EndsWith :
    (mode : PromptMode) (i : PromptInput) (p : Text)
    → is_continued mode ≡ false
    → EndsWith p (bounded_initial_prompt (system_prompt i) i.messages (prompt_limit i))
    → EndsWith p (prompt_of mode i)
unfolding prompt_of
prompt_of-EndsWith PromptMode.stateless i p initial h = h
prompt_of-EndsWith PromptMode.session_first i p initial h = h
prompt_of-EndsWith PromptMode.session_continued i p initial h = absurd (cc)

-- The prompt of a new or stateless session ends with the whole of the last message, however long the
-- transcript is, when that message is not one of the system, has room beside the clipped system
-- prompt and the marker of 45 characters, and no earlier message is cut to exactly 44 characters.
pub build_prompt-EndsWith :
    (i : PromptInput) (before : List NormalizedMessage) (m : NormalizedMessage)
    → i.messages ≡ before ++ m ∷ []
    → is_system m.role ≡ false
    → is_continued i.mode ≡ false
    → length (clipped_system (system_prompt i) (prompt_limit i)) + 45 + length (transcript_line m)
      ≤ prompt_limit i
    → cut_at (reverse (transcript_parts before)) (
        prompt_limit i
        - length (clipped_system (system_prompt i) (prompt_limit i))
        - 45
        - length (transcript_line m))
      ≢ 44
    → EndsWith (transcript_line m) (build_prompt i)
unfolding build_prompt
build_prompt-EndsWith i before m last shown initial room fine =
    prompt_of-EndsWith i.mode i (transcript_line m) initial (
      bounded-EndsWith (system_prompt i) (transcript_line m) i.messages (prompt_limit i)
        (transcript_parts before) (transcript_line-IsLine m)
        (ap transcript_parts last ∙ transcript_parts-last before m shown) room fine)
