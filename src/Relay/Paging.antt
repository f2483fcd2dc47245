-- ===== src/Relay/Paging.antt =====
-- Reading a history page by page.
use cursor_gateway.Base.{
  ◌≢◌, ℕ, ◌-◌, ◌≤◌, ◌<◌, Bool, true, false, some, List, [], ◌∷◌, ◌≡◌, refl, sym, ap, ◌∙◌, arith,
  ltb, inl, inr, Bool-cases, All, if◌then◌else◌,
}
use cursor_gateway.Table.{rows_where}
use cursor_gateway.Text.{take, drop, is_empty}
use cursor_gateway.Relay.{RelayMessage, is_page_row, by_sequence, rows_after, last_sequence}
use cursor_gateway.Relay.Order.{IsAscending, IsNumbered, by_sequence-IsAscending, rows-by_sequence}

abbrev is_after : ℕ → RelayMessage → Bool
is_after c m = ltb c m.sequence

rows_where-whole :
    (c : ℕ) (t : List RelayMessage)
    → All (λ r. c < RelayMessage.sequence r) t
    → rows_where (is_after c) t ≡ t
unfolding rows_where
rows_where-whole c [] h = refl
rows_where-whole c (m ∷ t) (p, h) =
    let e : ltb c m.sequence ≡ true = ground (arith, p) in rw (e, rows_where-whole c t h) refl

pub All-take :
    (P : RelayMessage → Type 0) (n : ℕ) (t : List RelayMessage) → All P t → All P (take n t)
unfolding take
All-take P n [] h = tt
All-take P n (m ∷ t) (p, h) = elim (Bool-cases (ltb 0 n)) [
  | inl e ↦ rw e (p, All-take P (n - 1) t h)
  | inr e ↦ rw e tt
]

pub last-All :
    (a c : ℕ) (t : List RelayMessage)
    → All (λ r. a < RelayMessage.sequence r) t
    → last_sequence t ≡ some c
    → a < c
unfolding last_sequence
last-All a c [] h e = absurd (cc)
last-All a c (m ∷ []) (p, h) e = let same : m.sequence ≡ c = cc in omega (arith, p, same)
last-All a c (m ∷ r ∷ t) (p, h) e = last-All a c (r ∷ t) h e

last-cons :
    (m : RelayMessage) (t : List RelayMessage)
    → last_sequence (m ∷ t) ≡ (if is_empty t then some m.sequence else last_sequence t)
unfolding last_sequence
last-cons m [] = refl
last-cons m (r ∷ t) = refl

take-empty : (n : ℕ) (t : List RelayMessage) → is_empty (take n t) ≡ true → drop n t ≡ t
unfolding take drop
take-empty n [] e = refl
take-empty n (m ∷ t) e = elim (Bool-cases (ltb 0 n)) [
  | inl pos ↦ absurd (cc (rw pos at e))
  | inr z ↦ rw z refl
]

nothing_last : {c : ℕ} → last_sequence [] ≢ some c
unfolding last_sequence
nothing_last e = absurd (cc)

-- Behind the last of the first `n` rows stand the others.
after_last :
    (n c : ℕ) (t : List RelayMessage)
    → IsAscending t
    → last_sequence (take n t) ≡ some c
    → rows_where (is_after c) t ≡ drop n t
unfolding rows_where take drop
after_last n c [] h e = refl
after_last n c (m ∷ t) (below, h) e = elim (Bool-cases (ltb 0 n)) [
  | inr z ↦ absurd (nothing_last (rw z at e))
  | inl pos ↦
      let last : (if is_empty (take (n - 1) t)
            then some m.sequence
            else last_sequence (take (n - 1) t))
          ≡ some c =
        sym (last-cons m (take (n - 1) t)) ∙ (rw pos at e) in
      elim (Bool-cases (is_empty (take (n - 1) t))) [
        | inl empty ↦
            let same : m.sequence ≡ c = cc (rw empty at last) in
            let here : ltb c m.sequence ≡ false = ground (arith, same) in
            rw (here, pos)
              (rows_where-whole c t (rw (← same) below) ∙ sym (take-empty (n - 1) t empty))
        | inr more ↦
            let deeper : last_sequence (take (n - 1) t) ≡ some c = rw more at last in
            let above : m.sequence < c =
              last-All m.sequence c (take (n - 1) t)
                (All-take (λ r. m.sequence < RelayMessage.sequence r) (n - 1) t below) deeper in
            let here : ltb c m.sequence ≡ false = ground (arith, above) in
            rw (here, pos) (after_last (n - 1) c t h deeper)
      ]
]

-- A narrower selection of the selected rows.
pub rows-rows :
    (account_id conversation_id after c : ℕ) (t : List RelayMessage)
    → after ≤ c
    → rows_where (is_after c) (rows_where (is_page_row account_id conversation_id after) t)
      ≡ rows_where (is_page_row account_id conversation_id c) t
unfolding rows_where is_page_row
rows-rows account_id conversation_id after c [] h = refl
rows-rows account_id conversation_id after c (m ∷ t) h =
    let rest = rows-rows account_id conversation_id after c t h in
    elim (Bool-cases (is_page_row account_id conversation_id after m)) [
      | inr off ↦
          let gone : is_page_row account_id conversation_id c m ≡ false = ground (arith, off, h) in
          rw (off, gone) rest
      | inl on ↦ elim (Bool-cases (is_page_row account_id conversation_id c m)) [
        | inl later ↦
            let here : ltb c m.sequence ≡ true = ground (arith, later) in
            rw (on, later, here, rest) refl
        | inr sooner ↦
            let here : ltb c m.sequence ≡ false = ground (arith, on, sooner) in
            rw (on, sooner, here) rest
      ]
    ]

-- The rows behind a cursor, of those behind an earlier place.
pub rows_after-last :
    (account_id conversation_id after n c : ℕ) (t : List RelayMessage)
    → IsNumbered (rows_where (is_page_row account_id conversation_id after) t)
    → after ≤ c
    → last_sequence (take n (rows_after account_id conversation_id after t)) ≡ some c
    → rows_after account_id conversation_id c t
      ≡ drop n (rows_after account_id conversation_id after t)
unfolding rows_after
rows_after-last account_id conversation_id after n c t numbered h e =
    let rows = rows_where (is_page_row account_id conversation_id after) t in
    ap by_sequence (sym (rows-rows account_id conversation_id after c t h))
    ∙ sym (rows-by_sequence (is_after c) rows numbered)
    ∙ after_last n c (by_sequence rows) (by_sequence-IsAscending rows numbered) e
