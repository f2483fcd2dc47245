-- ===== src/Relay/Order.antt =====
-- Messages in the order of their numbers.
use cursor_gateway.Base.{
  ℕ, ◌<◌, Bool, false, List, [], ◌∷◌, ◌≡◌, ◌≢◌, refl, sym, ap, ◌∙◌, arith, ltb, inl, inr,
  Bool-cases, All, if◌then◌else◌,
}
use cursor_gateway.Table.{rows_where}
use cursor_gateway.Relay.{RelayMessage, place_message, by_sequence}

-- Each message has a lower number than those behind it.
abbrev pub IsAscending : List RelayMessage → Type 0
IsAscending [] = Unit
IsAscending (m ∷ ms) = All (λ r. m.sequence < RelayMessage.sequence r) ms × IsAscending ms

All-place_message :
    (P : RelayMessage → Type 0) (m : RelayMessage) (t : List RelayMessage)
    → P m
    → All P t
    → All P (place_message m t)
unfolding place_message
All-place_message P m [] p h = (p, tt)
All-place_message P m (r ∷ t) p (q, h) = elim (Bool-cases (ltb r.sequence m.sequence)) [
  | inl e ↦ rw e (q, All-place_message P m t p h)
  | inr e ↦ rw e (p, (q, h))
]

All-below :
    (a b : ℕ) (t : List RelayMessage)
    → a < b
    → All (λ r. b < RelayMessage.sequence r) t
    → All (λ r. a < RelayMessage.sequence r) t
All-below a b [] h k = tt
All-below a b (r ∷ t) h (q, k) = (omega (arith, h, q), All-below a b t h k)

place_message-IsAscending :
    (m : RelayMessage) (t : List RelayMessage)
    → All (λ r. RelayMessage.sequence r ≢ m.sequence) t
    → IsAscending t
    → IsAscending (place_message m t)
unfolding place_message
place_message-IsAscending m [] apart h = (tt, tt)
place_message-IsAscending m (r ∷ t) (p, apart) (below, h) =
    elim (Bool-cases (ltb r.sequence m.sequence)) [
      | inl e ↦ rw e (
        All-place_message (λ q. r.sequence < RelayMessage.sequence q) m t (ground (arith, e)) below,
        place_message-IsAscending m t apart h,
      )
      | inr e ↦
          let under : m.sequence < r.sequence = ground (arith, e, p) in
          rw e ((under, All-below m.sequence r.sequence t under below), (below, h))
    ]

-- No two messages have the same number.
abbrev pub IsNumbered : List RelayMessage → Type 0
IsNumbered [] = Unit
IsNumbered (m ∷ ms) = All (λ r. RelayMessage.sequence r ≢ m.sequence) ms × IsNumbered ms

pub All-by_sequence :
    (P : RelayMessage → Type 0) (t : List RelayMessage) → All P t → All P (by_sequence t)
unfolding by_sequence
All-by_sequence P [] h = tt
All-by_sequence P (m ∷ t) (p, h) = All-place_message P m (by_sequence t) p (All-by_sequence P t h)

pub by_sequence-IsAscending : (t : List RelayMessage) → IsNumbered t → IsAscending (by_sequence t)
unfolding by_sequence
by_sequence-IsAscending [] h = tt
by_sequence-IsAscending (m ∷ t) (apart, h) =
    place_message-IsAscending m (by_sequence t)
      (All-by_sequence (λ r. RelayMessage.sequence r ≢ m.sequence) t apart)
      (by_sequence-IsAscending t h)

-- A selection of ordered rows, and the order of selected ones.
module _ (test : RelayMessage → Bool) where
  All-rows :
      (P : RelayMessage → Type 0) (t : List RelayMessage) → All P t → All P (rows_where test t)
  unfolding rows_where
  All-rows P [] h = tt
  All-rows P (m ∷ t) (p, h) = elim (Bool-cases (test m)) [
    | inl e ↦ rw e (p, All-rows P t h)
    | inr e ↦ rw e (All-rows P t h)
  ]

  pub rows-IsNumbered : (t : List RelayMessage) → IsNumbered t → IsNumbered (rows_where test t)
  unfolding rows_where
  rows-IsNumbered [] h = tt
  rows-IsNumbered (m ∷ t) (apart, h) = elim (Bool-cases (test m)) [
    | inl e ↦
        rw e (All-rows (λ r. RelayMessage.sequence r ≢ m.sequence) t apart, rows-IsNumbered t h)
    | inr e ↦ rw e (rows-IsNumbered t h)
  ]

  place_message-first :
      (m : RelayMessage) (t : List RelayMessage)
      → All (λ r. m.sequence < RelayMessage.sequence r) t
      → place_message m t ≡ m ∷ t
  unfolding place_message
  place_message-first m [] h = refl
  place_message-first m (r ∷ t) (p, h) =
      let e : ltb r.sequence m.sequence ≡ false = ground (arith, p) in rw e refl

  rows-place_message :
      (m : RelayMessage) (t : List RelayMessage)
      → All (λ r. RelayMessage.sequence r ≢ m.sequence) t
      → IsAscending t
      → rows_where test (place_message m t)
        ≡ (if test m then place_message m (rows_where test t) else rows_where test t)
  unfolding place_message rows_where
  rows-place_message m [] apart h = refl
  rows-place_message m (r ∷ t) (p, apart) (below, h) =
      elim (Bool-cases (ltb r.sequence m.sequence)) [
        | inl e ↦
            let rest = rows-place_message m t apart h in
            elim (Bool-cases (test m)) [
              | inl tm ↦
                  let ih : rows_where test (place_message m t)
                      ≡ place_message m (rows_where test t) =
                    rw tm at rest in
                  elim (Bool-cases (test r)) [
                    | inl tr ↦ rw (e, tm, tr, ih, e) refl
                    | inr tr ↦ rw (e, tm, tr, ih) refl
                  ]
              | inr tm ↦
                  let ih : rows_where test (place_message m t) ≡ rows_where test t =
                    rw tm at rest in
                  elim (Bool-cases (test r)) [
                    | inl tr ↦ rw (e, tm, tr, ih) refl
                    | inr tr ↦ rw (e, tm, tr, ih) refl
                  ]
            ]
        | inr e ↦
            let under : m.sequence < r.sequence = ground (arith, e, p) in
            let over =
              All-rows (λ q. m.sequence < RelayMessage.sequence q) (r ∷ t)
                (under, All-below m.sequence r.sequence t under below) in
            elim (Bool-cases (test m)) [
              | inl tm ↦ rw (e, tm) (sym (place_message-first m (rows_where test (r ∷ t)) over))
              | inr tm ↦ rw (e, tm) refl
            ]
      ]

  pub rows-by_sequence :
      (t : List RelayMessage)
      → IsNumbered t
      → rows_where test (by_sequence t) ≡ by_sequence (rows_where test t)
  unfolding by_sequence rows_where
  rows-by_sequence [] h = refl
  rows-by_sequence (m ∷ t) (apart, h) =
      let step =
        rows-place_message m (by_sequence t)
          (All-by_sequence (λ r. RelayMessage.sequence r ≢ m.sequence) t apart)
          (by_sequence-IsAscending t h) in
      elim (Bool-cases (test m)) [
        | inl tm ↦ rw tm ((rw tm at step) ∙ ap (place_message m) (rows-by_sequence t h))
        | inr tm ↦ rw tm ((rw tm at step) ∙ rows-by_sequence t h)
      ]
