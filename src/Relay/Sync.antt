-- ===== src/Relay/Sync.antt =====
-- A client that follows the cursors reads the whole history.
use cursor_gateway.Base.{
  ℕ, zero, suc, ◌-◌, ◌≤◌, ◌<◌, max, true, Option, none, some, List, [], ◌∷◌, ◌++◌, ◌≡◌, refl, ap,
  ◌∙◌, arith, ltb, inl, inr, Bool-cases, All, length, coalesce,
}
use mathlib.Core.List.{append-nil}
use cursor_gateway.Table.{rows_where}
use cursor_gateway.Text.{take, drop}
use cursor_gateway.Text.Laws.{length-take, take-drop, length-drop, take-whole}
use cursor_gateway.Relay.{
  RelayMessage, is_page_row, rows_after, page_limit, last_sequence, list_relay_messages,
}
use cursor_gateway.Relay.Order.{IsNumbered, All-by_sequence, rows-IsNumbered}
use cursor_gateway.Relay.Paging.{rows-rows, rows_after-last, last-All, All-take}

-- What a client reads that asks for page after page until there is no further cursor.
unfoldable pub sync :
    (fuel : ℕ)
    → (account_id conversation_id since : ℕ) → (cursor : Option ℕ) → (limit : ℕ) → List RelayMessage
    → List RelayMessage
unfolding list_relay_messages
sync zero account_id conversation_id since cursor limit t = []
sync (suc fuel) account_id conversation_id since cursor limit t =
    let page = list_relay_messages account_id conversation_id since cursor limit t in
    page.messages ++ elim page.next_cursor [
      | none ↦ []
      | some c ↦ sync fuel account_id conversation_id since (some c) limit t
    ]

take-take : (n : ℕ) (t : List RelayMessage) → take n (take (suc n) t) ≡ take n t
unfolding take
take-take n [] = refl
take-take n (m ∷ t) =
    let pos : ltb 0 (suc n) ≡ true = ground arith in
    elim (Bool-cases (ltb 0 n)) [
      | inl e ↦
          let less : suc n - 1 ≡ suc (n - 1) = ground (arith, e) in
          rw (pos, e, less, take-take (n - 1) t) refl
      | inr e ↦ rw (pos, e) refl
    ]

last_some : (t : List RelayMessage) → 1 ≤ length t → (c : ℕ) × (last_sequence t ≡ some c)
unfolding last_sequence
last_some [] h = absurd (omega (arith, h))
last_some (m ∷ []) h = (m.sequence, refl)
last_some (m ∷ r ∷ t) h = last_some (r ∷ t) (omega arith)

page-after :
    (account_id conversation_id after : ℕ) (t : List RelayMessage)
    → All
        (λ r. after < RelayMessage.sequence r)
        (rows_where (is_page_row account_id conversation_id after) t)
unfolding rows_where is_page_row
page-after account_id conversation_id after [] = tt
page-after account_id conversation_id after (m ∷ t) =
    elim (Bool-cases (is_page_row account_id conversation_id after m)) [
      | inl e ↦ rw e (ground (arith, e), page-after account_id conversation_id after t)
      | inr e ↦ rw e (page-after account_id conversation_id after t)
    ]

page_limit-positive : (limit : ℕ) → 1 ≤ page_limit limit
unfolding page_limit
page_limit-positive limit = omega arith

module _ (account_id conversation_id since limit : ℕ) (t : List RelayMessage) where
  -- The rows behind a cursor.
  abbrev rest_of : Option ℕ → List RelayMessage
  rest_of cursor = rows_after account_id conversation_id (max since (coalesce cursor 0)) t

  -- Following the cursors from any of them on, a client reads every message behind it, once and in
  -- the order of their numbers, whatever the limit is, when the numbers of the conversation's
  -- messages are distinct, in as many requests as there are messages, and one.
  pub sync-rows_after :
      (fuel : ℕ) (cursor : Option ℕ)
      → IsNumbered
          (rows_where (is_page_row account_id conversation_id (max since (coalesce cursor 0))) t)
      → length (rest_of cursor) < fuel
      → sync fuel account_id conversation_id since cursor limit t ≡ rest_of cursor
  unfolding sync
  sync-rows_after zero cursor numbered enough = absurd (omega (arith, enough))
  sync-rows_after (suc fuel) cursor numbered enough =
      let rows = rest_of cursor in
      let n = page_limit limit in
      elim (Bool-cases (ltb n (length (take (suc n) rows)))) [
        | inr last ↦
            let few : length rows ≤ n = ground (arith, last, length-take (suc n) rows) in
            rw (last, take-take n rows, take-whole n rows few) (append-nil rows)
        | inl more ↦
            let many : n < length rows = ground (arith, more, length-take (suc n) rows) in
            let positive = page_limit-positive limit in
            let after = max since (coalesce cursor 0) in
            let (c, at) =
              last_some (take n rows) (omega (arith, many, positive, length-take n rows)) in
            let selected = rows_where (is_page_row account_id conversation_id after) t in
            let above : after < c =
              last-All after c (take n rows)
                (All-take (λ r. after < RelayMessage.sequence r) n rows
                  (All-by_sequence (λ r. after < RelayMessage.sequence r) selected
                    (page-after account_id conversation_id after t)))
                at in
            let here : max since c ≡ c = omega (arith, above) in
            let under : after ≤ c = omega (arith, above) in
            let behind : rest_of (some c) ≡ drop n rows =
              rw here (rows_after-last account_id conversation_id after n c t numbered under at) in
            let still : IsNumbered (rows_where (is_page_row account_id conversation_id c) t) =
              rw (← rows-rows account_id conversation_id after c t under)
                (rows-IsNumbered (λ m. ltb c (RelayMessage.sequence m)) selected numbered) in
            let fewer : length (rest_of (some c)) < fuel =
              rw behind (omega (arith, enough, many, positive, length-drop n rows)) in
            let rest = sync-rows_after fuel (some c) (rw here still) fewer ∙ behind in
            rw (more, take-take n rows, at)
              (ap (λ (x : List RelayMessage). take n rows ++ x) rest ∙ take-drop n rows)
      ]
