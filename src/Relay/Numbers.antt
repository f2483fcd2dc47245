-- ===== src/Relay/Numbers.antt =====
-- The numbers of a conversation's messages are distinct, however appends interleave.
use cursor_gateway.Base.{
  ℕ, ◌<◌, max, true, false, Option, List, [], ◌∷◌, ◌++◌, ◌≡◌, ◌≢◌, refl, arith, any, inl, inr,
  Bool-cases, All, length, coalesce, Result, ok, err, Option-cases,
}
use cursor_gateway.Table.{rows_where}
use cursor_gateway.Relay.{
  RelayMessage, Append, AppendError, is_live, clashes, insert_message, next_sequence,
  append_numbered, append_relay_message, new_message, stored_message, is_page_row, rows_after,
}
use cursor_gateway.Relay.Order.{IsNumbered, rows-IsNumbered}
use cursor_gateway.Relay.Sync.{sync, sync-rows_after}

-- The live messages of a conversation have distinct numbers.
abbrev pub IsNumberedIn : ℕ → List RelayMessage → Type 0
IsNumberedIn c t = IsNumbered (rows_where (is_live c) t)

All-rows_append :
    (P : RelayMessage → Type 0) (c : ℕ) (m : RelayMessage) (t : List RelayMessage)
    → All P (rows_where (is_live c) t)
    → (is_live c m ≡ true → P m)
    → All P (rows_where (is_live c) (t ++ m ∷ []))
unfolding rows_where
All-rows_append P c m [] h new = elim (Bool-cases (is_live c m)) [
  | inl e ↦ rw e (new e, tt)
  | inr e ↦ rw e tt
]
All-rows_append P c m (r ∷ t) h new = elim (Bool-cases (is_live c r)) [
  | inl e ↦ let both = rw e at h in rw e (both.0, All-rows_append P c m t both.1 new)
  | inr e ↦ rw e (All-rows_append P c m t (rw e at h) new)
]

-- A message that clashes with none has a number of its own.
apart :
    (c : ℕ) (m r : RelayMessage)
    → clashes m r ≡ false
    → is_live c r ≡ true
    → is_live c m ≡ true
    → m.sequence ≢ r.sequence
unfolding clashes is_live
apart c m r free live_r live_m same = absurd (ground (arith, free, live_r, live_m, same))

append-IsNumbered :
    (c : ℕ) (m : RelayMessage) (t : List RelayMessage)
    → any (clashes m) t ≡ false
    → IsNumberedIn c t
    → IsNumberedIn c (t ++ m ∷ [])
unfolding rows_where
append-IsNumbered c m [] free h = elim (Bool-cases (is_live c m)) [
  | inl e ↦ rw e (tt, tt)
  | inr e ↦ rw e tt
]
append-IsNumbered c m (r ∷ t) free h =
    let own : clashes m r ≡ false = ground (arith, free) in
    let others : any (clashes m) t ≡ false = ground (arith, free) in
    elim (Bool-cases (is_live c r)) [
      | inl e ↦
          let both = rw e at h in
          rw e (
            All-rows_append (λ q. RelayMessage.sequence q ≢ r.sequence) c m t both.0
                (apart c m r own e),
            append-IsNumbered c m t others both.1,
          )
      | inr e ↦ rw e (append-IsNumbered c m t others (rw e at h))
    ]

insert_message-IsNumbered :
    (c : ℕ) (m : RelayMessage) (t : List RelayMessage)
    → IsNumberedIn c t
    → IsNumberedIn c (insert_message m t).0
unfolding insert_message
insert_message-IsNumbered c m t h = elim (Bool-cases (any (clashes m) t)) [
  | inl e ↦ rw e h
  | inr e ↦ rw e (append-IsNumbered c m t e h)
]

-- One append: what it is given, and the states that its two queries saw.
pub record AppendCall : Type 0 where
  pub now : ℕ
  pub id : ℕ
  pub encrypt : ℕ → ℕ
  pub append : Append
  pub first : List RelayMessage
  pub second : List RelayMessage

unfoldable pub appended : List AppendCall → List RelayMessage → List RelayMessage
unfolding append_relay_message
appended [] t = t
appended (c ∷ cs) t =
    appended cs (append_relay_message c.now c.id c.encrypt c.append c.first c.second t).0

append_numbered-IsNumbered :
    (c now id : ℕ) (encrypt : ℕ → ℕ) (a : Append) (n : Result AppendError ℕ) (t : List RelayMessage)
    → IsNumberedIn c t
    → IsNumberedIn c (append_numbered now id encrypt a n t).0
unfolding append_numbered
append_numbered-IsNumbered c now id encrypt a (err e) t h = h
append_numbered-IsNumbered c now id encrypt a (ok n) t h =
    insert_message-IsNumbered c (new_message now id n (encrypt n) a) t h

append-kept :
    (c : ℕ) (x : AppendCall) (t : List RelayMessage)
    → IsNumberedIn c t
    → IsNumberedIn c (append_relay_message x.now x.id x.encrypt x.append x.first x.second t).0
unfolding append_relay_message
append-kept c x t h =
    elim (Option-cases (stored_message x.append.account_id x.append.idempotency_key x.first)) [
      | inr (r, found) ↦ rw found h
      | inl fresh ↦ rw fresh (
          append_numbered-IsNumbered c x.now x.id x.encrypt x.append
            (next_sequence x.append x.second) t h)
    ]

appended-IsNumbered :
    (c : ℕ) (xs : List AppendCall) (t : List RelayMessage)
    → IsNumberedIn c t
    → IsNumberedIn c (appended xs t)
unfolding appended
appended-IsNumbered c [] t h = h
appended-IsNumbered c (x ∷ xs) t h = appended-IsNumbered c xs _ (append-kept c x t h)

not_live :
    (account_id c after : ℕ) (m : RelayMessage)
    → is_live c m ≡ false
    → is_page_row account_id c after m ≡ false
unfolding is_page_row
not_live account_id c after m gone = ground (arith, gone)

-- The rows of a page are live ones.
rows-live :
    (account_id c after : ℕ) (t : List RelayMessage)
    → rows_where (is_page_row account_id c after) (rows_where (is_live c) t)
      ≡ rows_where (is_page_row account_id c after) t
unfolding rows_where
rows-live account_id c after [] = refl
rows-live account_id c after (m ∷ t) =
    let rest = rows-live account_id c after t in
    elim (Bool-cases (is_live c m)) [
      | inl live ↦ elim (Bool-cases (is_page_row account_id c after m)) [
        | inl on ↦ rw (live, on, rest) refl
        | inr off ↦ rw (live, off) rest
      ]
      | inr gone ↦ let off = not_live account_id c after m gone in rw (gone, off) rest
    ]

-- Whatever messages have been appended to an empty table, in any interleaving of the queries of the
-- appends, a client that follows the cursors from any of them on reads every live message of the
-- conversation and the account behind it, once and in the order of their numbers, whatever the limit
-- of a page is, in one request more than there are messages.
pub sync-appended :
    (xs : List AppendCall) (account_id conversation_id since limit fuel : ℕ) (cursor : Option ℕ)
    → length
        (rows_after account_id conversation_id (max since (coalesce cursor 0)) (appended xs []))
      < fuel
    → sync fuel account_id conversation_id since cursor limit (appended xs [])
      ≡ rows_after account_id conversation_id (max since (coalesce cursor 0)) (appended xs [])
unfolding rows_where
sync-appended xs account_id conversation_id since limit fuel cursor enough =
    let after = max since (coalesce cursor 0) in
    sync-rows_after account_id conversation_id since limit (appended xs []) fuel cursor
      (rw (← rows-live account_id conversation_id after (appended xs [])) (
        rows-IsNumbered (is_page_row account_id conversation_id after)
          (rows_where (is_live conversation_id) (appended xs []))
          (appended-IsNumbered conversation_id xs [] tt)))
      enough
