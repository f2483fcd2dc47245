-- ===== src/Relay.antt =====
-- The encrypted history of a conversation: apps/server/src/csRelayHistory.ts, the messages. Keys and
-- ciphertexts are parameters: `encrypt` is the ciphertext of a message under its conversation's key.
-- The statements of one append are separate, so that other calls can run between them.
pub mod Order
pub mod Paging
pub mod Sync
pub mod Numbers
use cursor_gateway.Base.{
  ℕ, zero, suc, ◌+◌, ◌-◌, min, max, Bool, true, false, not, ◌&&◌, ◌||◌, Option, none, some, List,
  [], ◌∷◌, ◌++◌, any, ltb, leb, ◌==◌, is_none, is_some, holds, coalesce, if◌then◌else◌, length,
  Result, ok, err,
}
use cursor_gateway.Table.{rows_where, first_where}
use cursor_gateway.Text.{take}

pub data RelayRole : Type 0 where
  user assistant : RelayRole

-- A row of `cs_relay_messages`.
pub record RelayMessage : Type 0 where
  pub id : ℕ
  pub conversation_id : ℕ
  pub account_id : ℕ
  pub sequence : ℕ
  pub role : RelayRole
  pub content : ℕ
  pub idempotency_key : Option ℕ
  pub created_at : ℕ
  pub deleted_at : Option ℕ

pub record Append : Type 0 where
  pub account_id : ℕ
  pub conversation_id : ℕ
  pub role : RelayRole
  pub text : ℕ
  pub idempotency_key : Option ℕ
  pub expected_sequence : Option ℕ

-- `sequence_conflict` carries the latest sequence; `type_error` is the reading of a row that the
-- statement has not returned.
pub data AppendError : Type 0 where
  sequence_conflict : (latest : ℕ) → AppendError
  type_error : AppendError

abbrev pub Appended : Type 0
Appended = Result AppendError (ℕ × ℕ)

-- The rows of an account under an idempotency key.
unfoldable pub has_key : (account_id key : ℕ) → RelayMessage → Bool
has_key account_id key m = m.account_id == account_id && holds (λ k. k == key) m.idempotency_key

-- `where conversation_id = $1 and deleted_at is null`
unfoldable pub is_live : (conversation_id : ℕ) → RelayMessage → Bool
is_live conversation_id m = m.conversation_id == conversation_id && is_none m.deleted_at

-- `coalesce(max(sequence), 0)`
unfoldable pub max_sequence : List RelayMessage → ℕ
max_sequence [] = 0
max_sequence (m ∷ ms) = max m.sequence (max_sequence ms)

unfoldable pub latest_sequence : (conversation_id : ℕ) → List RelayMessage → ℕ
unfolding is_live rows_where max_sequence
latest_sequence conversation_id t = max_sequence (rows_where (is_live conversation_id) t)

abbrev found_message : Option RelayMessage → Option (ℕ × ℕ)
found_message none = none
found_message (some m) = some (m.id, m.sequence)

-- The message that an idempotency key has stored.
unfoldable pub stored_message :
    (account_id : ℕ) → (key : Option ℕ) → List RelayMessage → Option (ℕ × ℕ)
unfolding first_where has_key
stored_message account_id none t = none
stored_message account_id (some key) t = found_message (first_where (has_key account_id key) t)

-- The number of the next message, or the conflict with the number that the caller expects.
unfoldable pub next_sequence : Append → List RelayMessage → Result AppendError ℕ
unfolding latest_sequence
next_sequence a t =
    let latest = latest_sequence a.conversation_id t in
    if holds (λ e. not (e == latest) && not (e == suc latest)) a.expected_sequence
    then err (AppendError.sequence_conflict latest)
    else ok (suc latest)

unfoldable pub new_message : (now id sequence content : ℕ) → Append → RelayMessage
new_message now id sequence content a = record {
  id = id;
  conversation_id = a.conversation_id;
  account_id = a.account_id;
  sequence = sequence;
  role = a.role;
  content = content;
  idempotency_key = a.idempotency_key;
  created_at = now;
  deleted_at = none;
}

-- The unique indexes: the id, the number of a live message in its conversation, the key of an account.
unfoldable pub clashes : RelayMessage → RelayMessage → Bool
unfolding is_live has_key
clashes m r =
    r.id == m.id
    || (is_live m.conversation_id r && r.sequence == m.sequence)
    || holds (λ key. has_key m.account_id key r) m.idempotency_key

abbrev again_message : Option (ℕ × ℕ) → Appended
again_message none = err AppendError.type_error
again_message (some r) = ok r

-- `insert ... on conflict do nothing returning`, and what the code makes of its result. The insert
-- and the lookup behind it see one state.
unfoldable pub insert_message : RelayMessage → List RelayMessage → List RelayMessage × Appended
unfolding clashes stored_message
insert_message m t =
    if any (clashes m) t
    then (t, again_message (stored_message m.account_id m.idempotency_key t))
    else (t ++ (m ∷ []), ok (m.id, m.sequence))

-- The part of an append behind the check of its key.
unfoldable pub append_numbered :
    (now id : ℕ)
    → (encrypt : (sequence : ℕ) → ℕ) → Append
    → Result AppendError ℕ
    → List RelayMessage
    → List RelayMessage × Appended
unfolding new_message insert_message
append_numbered now id encrypt a (err e) t = (t, err e)
append_numbered now id encrypt a (ok sequence) t =
    insert_message (new_message now id sequence (encrypt sequence) a) t

abbrev append_unless :
    Option (ℕ × ℕ) → List RelayMessage × Appended → List RelayMessage → List RelayMessage × Appended
append_unless none fresh t = fresh
append_unless (some r) fresh t = (t, ok r)

-- `appendRelayMessage`: the key is looked up in the state `first`, the number is read in the state
-- `second`, and the row is inserted into `t`.
unfoldable pub append_relay_message :
    (now id : ℕ)
    → (encrypt : (sequence : ℕ) → ℕ) → Append
    → (first second t : List RelayMessage) → List RelayMessage × Appended
unfolding stored_message append_numbered next_sequence
append_relay_message now id encrypt a first second t =
    append_unless (stored_message a.account_id a.idempotency_key first)
      (append_numbered now id encrypt a (next_sequence a second) t) t

-- One row in its place of `order by sequence asc`.
unfoldable pub place_message : RelayMessage → List RelayMessage → List RelayMessage
place_message m [] = m ∷ []
place_message m (r ∷ rs) =
    let rest = place_message m rs in if ltb r.sequence m.sequence then r ∷ rest else m ∷ r ∷ rs

-- `order by sequence asc`
unfoldable pub by_sequence : List RelayMessage → List RelayMessage
unfolding place_message
by_sequence [] = []
by_sequence (m ∷ ms) = place_message m (by_sequence ms)

-- What a page selects.
unfoldable pub is_page_row : (account_id conversation_id after : ℕ) → RelayMessage → Bool
unfolding is_live
is_page_row account_id conversation_id after m =
    is_live conversation_id m && m.account_id == account_id && ltb after m.sequence

unfoldable pub rows_after :
    (account_id conversation_id after : ℕ) → List RelayMessage → List RelayMessage
unfolding is_page_row rows_where by_sequence
rows_after account_id conversation_id after t =
    by_sequence (rows_where (is_page_row account_id conversation_id after) t)

-- `Math.min(Math.max(limit, 1), 200)`
unfoldable pub page_limit : ℕ → ℕ
page_limit limit = min (max limit 1) 200

-- The sequence of the last message of a page.
unfoldable pub last_sequence : List RelayMessage → Option ℕ
last_sequence [] = none
last_sequence (m ∷ []) = some m.sequence
last_sequence (m ∷ n ∷ rest) = last_sequence (n ∷ rest)

pub record Page : Type 0 where
  pub messages : List RelayMessage
  pub next_cursor : Option ℕ
  pub latest_sequence : ℕ

-- `listRelayMessages` behind the check of the owner; the cursor is the sequence that it encodes.
unfoldable pub list_relay_messages :
    (account_id conversation_id since : ℕ)
    → (cursor : Option ℕ) → (limit : ℕ) → List RelayMessage
    → Page
unfolding rows_after page_limit take last_sequence latest_sequence
list_relay_messages account_id conversation_id since cursor limit t =
    let after = max since (coalesce cursor 0) in
    let rows = take (suc (page_limit limit)) (rows_after account_id conversation_id after t) in
    let messages = take (page_limit limit) rows in
    record {
      messages = messages;
      next_cursor = if ltb (page_limit limit) (length rows) then last_sequence messages else none;
      latest_sequence = latest_sequence conversation_id t;
    }
