-- ===== src/Run/Trash.antt =====
-- Soft deletion of plaintext runs and conversations, and their restoration
-- (apps/server/src/db.ts: softDeleteRun, softDeleteConversation, restoreRun, restoreConversation).
-- The unique violation of a restored idempotency key that has been used again is not modelled.
use cursor_gateway.Base.{
  ℕ, String, Bool, true, false, not, ◌&&◌, Option, none, some, List, ◌==◌, if◌then◌else◌, any,
  is_some, is_none, or_else, same_number,
}
use cursor_gateway.Table.{update_where, update_key, update_returning, first_where, rows_where}
use cursor_gateway.Run.{
  RunStatus, CancelReason, Run, Conversation, TelegramSession, Store, is_pending, is_running,
  is_plaintext,
}

pub data SoftDelete : Type 0 where
  deleted : Option Run → SoftDelete
  running : SoftDelete
  not_found : SoftDelete

-- The `set` of both deletions: pending work is cancelled, all else keeps its status.
unfoldable pub mark_deleted : ℕ → (why : String) → (with_conversation : Bool) → Run → Run
mark_deleted now why with_conversation r =
    let pending = is_pending r.status in
    record r {
      status = if pending then RunStatus.cancelled else r.status;
      error = if pending then or_else r.error (some why) else r.error;
      cancel_reason = if pending then some CancelReason.caller_cancelled else r.cancel_reason;
      last_activity_at = if pending then some now else r.last_activity_at;
      deleted_at = some now;
      deleted_with_conversation = with_conversation;
      updated_at = now;
    }

unfoldable pub own_plain_run : (run_id user_id : ℕ) → Run → Bool
own_plain_run run_id user_id r =
    r.id == run_id && r.user_id == user_id && is_plaintext r.content_mode

unfoldable pub deletable : (run_id user_id : ℕ) → Run → Bool
unfolding own_plain_run
deletable run_id user_id r =
    own_plain_run run_id user_id r && is_none r.deleted_at && not (is_running r.status)

-- Why `softDeleteRun` deleted nothing.
abbrev pub refusal : Option Run → SoftDelete
refusal none = not_found
refusal (some r) =
    if is_some r.deleted_at then not_found else if is_running r.status then running else not_found

-- The answer of `softDeleteRun`.
abbrev pub run_deletion : Option Run → Option Run → SoftDelete
run_deletion none current = refusal current
run_deletion (some r) current = deleted (some r)

-- `softDeleteRun`
unfoldable pub soft_delete_run : ℕ → (run_id user_id : ℕ) → Store → Store × SoftDelete
unfolding deletable mark_deleted own_plain_run update_returning first_where
soft_delete_run now run_id user_id s =
    let (runs, found) =
      update_returning (deletable run_id user_id) (mark_deleted now "deleted by user" false)
        s.runs in
    (record s { runs = runs }, run_deletion found (first_where (own_plain_run run_id user_id) runs))

unfoldable pub own_live_conversation : (conversation_id user_id : ℕ) → Conversation → Bool
own_live_conversation conversation_id user_id c =
    c.id == conversation_id
    && c.user_id == user_id
    && is_plaintext c.content_mode
    && is_none c.deleted_at

unfoldable pub live_plain_run_of : ℕ → Run → Bool
live_plain_run_of conversation_id r =
    r.conversation_id == conversation_id && is_plaintext r.content_mode && is_none r.deleted_at

abbrev mark_conversation_deleted : ℕ → Conversation → Conversation
mark_conversation_deleted now c = record c { deleted_at = some now; updated_at = now }

abbrev uses_conversation : ℕ → TelegramSession → Bool
uses_conversation conversation_id t = same_number t.conversation_id (some conversation_id)

abbrev leave_conversation : ℕ → TelegramSession → TelegramSession
leave_conversation now t = record t { conversation_id = none; updated_at = now }

-- The three updates of `softDeleteConversation`.
unfoldable pub conversation_deleted : ℕ → ℕ → Store → Store
unfolding live_plain_run_of mark_deleted update_where update_key
conversation_deleted now conversation_id s = record s {
  runs =
      update_where (live_plain_run_of conversation_id)
        (mark_deleted now "conversation deleted by user" true) s.runs;
  conversations =
      update_key (λ (c : Conversation). c.id) conversation_id (mark_conversation_deleted now)
        s.conversations;
  telegram_sessions =
      update_where (uses_conversation conversation_id) (leave_conversation now) s.telegram_sessions;
}

-- `softDeleteConversation`
unfoldable pub soft_delete_conversation :
    ℕ → (conversation_id user_id : ℕ) → Store → Store × SoftDelete
unfolding own_live_conversation live_plain_run_of conversation_deleted rows_where
soft_delete_conversation now conversation_id user_id s =
    if not (any (own_live_conversation conversation_id user_id) s.conversations)
    then (s, not_found)
    else if any (λ (r : Run). is_running r.status)
        (rows_where (live_plain_run_of conversation_id) s.runs)
    then (s, running)
    else (conversation_deleted now conversation_id s, deleted none)

unfoldable pub restorable : (run_id user_id : ℕ) → List Conversation → Run → Bool
restorable run_id user_id conversations r =
    r.id == run_id
    && r.user_id == user_id
    && is_some r.deleted_at
    && not r.deleted_with_conversation
    && any (λ (c : Conversation). c.id == r.conversation_id && is_none c.deleted_at) conversations

unfoldable pub mark_restored : ℕ → Run → Run
mark_restored now r = record r {
  deleted_at = none;
  deleted_with_conversation = false;
  updated_at = now;
}

-- `restoreRun`
unfoldable pub restore_run : ℕ → (run_id user_id : ℕ) → Store → Store × Option Run
unfolding restorable mark_restored update_returning
restore_run now run_id user_id s =
    let (runs, found) =
      update_returning (restorable run_id user_id s.conversations) (mark_restored now) s.runs in
    (record s { runs = runs }, found)

unfoldable pub own_deleted_conversation : (conversation_id user_id : ℕ) → Conversation → Bool
own_deleted_conversation conversation_id user_id c =
    c.id == conversation_id && c.user_id == user_id && is_some c.deleted_at

abbrev mark_conversation_restored : ℕ → Conversation → Conversation
mark_conversation_restored now c = record c { deleted_at = none; updated_at = now }

unfoldable pub deleted_with : ℕ → Run → Bool
deleted_with conversation_id r = r.conversation_id == conversation_id && r.deleted_with_conversation

-- `restoreConversation`
unfoldable pub restore_conversation : ℕ → (conversation_id user_id : ℕ) → Store → Store × Bool
unfolding own_deleted_conversation deleted_with mark_restored update_where
restore_conversation now conversation_id user_id s =
    let own = own_deleted_conversation conversation_id user_id in
    let conversations = update_where own (mark_conversation_restored now) s.conversations in
    if not (any own s.conversations) then (record s { conversations = conversations }, false) else (
      record s {
        runs = update_where (deleted_with conversation_id) (mark_restored now) s.runs;
        conversations = conversations;
      },
      true,
    )
