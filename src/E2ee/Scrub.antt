-- ===== src/E2ee/Scrub.antt =====
-- scrubLegacyData of apps/server/src/e2eeDb.ts: the plaintext content of a user's conversations is
-- wiped once they have moved to the encrypted history. The titles and the agents of conversations
-- and the facts of the memory are no part of the store.
use cursor_gateway.Base.{
  ℕ, Bool, ◌&&◌, ◌==◌, any, none, some, List, or_else, if◌then◌else◌, Result, ok, err,
}
use cursor_gateway.Table.{update_where, rows_where, count_where}
use cursor_gateway.Run.{ContentMode, Run, Conversation, Store, is_plaintext, is_active}

pub data ScrubError : Type 0 where
  legacy_migration_has_active_runs : ScrubError

-- The counts that are returned.
pub record Scrubbed : Type 0 where
  pub conversations : ℕ
  pub runs : ℕ

unfoldable pub legacy_run : (user_id : ℕ) → (conversation_ids : List ℕ) → Run → Bool
legacy_run user_id conversation_ids r =
    r.user_id == user_id
    && is_plaintext r.content_mode
    && any (λ k. k == r.conversation_id) conversation_ids

unfoldable pub mark_scrubbed : ℕ → Run → Run
mark_scrubbed now r = record r {
  prompt = none;
  response = none;
  error = none;
  progress = none;
  progress_kind = none;
  input_tokens = none;
  output_tokens = none;
  content_mode = ContentMode.scrubbed;
  deleted_at = or_else r.deleted_at (some now);
  updated_at = now;
}

unfoldable pub legacy_conversation :
    (user_id : ℕ) → (conversation_ids : List ℕ) → Conversation → Bool
legacy_conversation user_id conversation_ids c =
    c.user_id == user_id && is_plaintext c.content_mode && any (λ k. k == c.id) conversation_ids

abbrev mark_conversation_scrubbed : ℕ → Conversation → Conversation
mark_conversation_scrubbed now c = record c {
  content_mode = ContentMode.scrubbed;
  deleted_at = or_else c.deleted_at (some now);
  updated_at = now;
}

-- `scrubLegacyData`
unfoldable pub scrub_legacy_data :
    ℕ → (user_id : ℕ) → (conversation_ids : List ℕ) → Store → Result ScrubError (Store × Scrubbed)
unfolding legacy_run mark_scrubbed legacy_conversation update_where rows_where count_where
scrub_legacy_data now user_id conversation_ids s =
    let old = legacy_run user_id conversation_ids in
    let old_conversation = legacy_conversation user_id conversation_ids in
    if any (λ (r : Run). is_active r.status) (rows_where old s.runs)
    then err ScrubError.legacy_migration_has_active_runs
    else ok (
      record s {
        runs = update_where old (mark_scrubbed now) s.runs;
        conversations =
            update_where old_conversation (mark_conversation_scrubbed now) s.conversations;
      },
      record {
        conversations = count_where old_conversation s.conversations;
        runs = count_where old s.runs;
      },
    )
