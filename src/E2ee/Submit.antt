-- ===== src/E2ee/Submit.antt =====
-- What a client does to an encrypted run: createE2eeRun of apps/server/src/e2eeDb.ts, with the
-- approval and the cancellation in a child. An error rolls the transaction back: it carries no
-- store.
mod Approve
unfoldable pub use Approve.*
use cursor_gateway.Base.{
  ℕ, String, Bool, true, false, not, ◌&&◌, ◌||◌, Option, none, some, List, [], ◌∷◌, ◌++◌, ◌==◌,
  if◌then◌else◌, any, is_some, holds, or_else, same_number, Result, ok, err,
}
use text.Mathlib.Text.{◌==◌ as str_eq}
use cursor_gateway.Table.{update_key, update_returning, first_where, insert_row}
use cursor_gateway.Run.{
  RunStatus, CancelReason, ContentMode, RunRequest, Approval, Run, Conversation, Store,
  e2ee_job_queued, is_waiting, is_active, is_e2ee,
}
use cursor_gateway.E2ee.{
  E2eeError, invalid_e2ee_request_identity, run_id_conflict, conversation_not_found,
  conversation_encryption_downgrade, conversation_e2ee_context_mismatch, approval_request_mismatch,
  approval_already_submitted, unique_violation, invalid_envelope, same_request, same_approval,
}

-- The check that the function makes before its transaction.
unfoldable pub valid_identity : RunRequest → Bool
valid_identity q =
    q.run_id == q.message_id && not (str_eq q.model "") && not (str_eq q.workspace_id "")

unfoldable pub new_e2ee_run : ℕ → (user_id : ℕ) → RunRequest → Run
new_e2ee_run now user_id q = record {
  id = q.run_id;
  conversation_id = q.conversation_id;
  user_id = user_id;
  status = if q.allow_writes then RunStatus.waiting_approval else RunStatus.queued;
  model = q.model;
  workspace_id = q.workspace_id;
  content_mode = ContentMode.e2ee_v1;
  prompt = none;
  response = none;
  error = none;
  progress = none;
  progress_kind = none;
  input_tokens = none;
  output_tokens = none;
  allow_writes = q.allow_writes;
  memory_enabled = q.memory_enabled;
  csapi_key_id = none;
  idempotency_key = none;
  target_runner_id = some q.runner_id;
  runner_key_id = some q.runner_key_id;
  client_request_id = some q.message_id;
  request_envelope = some q;
  approval_envelope = none;
  progress_envelope = none;
  progress_sequence = none;
  result_envelope = none;
  claim_attempts = 0;
  claimed_by = none;
  claim_lease_id = none;
  lease_expires_at = none;
  cancel_reason = none;
  queued_at = now;
  started_at = none;
  last_activity_at = none;
  finished_at = none;
  deleted_at = none;
  deleted_with_conversation = false;
  created_at = now;
  updated_at = now;
}

-- The unique indexes `runs_e2ee_client_request_unique` and `runs_e2ee_conversation_sequence_unique`.
unfoldable pub collides : (user_id : ℕ) → RunRequest → Run → Bool
collides user_id q r =
    is_e2ee r.content_mode
    && (r.user_id == user_id && same_number r.client_request_id (some q.message_id)
        || r.conversation_id == q.conversation_id
          && holds (λ (p : RunRequest). p.sequence == q.sequence) r.request_envelope)

-- The conversation that the request names may carry it, or the error that it is refused with.
unfoldable pub conversation_error : (user_id : ℕ) → RunRequest → Conversation → Option E2eeError
conversation_error user_id q c =
    if not (c.user_id == user_id)
    then some conversation_not_found
    else if not (is_e2ee c.content_mode)
    then some conversation_encryption_downgrade
    else if not (
        str_eq c.workspace_id q.workspace_id
        && same_number c.target_runner_id (some q.runner_id)
        && same_number c.runner_key_id (some q.runner_key_id))
    then some conversation_e2ee_context_mismatch
    else none

abbrev keep_title : ℕ → Option String → Conversation → Conversation
keep_title now title c = record c {
  encrypted_title = or_else c.encrypted_title title;
  updated_at = now;
}

unfoldable pub new_e2ee_conversation : ℕ → (user_id : ℕ) → RunRequest → Conversation
new_e2ee_conversation now user_id q = record {
  id = q.conversation_id;
  user_id = user_id;
  workspace_id = q.workspace_id;
  content_mode = ContentMode.e2ee_v1;
  target_runner_id = some q.runner_id;
  runner_key_id = some q.runner_key_id;
  encrypted_title = q.title;
  deleted_at = none;
  updated_at = now;
}

-- The conversation is checked and touched, or made.
unfoldable pub join_conversation :
    ℕ → (user_id : ℕ) → RunRequest → List Conversation → Result E2eeError (List Conversation)
unfolding conversation_error new_e2ee_conversation first_where update_key
join_conversation now user_id q conversations =
    elim (first_where (λ (c : Conversation). c.id == q.conversation_id) conversations) [
      | none ↦ ok (conversations ++ new_e2ee_conversation now user_id q ∷ [])
      | some c ↦ elim (conversation_error user_id q c) [
        | some e ↦ err e
        | none ↦ ok (
            update_key (λ (d : Conversation). d.id) q.conversation_id (keep_title now q.title)
              conversations)
      ]
    ]

-- The runner is told of a new run that needs no approval.
unfoldable pub submitted : RunRequest → Store → List Run → List Conversation → Store
submitted q s runs conversations = record s {
  runs = runs;
  conversations = conversations;
  notices = if q.allow_writes then s.notices else e2ee_job_queued q.runner_id ∷ s.notices;
}

-- The insertion of `createE2eeRun`, under the unique indexes.
unfoldable pub insert_e2ee_run :
    ℕ
    → (user_id : ℕ) → RunRequest
    → Store
    → List Conversation
    → Result E2eeError (Store × Run × Bool)
unfolding new_e2ee_run collides submitted insert_row
insert_e2ee_run now user_id q s conversations =
    if any (collides user_id q) s.runs
    then err unique_violation
    else elim (insert_row (λ r. r.id) (new_e2ee_run now user_id q) s.runs) [
      | none ↦ err unique_violation
      | some runs ↦ ok (submitted q s runs conversations, new_e2ee_run now user_id q, true)
    ]

-- The insertion, unless the conversation was refused.
unfoldable pub insert_joined :
    ℕ
    → (user_id : ℕ) → RunRequest
    → Store
    → Result E2eeError (List Conversation)
    → Result E2eeError (Store × Run × Bool)
unfolding insert_e2ee_run
insert_joined now user_id q s (err e) = err e
insert_joined now user_id q s (ok conversations) = insert_e2ee_run now user_id q s conversations

-- The transaction, by the run of this user that has the id already.
unfoldable pub submit_found :
    ℕ → (user_id : ℕ) → RunRequest → Store → Option Run → Result E2eeError (Store × Run × Bool)
unfolding join_conversation insert_joined same_request
submit_found now user_id q s (some r) =
    if holds (same_request q) r.request_envelope then ok (s, r, false) else err run_id_conflict
submit_found now user_id q s none =
    if any (λ (r : Run). r.id == q.run_id) s.runs
    then err run_id_conflict
    else insert_joined now user_id q s (join_conversation now user_id q s.conversations)

-- `createE2eeRun`: the run, and whether it was created.
unfoldable pub create_e2ee_run :
    ℕ → (user_id : ℕ) → RunRequest → Store → Result E2eeError (Store × Run × Bool)
unfolding valid_identity own_e2ee_run submit_found first_where
create_e2ee_run now user_id q s =
    if not (valid_identity q)
    then err invalid_e2ee_request_identity
    else submit_found now user_id q s (first_where (own_e2ee_run q.run_id user_id) s.runs)
