-- ===== src/Run/Queue.antt =====
-- The plaintext queue of apps/server/src/db.ts: createRun, claimNextRun and approveRun, with
-- recoverStaleRuns in a child. A fresh uuid is an argument. Statements run one at a time, as the
-- locks of the source make them; a row that another transaction holds, which `skip locked` passes
-- over, is not modelled.
pub mod Order
mod Recover
unfoldable pub use Recover.*
use cursor_gateway.Base.{
  ℕ, ◌+◌, String, Bool, false, not, ◌&&◌, ◌||◌, Option, none, some, List, ◌∷◌, ltb, leb, ◌==◌,
  if◌then◌else◌, any, is_some, is_none, or_else, coalesce, same_number,
}
use cursor_gateway.Table.{
  update_where, update_key, update_returning, count_where, earliest_where, insert_row,
}
use cursor_gateway.Run.{
  noted, RunStatus, ContentMode, Run, Conversation, Store, plaintext_job_queued, is_queued,
  is_waiting, is_running, is_plaintext, is_hermes,
}

-- What `createRun` is given, and the uuid that the database generates.
pub record CreateRun : Type 0 where
  pub id : ℕ
  pub conversation_id : ℕ
  pub user_id : ℕ
  pub status : RunStatus
  pub model : String
  pub workspace_id : String
  pub prompt : String
  pub allow_writes : Bool
  pub memory_enabled : Bool
  pub csapi_key_id : Option ℕ
  pub idempotency_key : Option ℕ

unfoldable pub new_run : ℕ → CreateRun → Run
new_run now i = record {
  id = i.id;
  conversation_id = i.conversation_id;
  user_id = i.user_id;
  status = i.status;
  model = i.model;
  workspace_id = i.workspace_id;
  content_mode = ContentMode.plaintext;
  prompt = some i.prompt;
  response = none;
  error = none;
  progress = none;
  progress_kind = none;
  input_tokens = none;
  output_tokens = none;
  allow_writes = i.allow_writes;
  memory_enabled = i.memory_enabled;
  csapi_key_id = i.csapi_key_id;
  idempotency_key = i.idempotency_key;
  target_runner_id = none;
  runner_key_id = none;
  client_request_id = none;
  request_envelope = none;
  approval_envelope = none;
  progress_envelope = none;
  progress_sequence = none;
  result_envelope = none;
  claim_attempts = 0;
  claimed_by = none;
  claim_lease_id = none;
  lease_expires_at = none;
  cancel_reason = none;
  queued_at = now;
  started_at = none;
  last_activity_at = none;
  finished_at = none;
  deleted_at = none;
  deleted_with_conversation = false;
  created_at = now;
  updated_at = now;
}

-- The unique index `runs_user_idempotency_active_unique`.
unfoldable pub same_idempotency : CreateRun → Run → Bool
same_idempotency i r =
    r.user_id == i.user_id
    && is_some i.idempotency_key
    && is_none r.deleted_at
    && same_number r.idempotency_key i.idempotency_key

abbrev touch_conversation : ℕ → Conversation → Conversation
touch_conversation now c = record c { updated_at = now }

-- The store after the insertion; `queued` work wakes the plaintext pollers.
unfoldable pub created : ℕ → Store → Run → List Run → Store
unfolding update_key
created now s r runs = record s {
  runs = runs;
  conversations =
      update_key (λ (c : Conversation). c.id) r.conversation_id (touch_conversation now)
        s.conversations;
  notices = if is_queued r.status then plaintext_job_queued ∷ s.notices else s.notices;
}

-- `none` is a unique violation, which leaves the store as it was.
unfoldable pub create_run : ℕ → CreateRun → Store → Option (Store × Run)
unfolding new_run same_idempotency created insert_row
create_run now i s =
    if any (same_idempotency i) s.runs
    then none
    else elim (insert_row (λ r. r.id) (new_run now i) s.runs) [
      | none ↦ none
      | some runs ↦ some (created now s (new_run now i) runs, new_run now i)
    ]

-- The rows that the execution budget counts.
unfoldable pub occupies_slot : Run → Bool
occupies_slot r = is_running r.status && is_none r.deleted_at && is_some r.claimed_by

unfoldable pub plain_conversation : ℕ → Conversation → Bool
plain_conversation id c = c.id == id && is_plaintext c.content_mode && is_none c.deleted_at

unfoldable pub claimable : RunExecutor → List Conversation → Run → Bool
unfolding serves plain_conversation
claimable executor conversations r =
    is_queued r.status
    && is_plaintext r.content_mode
    && is_none r.deleted_at
    && any (plain_conversation r.conversation_id) conversations
    && serves executor r.model

-- `order by r.queued_at asc, r.created_at asc`
unfoldable pub queued_before : Run → Run → Bool
queued_before s r =
    ltb s.queued_at r.queued_at || (s.queued_at == r.queued_at && ltb s.created_at r.created_at)

unfoldable pub mark_claimed : ℕ → ℕ → ℕ → Run → Run
mark_claimed now runner_id lease r = record r {
  status = RunStatus.running;
  started_at = or_else r.started_at (some now);
  last_activity_at = some now;
  updated_at = now;
  claimed_by = some runner_id;
  claim_lease_id = some lease;
  claim_attempts = r.claim_attempts + 1;
}

-- `claimNextRun`: the claimed run and its lease.
unfoldable pub claim_next_run :
    ℕ → RunExecutor → (runner_id lease max_jobs : ℕ) → Store → Store × Option (Run × ℕ)
unfolding occupies_slot claimable queued_before mark_claimed count_where earliest_where update_key
claim_next_run now executor runner_id lease max_jobs s =
    if leb max_jobs (count_where occupies_slot s.runs)
    then (s, none)
    else elim (earliest_where (claimable executor s.conversations) queued_before s.runs) [
      | none ↦ (s, none)
      | some r ↦ (
        record s { runs = update_key (λ q. q.id) r.id (mark_claimed now runner_id lease) s.runs },
        some (mark_claimed now runner_id lease r, lease),
      )
    ]

unfoldable pub approvable : (run_id user_id : ℕ) → Run → Bool
approvable run_id user_id r =
    r.id == run_id && r.user_id == user_id && is_plaintext r.content_mode && is_waiting r.status

unfoldable pub mark_approved : ℕ → Run → Run
mark_approved now r = record r {
  status = RunStatus.queued;
  queued_at = now;
  last_activity_at = none;
  updated_at = now;
}

-- `approveRun`
unfoldable pub approve_run : ℕ → (run_id user_id : ℕ) → Store → Store × Option Run
unfolding approvable mark_approved update_returning
approve_run now run_id user_id s =
    let (runs, found) = update_returning (approvable run_id user_id) (mark_approved now) s.runs in
    (record s { runs = runs; notices = noted found plaintext_job_queued s.notices }, found)
