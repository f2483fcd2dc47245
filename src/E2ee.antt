-- ===== src/E2ee.antt =====
-- The repository of encrypted runs (apps/server/src/e2eeDb.ts): what its functions share.
pub mod Submit
pub mod Work
pub mod Scrub
pub mod Resubmit
pub mod Replay
use cursor_gateway.Base.{ℕ, Bool, true, false, ◌&&◌, Option, ◌==◌, same_number, same_text, is_some}
use text.Mathlib.Text.{◌==◌ as str_eq}
use cursor_gateway.Run.{RunRequest, Approval, Run, is_running, is_e2ee}

pub data E2eeError : Type 0 where
  invalid_e2ee_request_identity run_id_conflict conversation_not_found : E2eeError
  conversation_encryption_downgrade conversation_e2ee_context_mismatch : E2eeError
  approval_request_mismatch approval_already_submitted : E2eeError
  -- A unique index of the schema refuses the row (SQLSTATE 23505).
  unique_violation : E2eeError
  -- A stored envelope does not parse.
  invalid_envelope : E2eeError

-- `LEASE_MINUTES`, in milliseconds.
abbrev pub lease_ms : ℕ
lease_ms = 900000

abbrev pub same_flag : Bool → Bool → Bool
same_flag true true = true
same_flag true false = false
same_flag false true = false
same_flag false false = true

-- `request_envelope = $4::jsonb`
unfoldable pub same_request : RunRequest → RunRequest → Bool
same_request a b =
    a.run_id == b.run_id
    && a.message_id == b.message_id
    && a.conversation_id == b.conversation_id
    && a.client_id == b.client_id
    && a.client_key_id == b.client_key_id
    && a.runner_id == b.runner_id
    && a.runner_key_id == b.runner_key_id
    && a.sequence == b.sequence
    && str_eq a.model b.model
    && str_eq a.workspace_id b.workspace_id
    && same_flag a.allow_writes b.allow_writes
    && same_flag a.memory_enabled b.memory_enabled
    && same_text a.title b.title
    && str_eq a.payload b.payload

-- `approval_envelope = $4::jsonb`
unfoldable pub same_approval : Approval → Approval → Bool
same_approval a b =
    a.message_id == b.message_id
    && a.run_id == b.run_id
    && a.conversation_id == b.conversation_id
    && a.client_id == b.client_id
    && a.client_key_id == b.client_key_id
    && a.runner_id == b.runner_id
    && a.runner_key_id == b.runner_key_id
    && str_eq a.payload b.payload

-- The fence of every statement of a runner: `id = $1 and target_runner_id = $2 and claimed_by = $2
-- and claim_lease_id = $3 and status = 'running' and content_mode = 'e2ee-v1'`.
unfoldable pub e2ee_leased : (run_id runner_id lease : ℕ) → Run → Bool
e2ee_leased run_id runner_id lease r =
    r.id == run_id
    && same_number r.target_runner_id (Option.some runner_id)
    && same_number r.claimed_by (Option.some runner_id)
    && same_number r.claim_lease_id (Option.some lease)
    && is_running r.status
    && is_e2ee r.content_mode
