-- ===== src/Run.antt =====
-- The `runs` table and the tables joined with it (apps/server/src/db.ts, the schema in `migrate`;
-- statuses and cancel reasons from packages/shared/src/index.ts and csapi/runTimeouts.ts).
-- Identifiers (uuid and text keys) are numbers, since the code only compares them; timestamps are
-- milliseconds. A column that no modelled statement reads or writes is left out.
pub mod Queue
pub mod Lease
pub mod Deadline
pub mod Trash
pub mod Migrate
use cursor_gateway.Base.{ℕ, Bool, true, false, Option, none, some, List, ◌∷◌, String}
use text.Mathlib.Text.{starts_with}

pub data RunStatus : Type 0 where
  queued waiting_approval running finished error cancelled : RunStatus

pub data CancelReason : Type 0 where
  queue_timeout idle_timeout absolute_timeout : CancelReason
  caller_cancelled client_aborted runner_cancelled : CancelReason

pub data ContentMode : Type 0 where
  plaintext e2ee_v1 scrubbed : ContentMode

-- The final statuses that a runner may report.
pub data Ending : Type 0 where
  ended_finished ended_error ended_cancelled : Ending

abbrev pub ending_status : Ending → RunStatus
ending_status ended_finished = RunStatus.finished
ending_status ended_error = RunStatus.error
ending_status ended_cancelled = RunStatus.cancelled

-- The envelopes of an encrypted run: the fields that a modelled statement reads alone; `payload`
-- stands for all the others, which are only stored and compared as a whole.
pub record RunRequest : Type 0 where
  pub run_id : ℕ
  pub message_id : ℕ
  pub conversation_id : ℕ
  pub client_id : ℕ
  pub client_key_id : ℕ
  pub runner_id : ℕ
  pub runner_key_id : ℕ
  pub sequence : ℕ
  pub model : String
  pub workspace_id : String
  pub allow_writes : Bool
  pub memory_enabled : Bool
  pub title : Option String
  pub payload : String

pub record Approval : Type 0 where
  pub message_id : ℕ
  pub run_id : ℕ
  pub conversation_id : ℕ
  pub client_id : ℕ
  pub client_key_id : ℕ
  pub runner_id : ℕ
  pub runner_key_id : ℕ
  pub payload : String

pub record Progress : Type 0 where
  pub run_id : ℕ
  pub conversation_id : ℕ
  pub sequence : ℕ
  pub payload : String

pub record RunResult : Type 0 where
  pub message_id : ℕ
  pub run_id : ℕ
  pub conversation_id : ℕ
  pub status : Ending
  pub payload : String

pub record Run : Type 0 where
  pub id : ℕ
  pub conversation_id : ℕ
  pub user_id : ℕ
  pub status : RunStatus
  pub model : String
  pub workspace_id : String
  pub content_mode : ContentMode
  pub prompt : Option String
  pub response : Option String
  pub error : Option String
  pub progress : Option String
  pub progress_kind : Option String
  pub input_tokens : Option ℕ
  pub output_tokens : Option ℕ
  pub allow_writes : Bool
  pub memory_enabled : Bool
  pub csapi_key_id : Option ℕ
  pub idempotency_key : Option ℕ
  pub target_runner_id : Option ℕ
  pub runner_key_id : Option ℕ
  pub client_request_id : Option ℕ
  pub request_envelope : Option RunRequest
  pub approval_envelope : Option Approval
  pub progress_envelope : Option Progress
  pub progress_sequence : Option ℕ
  pub result_envelope : Option RunResult
  pub claim_attempts : ℕ
  pub claimed_by : Option ℕ
  pub claim_lease_id : Option ℕ
  pub lease_expires_at : Option ℕ
  pub cancel_reason : Option CancelReason
  pub queued_at : ℕ
  pub started_at : Option ℕ
  pub last_activity_at : Option ℕ
  pub finished_at : Option ℕ
  pub deleted_at : Option ℕ
  pub deleted_with_conversation : Bool
  pub created_at : ℕ
  pub updated_at : ℕ

pub record Conversation : Type 0 where
  pub id : ℕ
  pub user_id : ℕ
  pub workspace_id : String
  pub content_mode : ContentMode
  pub target_runner_id : Option ℕ
  pub runner_key_id : Option ℕ
  pub encrypted_title : Option String
  pub deleted_at : Option ℕ
  pub updated_at : ℕ

pub record AppUser : Type 0 where
  pub id : ℕ
  pub service_name : Option String

pub record TelegramSession : Type 0 where
  pub user_id : ℕ
  pub conversation_id : Option ℕ
  pub updated_at : ℕ

-- The calls of runWaiter.ts that a repository function makes after its commit.
pub data Notice : Type 0 where
  plaintext_job_queued : Notice
  e2ee_job_queued : (runner_id : ℕ) → Notice
  run_updated : (run_id : ℕ) → Notice

-- A statement that returned a row is followed by a notice.
abbrev pub noted : Option Run → Notice → List Notice → List Notice
noted none n sent = sent
noted (some r) n sent = n ∷ sent

-- The database, and the notices sent, the latest first.
pub record Store : Type 0 where
  pub runs : List Run
  pub conversations : List Conversation
  pub users : List AppUser
  pub telegram_sessions : List TelegramSession
  pub notices : List Notice

abbrev pub is_queued : RunStatus → Bool
is_queued RunStatus.queued = true
is_queued _ = false

abbrev pub is_waiting : RunStatus → Bool
is_waiting RunStatus.waiting_approval = true
is_waiting _ = false

abbrev pub is_running : RunStatus → Bool
is_running RunStatus.running = true
is_running _ = false

-- `isTerminalRunStatus`
abbrev pub is_terminal : RunStatus → Bool
is_terminal RunStatus.finished = true
is_terminal RunStatus.error = true
is_terminal RunStatus.cancelled = true
is_terminal _ = false

abbrev pub is_error : RunStatus → Bool
is_error RunStatus.error = true
is_error _ = false

-- `status in ('queued', 'waiting_approval')`
abbrev pub is_pending : RunStatus → Bool
is_pending RunStatus.queued = true
is_pending RunStatus.waiting_approval = true
is_pending _ = false

-- `status in ('queued', 'waiting_approval', 'running')`
abbrev pub is_active : RunStatus → Bool
is_active RunStatus.queued = true
is_active RunStatus.waiting_approval = true
is_active RunStatus.running = true
is_active _ = false

abbrev pub same_status : RunStatus → RunStatus → Bool
same_status RunStatus.queued RunStatus.queued = true
same_status RunStatus.waiting_approval RunStatus.waiting_approval = true
same_status RunStatus.running RunStatus.running = true
same_status RunStatus.finished RunStatus.finished = true
same_status RunStatus.error RunStatus.error = true
same_status RunStatus.cancelled RunStatus.cancelled = true
same_status _ _ = false

abbrev pub is_plaintext : ContentMode → Bool
is_plaintext ContentMode.plaintext = true
is_plaintext _ = false

abbrev pub is_e2ee : ContentMode → Bool
is_e2ee ContentMode.e2ee_v1 = true
is_e2ee _ = false

-- `model like 'hermes:%'`
unfoldable pub is_hermes : String → Bool
is_hermes model = starts_with model "hermes:"
