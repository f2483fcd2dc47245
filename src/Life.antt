-- ===== src/Life.antt =====
-- The life of a run under the modelled statements of apps/server/src/db.ts and e2eeDb.ts, in any
-- order: the invariant of a row, and of the table under the deployment's two limits,
-- `runnerMaxConcurrentJobs` and `runnerMaxAttempts`.
pub mod Committed
pub mod Rows
pub mod Tables
pub mod Statements
pub mod Encrypted
pub mod Trace
pub mod Moves
pub mod History
pub mod Outcomes
pub mod Events
pub mod Served
pub mod Calm
pub mod Exclusive
pub mod Approved
pub mod Consent
use cursor_gateway.Base.{
  ℕ, ◌≤◌, ◌<◌, Bool, true, false, Option, none, some, List, ◌≡◌, All, is_some,
}
use cursor_gateway.Table.{count_where}
use cursor_gateway.Table.Keys.{Unique}
use cursor_gateway.Run.{Run, is_queued, is_waiting, is_running, is_pending, is_terminal}
use cursor_gateway.Run.Queue.{occupies_slot}

-- What holds of each row between two statements.
pub record RowOk (max_attempts : ℕ) (r : Run) : Type 0 where
  pub deleted_over : is_some r.deleted_at ≡ true → is_terminal r.status ≡ true
  pub running_started : is_running r.status ≡ true → is_some r.started_at ≡ true
  pub running_claimed : is_running r.status ≡ true → is_some r.claimed_by ≡ true
  pub running_leased : is_running r.status ≡ true → is_some r.claim_lease_id ≡ true
  pub pending_unclaimed : is_pending r.status ≡ true → r.claimed_by ≡ none
  pub pending_unleased : is_pending r.status ≡ true → r.claim_lease_id ≡ none
  pub waiting_fresh : is_waiting r.status ≡ true → r.claim_attempts ≡ 0
  pub queued_left : is_queued r.status ≡ true → r.claim_attempts < max_attempts
  pub attempts_left : r.claim_attempts ≤ max_attempts

-- The ids are distinct, each row is in order, and the budget holds.
pub record IsSound (max_jobs max_attempts : ℕ) (runs : List Run) : Type 0 where
  pub unique : Unique (λ (r : Run). r.id) runs
  pub rows : All (RowOk max_attempts) runs
  pub budget : count_where occupies_slot runs ≤ max_jobs
