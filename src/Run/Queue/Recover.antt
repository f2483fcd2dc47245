-- ===== src/Run/Queue/Recover.antt =====
-- The recovery of interrupted plaintext runs: recoverStaleRuns of apps/server/src/db.ts.
use cursor_gateway.Base.{ℕ, ◌+◌, String, Bool, not, ◌&&◌, none, some, ltb, leb, is_none, coalesce}
use cursor_gateway.Table.{update_where, count_where}
use cursor_gateway.Run.{RunStatus, Run, Store, is_running, is_plaintext, is_hermes}

pub data RunExecutor : Type 0 where
  windows hermes : RunExecutor

unfoldable pub serves : RunExecutor → String → Bool
unfolding is_hermes
serves windows model = not (is_hermes model)
serves hermes model = is_hermes model

-- `coalesce(last_activity_at, started_at, updated_at) < now() - stale_after`
unfoldable pub is_stale : ℕ → ℕ → Run → Bool
is_stale now stale_after r =
    ltb (coalesce r.last_activity_at (coalesce r.started_at r.updated_at) + stale_after) now

unfoldable pub interrupted : ℕ → RunExecutor → ℕ → Run → Bool
unfolding serves is_stale
interrupted now executor stale_after r =
    is_running r.status
    && is_plaintext r.content_mode
    && is_none r.deleted_at
    && is_stale now stale_after r
    && serves executor r.model

unfoldable pub exhausted : ℕ → RunExecutor → (stale_after max_attempts : ℕ) → Run → Bool
unfolding interrupted
exhausted now executor stale_after max_attempts r =
    interrupted now executor stale_after r && leb max_attempts r.claim_attempts

unfoldable pub retriable : ℕ → RunExecutor → (stale_after max_attempts : ℕ) → Run → Bool
unfolding interrupted
retriable now executor stale_after max_attempts r =
    interrupted now executor stale_after r && ltb r.claim_attempts max_attempts

unfoldable pub mark_interrupted : ℕ → Run → Run
mark_interrupted now r = record r {
  status = RunStatus.error;
  error = some "runner interrupted too many times";
  progress = none;
  progress_kind = none;
  claim_lease_id = none;
  claimed_by = none;
  lease_expires_at = none;
  finished_at = some now;
  updated_at = now;
}

unfoldable pub mark_requeued : ℕ → Run → Run
mark_requeued now r = record r {
  status = RunStatus.queued;
  error = some "requeued after runner interruption";
  progress = none;
  progress_kind = none;
  claim_lease_id = none;
  claimed_by = none;
  lease_expires_at = none;
  queued_at = now;
  last_activity_at = none;
  updated_at = now;
}

pub record StaleRunRecovery : Type 0 where
  pub requeued : ℕ
  pub failed : ℕ

-- `recoverStaleRuns`: the second statement reads the rows that the first one left.
unfoldable pub recover_stale_runs :
    ℕ → RunExecutor → (stale_after max_attempts : ℕ) → Store → Store × StaleRunRecovery
unfolding exhausted retriable mark_interrupted mark_requeued update_where count_where
recover_stale_runs now executor stale_after max_attempts s =
    let failing = exhausted now executor stale_after max_attempts in
    let waiting = retriable now executor stale_after max_attempts in
    let left = update_where failing (mark_interrupted now) s.runs in
    (
      record s { runs = update_where waiting (mark_requeued now) left },
      record { requeued = count_where waiting left; failed = count_where failing s.runs },
    )
