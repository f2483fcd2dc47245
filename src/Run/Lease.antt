-- ===== src/Run/Lease.antt =====
-- What the runner that holds a lease does to a plaintext run (apps/server/src/db.ts):
-- renewRunLease, updateRunProgress and finishRun.
pub mod Fence
use cursor_gateway.Base.{
  ℕ, String, Bool, ◌&&◌, Option, none, some, ◌==◌, is_some, is_none, or_else, same_number,
  same_text,
}
use cursor_gateway.Table.{update_returning, first_where}
use cursor_gateway.Run.{
  noted, CancelReason, Ending, ended_cancelled, ending_status, Run, Store, run_updated, is_running,
  is_plaintext, same_status,
}

-- `claimed_by = $2 and claim_lease_id = $3 and status = 'running' and content_mode = 'plaintext'`
unfoldable pub leased : (run_id runner_id lease : ℕ) → Run → Bool
leased run_id runner_id lease r =
    r.id == run_id
    && is_plaintext r.content_mode
    && is_running r.status
    && same_number r.claimed_by (some runner_id)
    && same_number r.claim_lease_id (some lease)

unfoldable pub renewable : (run_id runner_id lease : ℕ) → Run → Bool
unfolding leased
renewable run_id runner_id lease r = leased run_id runner_id lease r && is_none r.deleted_at

unfoldable pub mark_renewed : ℕ → Run → Run
mark_renewed now r = record r { last_activity_at = some now }

-- `renewRunLease`
unfoldable pub renew_run_lease : ℕ → (run_id runner_id lease : ℕ) → Store → Store × Bool
unfolding renewable mark_renewed update_returning
renew_run_lease now run_id runner_id lease s =
    let (runs, found) =
      update_returning (renewable run_id runner_id lease) (mark_renewed now) s.runs in
    (record s { runs = runs }, is_some found)

unfoldable pub mark_progress : ℕ → (kind message : String) → Run → Run
mark_progress now kind message r = record r {
  progress = some message;
  progress_kind = some kind;
  last_activity_at = some now;
  updated_at = now;
}

-- `updateRunProgress`
unfoldable pub update_run_progress :
    ℕ → (run_id runner_id lease : ℕ) → (kind message : String) → Store → Store × Bool
unfolding leased mark_progress update_returning
update_run_progress now run_id runner_id lease kind message s =
    let (runs, found) =
      update_returning (leased run_id runner_id lease) (mark_progress now kind message) s.runs in
    (record s { runs = runs; notices = noted found (run_updated run_id) s.notices }, is_some found)

-- `case when $2 = 'cancelled' then coalesce(cancel_reason, 'runner_cancelled') else null end`
abbrev pub ending_reason : Ending → Option CancelReason → Option CancelReason
ending_reason ended_cancelled reason = or_else reason (some CancelReason.runner_cancelled)
ending_reason _ reason = none

pub record FinishRun : Type 0 where
  pub run_id : ℕ
  pub runner_id : ℕ
  pub lease_id : ℕ
  pub status : Ending
  pub response : Option String
  pub error : Option String
  pub input_tokens : Option ℕ
  pub output_tokens : Option ℕ

unfoldable pub mark_finished : ℕ → FinishRun → Run → Run
mark_finished now i r = record r {
  status = ending_status i.status;
  response = i.response;
  error = i.error;
  input_tokens = i.input_tokens;
  output_tokens = i.output_tokens;
  progress = none;
  progress_kind = none;
  last_activity_at = some now;
  cancel_reason = ending_reason i.status r.cancel_reason;
  finished_at = some now;
  updated_at = now;
}

-- The query that lets the same attempt replay the exact terminal result.
unfoldable pub replays : FinishRun → Run → Bool
replays i r =
    r.id == i.run_id
    && is_plaintext r.content_mode
    && same_number r.claimed_by (some i.runner_id)
    && same_number r.claim_lease_id (some i.lease_id)
    && same_status r.status (ending_status i.status)
    && same_text r.response i.response
    && same_text r.error i.error
    && same_number r.input_tokens i.input_tokens
    && same_number r.output_tokens i.output_tokens

-- `finishRun`
unfoldable pub finish_run : ℕ → FinishRun → Store → Store × Option Run
unfolding leased mark_finished replays update_returning first_where
finish_run now i s =
    let (runs, found) =
      update_returning (leased i.run_id i.runner_id i.lease_id) (mark_finished now i) s.runs in
    (
      record s { runs = runs; notices = noted found (run_updated i.run_id) s.notices },
      or_else found (first_where (replays i) runs),
    )
