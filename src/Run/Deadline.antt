-- ===== src/Run/Deadline.antt =====
-- Cancellation and deadlines: cancelRun and expireCsapiRuns of apps/server/src/db.ts, and the
-- decision of apps/server/src/csapi/runTimeouts.ts. Limits are whole milliseconds; what the source
-- writes `now - t >= limit` is `t + limit ≤ now`, which says the same where `t` lies in the future.
pub mod Agreement
use cursor_gateway.Base.{
  ℕ, ◌+◌, String, Bool, true, false, not, ◌&&◌, ◌||◌, Option, none, some, List, leb, ◌==◌,
  if◌then◌else◌, any, is_some, is_none, or_else, holds, coalesce, same_text, max,
}
use cursor_gateway.Table.{update_where, update_returning, count_where}
use cursor_gateway.Run.{
  noted, RunStatus, CancelReason, Run, AppUser, Store, run_updated, is_pending, is_active,
  is_running, is_plaintext,
}

pub record RunTimeouts : Type 0 where
  pub queue_timeout_ms : ℕ
  pub idle_timeout_ms : ℕ
  pub absolute_timeout_ms : ℕ

abbrev pub csapi_caller_wait_safety_buffer_ms : ℕ
csapi_caller_wait_safety_buffer_ms = 30000

-- `minimumCsapiCallerWaitTimeoutMs`
unfoldable pub minimum_caller_wait_ms : RunTimeouts → ℕ
minimum_caller_wait_ms t =
    t.queue_timeout_ms + t.absolute_timeout_ms + csapi_caller_wait_safety_buffer_ms

-- `resolveCsapiCallerWaitTimeoutMs`
unfoldable pub resolve_caller_wait_ms : Option ℕ → RunTimeouts → ℕ
unfolding minimum_caller_wait_ms
resolve_caller_wait_ms requested t = max (coalesce requested 0) (minimum_caller_wait_ms t)

-- `isCsapiTimeoutCancelReason`
abbrev pub is_timeout_reason : CancelReason → Bool
is_timeout_reason CancelReason.queue_timeout = true
is_timeout_reason CancelReason.idle_timeout = true
is_timeout_reason CancelReason.absolute_timeout = true
is_timeout_reason _ = false

-- A deadline `limit` milliseconds behind a time that may be missing has passed.
abbrev pub passed : ℕ → ℕ → Option ℕ → Bool
passed now limit t = holds (λ at. leb (at + limit) now) t

-- `evaluateCsapiRunTimeout`, by the reason of the decision that it returns.
unfoldable pub evaluate_run_timeout : ℕ → RunTimeouts → Run → Option CancelReason
evaluate_run_timeout now t r =
    if is_active r.status && passed now t.absolute_timeout_ms r.started_at
    then some CancelReason.absolute_timeout
    else if is_pending r.status && leb (r.queued_at + t.queue_timeout_ms) now
    then some CancelReason.queue_timeout
    else if not (is_running r.status) || is_none r.started_at
    then none
    else if passed now t.idle_timeout_ms (or_else r.last_activity_at r.started_at)
    then some CancelReason.idle_timeout
    else none

-- The limit that belongs to a timeout reason.
abbrev pub timeout_for : RunTimeouts → CancelReason → Option ℕ
timeout_for t CancelReason.queue_timeout = some t.queue_timeout_ms
timeout_for t CancelReason.idle_timeout = some t.idle_timeout_ms
timeout_for t CancelReason.absolute_timeout = some t.absolute_timeout_ms
timeout_for t _ = none

-- `case $3 when ... end` of `cancelRun`
abbrev pub cancel_message : CancelReason → String
cancel_message CancelReason.queue_timeout = "run queue timeout"
cancel_message CancelReason.idle_timeout = "run idle timeout"
cancel_message CancelReason.absolute_timeout = "run execution deadline exceeded"
cancel_message CancelReason.client_aborted = "client disconnected"
cancel_message CancelReason.runner_cancelled = "cancelled by runner"
cancel_message CancelReason.caller_cancelled = "cancelled by caller"

unfoldable pub mark_cancelled : ℕ → CancelReason → Run → Run
mark_cancelled now reason r = record r {
  status = RunStatus.cancelled;
  error = some (cancel_message reason);
  cancel_reason = some reason;
  progress = none;
  progress_kind = none;
  claim_lease_id = none;
  claimed_by = none;
  lease_expires_at = none;
  last_activity_at = some now;
  finished_at = some now;
  updated_at = now;
}

-- The deadline that a timeout reason claims, tested again by the statement.
abbrev pub deadline_passed : ℕ → CancelReason → ℕ → Run → Bool
deadline_passed now CancelReason.queue_timeout limit r =
    is_pending r.status && leb (r.queued_at + limit) now
deadline_passed now CancelReason.idle_timeout limit r =
    is_running r.status
    && is_some r.started_at
    && passed now limit (or_else r.last_activity_at r.started_at)
deadline_passed now CancelReason.absolute_timeout limit r =
    is_some r.started_at && passed now limit r.started_at
deadline_passed now _ limit r = true

unfoldable pub cancellable : ℕ → (run_id user_id : ℕ) → CancelReason → ℕ → Run → Bool
cancellable now run_id user_id reason limit r =
    r.id == run_id
    && r.user_id == user_id
    && is_plaintext r.content_mode
    && is_active r.status
    && deadline_passed now reason limit r

-- `cancelRun`; `none` is the error `csapi_timeout_guard_required`. The limit is read only for a
-- timeout reason, which has passed the guard, so the default 0 of a missing one is never used.
unfoldable pub cancel_run :
    ℕ → (run_id user_id : ℕ) → CancelReason → Option ℕ → Store → Option (Store × Option Run)
unfolding cancellable mark_cancelled update_returning
cancel_run now run_id user_id reason timeout_ms s =
    let (runs, found) =
      update_returning (cancellable now run_id user_id reason (coalesce timeout_ms 0))
        (mark_cancelled now reason) s.runs in
    if is_timeout_reason reason && coalesce timeout_ms 0 == 0
    then none
    else some
        (record s { runs = runs; notices = noted found (run_updated run_id) s.notices }, found)

unfoldable pub is_csapi_user : ℕ → AppUser → Bool
is_csapi_user id u = u.id == id && same_text u.service_name (some "csapi")

-- The `where` of the `candidates` of `expireCsapiRuns`.
unfoldable pub sweepable : ℕ → RunTimeouts → List AppUser → Run → Bool
unfolding is_csapi_user
sweepable now t users r =
    any (is_csapi_user r.user_id) users
    && is_plaintext r.content_mode
    && is_none r.deleted_at
    && (is_pending r.status && leb (r.queued_at + t.queue_timeout_ms) now
        || is_active r.status && passed now t.absolute_timeout_ms r.started_at
        || is_running r.status
          && passed now t.idle_timeout_ms (or_else r.last_activity_at r.started_at))

-- `case when ... end as reason`
unfoldable pub sweep_reason : ℕ → RunTimeouts → Run → CancelReason
sweep_reason now t r =
    if is_active r.status && passed now t.absolute_timeout_ms r.started_at
    then CancelReason.absolute_timeout
    else if is_running r.status
        && passed now t.idle_timeout_ms (or_else r.last_activity_at r.started_at)
    then CancelReason.idle_timeout
    else CancelReason.queue_timeout

pub record TimeoutSweep : Type 0 where
  pub queue_timeout : ℕ
  pub idle_timeout : ℕ
  pub absolute_timeout : ℕ

abbrev pub same_reason : CancelReason → CancelReason → Bool
same_reason CancelReason.queue_timeout CancelReason.queue_timeout = true
same_reason CancelReason.idle_timeout CancelReason.idle_timeout = true
same_reason CancelReason.absolute_timeout CancelReason.absolute_timeout = true
same_reason CancelReason.caller_cancelled CancelReason.caller_cancelled = true
same_reason CancelReason.client_aborted CancelReason.client_aborted = true
same_reason CancelReason.runner_cancelled CancelReason.runner_cancelled = true
same_reason _ _ = false

abbrev pub swept_for : ℕ → RunTimeouts → List AppUser → CancelReason → Run → Bool
swept_for now t users reason r =
    sweepable now t users r && same_reason (sweep_reason now t r) reason

unfoldable pub mark_swept : ℕ → RunTimeouts → Run → Run
unfolding sweep_reason mark_cancelled
mark_swept now t r = mark_cancelled now (sweep_reason now t r) r

-- `expireCsapiRuns`
unfoldable pub expire_csapi_runs : ℕ → RunTimeouts → Store → Store × TimeoutSweep
unfolding sweepable sweep_reason mark_swept update_where count_where
expire_csapi_runs now t s = (
  record s { runs = update_where (sweepable now t s.users) (mark_swept now t) s.runs },
  record {
    queue_timeout = count_where (swept_for now t s.users CancelReason.queue_timeout) s.runs;
    idle_timeout = count_where (swept_for now t s.users CancelReason.idle_timeout) s.runs;
    absolute_timeout = count_where (swept_for now t s.users CancelReason.absolute_timeout) s.runs;
  },
)
