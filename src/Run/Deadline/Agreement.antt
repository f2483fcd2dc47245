-- ===== src/Run/Deadline/Agreement.antt =====
-- The deadlines of csapi/runTimeouts.ts and those that the statements of db.ts test again.
use cursor_gateway.Base.{
  if◌then◌else◌, ℕ, Bool, true, false, ◌&&◌, none, some, List, ◌≡◌, arith, any, is_some, is_none,
}
use cursor_gateway.Run.{Run, AppUser, CancelReason, is_running, is_plaintext}
use cursor_gateway.Run.Deadline.{
  RunTimeouts, evaluate_run_timeout, sweepable, sweep_reason, is_csapi_user, cancellable,
  timeout_for,
}

-- The rows that the sweep looks at: live plaintext runs of the csapi service principal.
abbrev pub csapi_run : List AppUser → Run → Bool
csapi_run users r =
    any (is_csapi_user r.user_id) users && is_plaintext r.content_mode && is_none r.deleted_at

module _ (now : ℕ) (t : RunTimeouts) (r : Run)
    (started : is_running r.status ≡ true → is_some r.started_at ≡ true) where
  -- The sweep of `expireCsapiRuns` expires exactly the live plaintext csapi runs for which
  -- `evaluateCsapiRunTimeout` decides a timeout, and for the same reason, wherever a running run
  -- has its start.
  pub sweepable-evaluate :
      (users : List AppUser)
      → (if sweepable now t users r then some (sweep_reason now t r) else none)
        ≡ (if csapi_run users r then evaluate_run_timeout now t r else none)
  unfolding sweepable sweep_reason evaluate_run_timeout
  sweepable-evaluate users = ground arith

  -- A timeout that `evaluateCsapiRunTimeout` decides for a plaintext run passes the deadline that
  -- `cancelRun` tests again, for the reason and its limit. A running run has its start.
  pub cancellable-decided :
      (reason : CancelReason) (limit : ℕ)
      → is_plaintext r.content_mode ≡ true
      → timeout_for t reason ≡ some limit
      → evaluate_run_timeout now t r ≡ some reason
      → cancellable now r.id r.user_id reason limit r ≡ true
  unfolding cancellable evaluate_run_timeout
  cancellable-decided reason limit plain same decided = ground arith

  -- Where `evaluateCsapiRunTimeout` decides nothing, `cancelRun` cancels the run for no timeout
  -- reason under its configured limit. A running run has its start.
  pub cancellable-undecided :
      (reason : CancelReason) (limit : ℕ)
      → timeout_for t reason ≡ some limit
      → evaluate_run_timeout now t r ≡ none
      → cancellable now r.id r.user_id reason limit r ≡ false
  unfolding cancellable evaluate_run_timeout
  cancellable-undecided reason limit same undecided = ground arith
