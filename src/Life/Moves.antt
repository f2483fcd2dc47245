-- ===== src/Life/Moves.antt =====
-- The transition diagram of a run's status, and what a single row may become under each `set`.
use cursor_gateway.Base.{ℕ, String, Bool, true, false, ◌≡◌, arith}
use cursor_gateway.Run.{
  Run, RunStatus, CancelReason, Approval, Progress, RunResult, is_terminal, is_queued, is_running,
  is_active,
}
use cursor_gateway.Run.Queue.{
  exhausted, retriable, mark_interrupted, mark_requeued, approvable, mark_approved, mark_claimed,
  RunExecutor,
}
use cursor_gateway.Run.Lease.{leased, mark_renewed, mark_progress, FinishRun, mark_finished}
use cursor_gateway.Run.Deadline.{mark_cancelled}
use cursor_gateway.Run.Trash.{mark_deleted, mark_restored}
use cursor_gateway.E2ee.Submit.{awaiting, mark_e2ee_approved, mark_e2ee_cancelled}
use cursor_gateway.E2ee.Work.{
  mark_e2ee_failed, mark_e2ee_requeued, mark_e2ee_claimed, mark_e2ee_progress, mark_e2ee_renewed,
  mark_e2ee_finished,
}

-- One step of the diagram, or none.
abbrev pub may_step : RunStatus → RunStatus → Bool
may_step RunStatus.waiting_approval RunStatus.waiting_approval = true
may_step RunStatus.waiting_approval RunStatus.queued = true
may_step RunStatus.waiting_approval RunStatus.cancelled = true
may_step RunStatus.queued RunStatus.queued = true
may_step RunStatus.queued RunStatus.running = true
may_step RunStatus.queued RunStatus.cancelled = true
may_step RunStatus.running RunStatus.waiting_approval = false
may_step RunStatus.running y = true
may_step RunStatus.finished RunStatus.finished = true
may_step RunStatus.error RunStatus.error = true
may_step RunStatus.cancelled RunStatus.cancelled = true
may_step _ _ = false

-- The outcome of a run: what its owner reads once it is over.
abbrev pub Settled : Run → Run → Type 0
Settled r q =
    (q.status ≡ r.status)
    × (q.response ≡ r.response)
    × (q.error ≡ r.error)
    × (q.result_envelope ≡ r.result_envelope)
    × (q.input_tokens ≡ r.input_tokens)
    × (q.output_tokens ≡ r.output_tokens)
    × (q.cancel_reason ≡ r.cancel_reason)
    × (q.finished_at ≡ r.finished_at)

-- A row and the same row later: one step at most, and a run that is over keeps its outcome.
pub record Follows (r q : Run) : Type 0 where
  pub same_id : q.id ≡ r.id
  pub moves : may_step r.status q.status ≡ true
  pub settled : is_terminal r.status ≡ true → Settled r q

pub Follows-refl : (r : Run) → Follows r r
Follows-refl r = ground arith

module _ (r : Run) (now : ℕ) where
  pub interrupted-Follows :
      (x : RunExecutor) (stale m : ℕ)
      → exhausted now x stale m r ≡ true
      → Follows r (mark_interrupted now r)
  unfolding exhausted mark_interrupted
  interrupted-Follows x stale m h = ground arith

  pub requeued-Follows :
      (x : RunExecutor) (stale m : ℕ)
      → retriable now x stale m r ≡ true
      → Follows r (mark_requeued now r)
  unfolding retriable mark_requeued
  requeued-Follows x stale m h = ground arith

  pub approved-Follows :
      (run_id user_id : ℕ) → approvable run_id user_id r ≡ true → Follows r (mark_approved now r)
  unfolding approvable mark_approved
  approved-Follows run_id user_id h = ground arith

  pub claimed-Follows :
      (runner_id lease : ℕ)
      → is_queued r.status ≡ true
      → Follows r (mark_claimed now runner_id lease r)
  unfolding mark_claimed
  claimed-Follows runner_id lease h = ground arith

  pub renewed-Follows : Follows r (mark_renewed now r)
  unfolding mark_renewed
  renewed-Follows = ground arith

  pub progress-Follows : (kind message : String) → Follows r (mark_progress now kind message r)
  unfolding mark_progress
  progress-Follows kind message = ground arith

  pub finished-Follows :
      (i : FinishRun) (run_id runner_id lease : ℕ)
      → leased run_id runner_id lease r ≡ true
      → Follows r (mark_finished now i r)
  unfolding leased mark_finished
  finished-Follows i run_id runner_id lease h = ground arith

  pub cancelled-Follows :
      (reason : CancelReason) → is_active r.status ≡ true → Follows r (mark_cancelled now reason r)
  unfolding mark_cancelled
  cancelled-Follows reason h = ground arith

  pub deleted-Follows : (why : String) (whole : Bool) → Follows r (mark_deleted now why whole r)
  unfolding mark_deleted
  deleted-Follows why whole = ground arith

  pub restored-Follows : Follows r (mark_restored now r)
  unfolding mark_restored
  restored-Follows = ground arith

  pub e2ee_approved-Follows :
      (run_id user_id : ℕ) (a : Approval)
      → awaiting run_id user_id r ≡ true
      → Follows r (mark_e2ee_approved now a r)
  unfolding awaiting mark_e2ee_approved
  e2ee_approved-Follows run_id user_id a h = ground arith

  pub e2ee_cancelled-Follows : is_active r.status ≡ true → Follows r (mark_e2ee_cancelled now r)
  unfolding mark_e2ee_cancelled
  e2ee_cancelled-Follows h = ground arith

  pub e2ee_failed-Follows : is_running r.status ≡ true → Follows r (mark_e2ee_failed now r)
  unfolding mark_e2ee_failed
  e2ee_failed-Follows h = ground arith

  pub e2ee_requeued-Follows : is_running r.status ≡ true → Follows r (mark_e2ee_requeued now r)
  unfolding mark_e2ee_requeued
  e2ee_requeued-Follows h = ground arith

  pub e2ee_claimed-Follows :
      (runner_id lease : ℕ)
      → is_queued r.status ≡ true
      → Follows r (mark_e2ee_claimed now runner_id lease r)
  unfolding mark_e2ee_claimed
  e2ee_claimed-Follows runner_id lease h = ground arith

  pub e2ee_progress-Follows : (p : Progress) → Follows r (mark_e2ee_progress now p r)
  unfolding mark_e2ee_progress
  e2ee_progress-Follows p = ground arith

  pub e2ee_renewed-Follows : Follows r (mark_e2ee_renewed now r)
  unfolding mark_e2ee_renewed
  e2ee_renewed-Follows = ground arith

  pub e2ee_finished-Follows :
      (e : RunResult) → is_running r.status ≡ true → Follows r (mark_e2ee_finished now e r)
  unfolding mark_e2ee_finished
  e2ee_finished-Follows e h = ground arith
