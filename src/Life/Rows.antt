-- ===== src/Life/Rows.antt =====
-- Each `set` of a statement keeps the invariant of the rows that its `where` admits, and takes no
-- new slot of the execution budget.
use cursor_gateway.Base.{ℕ, ◌<◌, Bool, true, false, ◌≡◌, arith, String, List}
use cursor_gateway.Run.{
  Run, CancelReason, Conversation, Store, RunRequest, Approval, Progress, RunResult, is_running,
  is_pending,
}
use cursor_gateway.Run.Queue.{
  RunExecutor, occupies_slot, exhausted, retriable, mark_interrupted, mark_requeued, approvable,
  mark_approved, claimable, mark_claimed, CreateRun, new_run,
}
use cursor_gateway.Run.Lease.{mark_renewed, mark_progress, FinishRun, mark_finished}
use cursor_gateway.Run.Deadline.{mark_cancelled, RunTimeouts, sweep_reason, mark_swept}
use cursor_gateway.Run.Trash.{mark_deleted, mark_restored}
use cursor_gateway.E2ee.Submit.{new_e2ee_run, awaiting, mark_e2ee_approved, mark_e2ee_cancelled}
use cursor_gateway.E2ee.Work.{
  expired_retriable, mark_e2ee_failed, mark_e2ee_requeued, e2ee_fits, e2ee_claimable,
  mark_e2ee_claimed, mark_e2ee_progress, mark_e2ee_renewed, mark_e2ee_finished,
}
use cursor_gateway.Life.{RowOk}

-- A `set` that is safe at a row: the invariant is kept and no slot is taken.
abbrev pub SafeAt : ℕ → (Run → Run) → Run → Type 0
SafeAt m change r = RowOk m (change r) × (occupies_slot (change r) ≡ true → occupies_slot r ≡ true)

module _ (m : ℕ) (r : Run) (o : RowOk m r) where
  pub exhausted-SafeAt :
      (now : ℕ) (x : RunExecutor) (stale : ℕ)
      → exhausted now x stale m r ≡ true
      → SafeAt m (mark_interrupted now) r
  unfolding exhausted mark_interrupted occupies_slot
  exhausted-SafeAt now x stale h = ground arith

  pub retriable-SafeAt :
      (now : ℕ) (x : RunExecutor) (stale : ℕ)
      → retriable now x stale m r ≡ true
      → SafeAt m (mark_requeued now) r
  unfolding retriable mark_requeued occupies_slot
  retriable-SafeAt now x stale h = ground arith

  pub approvable-SafeAt :
      (now run_id user_id : ℕ)
      → 0 < m
      → approvable run_id user_id r ≡ true
      → SafeAt m (mark_approved now) r
  unfolding approvable mark_approved occupies_slot
  approvable-SafeAt now run_id user_id p h = ground arith

  pub renewed-SafeAt : (now : ℕ) → SafeAt m (mark_renewed now) r
  unfolding mark_renewed occupies_slot
  renewed-SafeAt now = ground arith

  pub progress-SafeAt :
      (now : ℕ) (kind message : String) → SafeAt m (mark_progress now kind message) r
  unfolding mark_progress occupies_slot
  progress-SafeAt now kind message = ground arith

  pub finished-SafeAt : (now : ℕ) (i : FinishRun) → SafeAt m (mark_finished now i) r
  unfolding mark_finished occupies_slot
  finished-SafeAt now i = ground arith

  pub cancelled-SafeAt : (now : ℕ) (reason : CancelReason) → SafeAt m (mark_cancelled now reason) r
  unfolding mark_cancelled occupies_slot
  cancelled-SafeAt now reason = ground arith

  pub swept-SafeAt : (now : ℕ) (t : RunTimeouts) → SafeAt m (mark_swept now t) r
  unfolding mark_swept occupies_slot
  swept-SafeAt now t = cancelled-SafeAt now (sweep_reason now t r)

  pub deleted-SafeAt :
      (now : ℕ) (why : String) (whole : Bool)
      → is_running r.status ≡ false
      → SafeAt m (mark_deleted now why whole) r
  unfolding mark_deleted occupies_slot
  deleted-SafeAt now why whole h = ground arith

  pub restored-SafeAt : (now : ℕ) → SafeAt m (mark_restored now) r
  unfolding mark_restored occupies_slot
  restored-SafeAt now = ground arith

  pub claimed-RowOk :
      (now : ℕ) (x : RunExecutor) (conversations : List Conversation) (runner_id lease : ℕ)
      → claimable x conversations r ≡ true
      → RowOk m (mark_claimed now runner_id lease r)
  unfolding claimable mark_claimed
  claimed-RowOk now x conversations runner_id lease h = ground arith

  pub expired_failing-SafeAt : (now : ℕ) → SafeAt m (mark_e2ee_failed now) r
  unfolding mark_e2ee_failed occupies_slot
  expired_failing-SafeAt now = ground arith

  pub expired_retriable-SafeAt :
      (now : ℕ) → expired_retriable now m r ≡ true → SafeAt m (mark_e2ee_requeued now) r
  unfolding expired_retriable mark_e2ee_requeued occupies_slot
  expired_retriable-SafeAt now h = ground arith

  pub e2ee_claimed-RowOk :
      (now runner_id key max_jobs lease : ℕ) (seen s : Store)
      → e2ee_claimable runner_id key max_jobs seen s r ≡ true
      → RowOk m (mark_e2ee_claimed now runner_id lease r)
  unfolding e2ee_claimable e2ee_fits mark_e2ee_claimed
  e2ee_claimed-RowOk now runner_id key max_jobs lease seen s h = ground arith

  pub e2ee_progress-SafeAt : (now : ℕ) (p : Progress) → SafeAt m (mark_e2ee_progress now p) r
  unfolding mark_e2ee_progress occupies_slot
  e2ee_progress-SafeAt now p = ground arith

  pub e2ee_renewed-SafeAt : (now : ℕ) → SafeAt m (mark_e2ee_renewed now) r
  unfolding mark_e2ee_renewed occupies_slot
  e2ee_renewed-SafeAt now = ground arith

  pub e2ee_finished-SafeAt : (now : ℕ) (e : RunResult) → SafeAt m (mark_e2ee_finished now e) r
  unfolding mark_e2ee_finished occupies_slot
  e2ee_finished-SafeAt now e = ground arith

  pub e2ee_cancelled-SafeAt : (now : ℕ) → SafeAt m (mark_e2ee_cancelled now) r
  unfolding mark_e2ee_cancelled occupies_slot
  e2ee_cancelled-SafeAt now = ground arith

  pub e2ee_approved-SafeAt :
      (now run_id user_id : ℕ) (a : Approval)
      → 0 < m
      → awaiting run_id user_id r ≡ true
      → SafeAt m (mark_e2ee_approved now a) r
  unfolding awaiting mark_e2ee_approved occupies_slot
  e2ee_approved-SafeAt now run_id user_id a p h = ground arith

-- A new row is in order, and takes no slot.
module _ (m : ℕ) (room : 0 < m) where
  pub new_run-RowOk :
      (now : ℕ) (i : CreateRun) → is_pending i.status ≡ true → RowOk m (new_run now i)
  unfolding new_run
  new_run-RowOk now i h = ground arith

  pub new_e2ee_run-RowOk : (now user_id : ℕ) (q : RunRequest) → RowOk m (new_e2ee_run now user_id q)
  unfolding new_e2ee_run
  new_e2ee_run-RowOk now user_id q = ground arith

pub new_run-unslotted : (now : ℕ) (i : CreateRun) → occupies_slot (new_run now i) ≡ false
unfolding new_run occupies_slot
new_run-unslotted now i = ground arith

pub new_e2ee_run-unslotted :
    (now user_id : ℕ) (q : RunRequest) → occupies_slot (new_e2ee_run now user_id q) ≡ false
unfolding new_e2ee_run occupies_slot
new_e2ee_run-unslotted now user_id q = ground arith
