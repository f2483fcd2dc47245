-- ===== src/Life/Consent.antt =====
-- An encrypted run that may write is never worked on without its owner's approval.
use cursor_gateway.Base.{
  ℕ, ◌+◌, ◌≤◌, ◌<◌, if◌then◌else◌, false, List, [], ◌∷◌, arith, inl, inr, All, coalesce,
}
use cursor_gateway.Table.{update_where}
use cursor_gateway.Run.{Store}
use cursor_gateway.Run.Queue
use cursor_gateway.Run.Queue.{occupies_slot}
use cursor_gateway.Run.Lease
use cursor_gateway.Run.Deadline
use cursor_gateway.Run.Trash
use cursor_gateway.E2ee.Submit
use cursor_gateway.E2ee.Work
use cursor_gateway.E2ee.Work.{ClaimE2ee}
use cursor_gateway.Life.Committed.{
  create_run-inserts, cancel_run-updates, create_e2ee_run-inserts, submit_e2ee_approval-records,
}
use cursor_gateway.Life.Statements.{Sound}
use cursor_gateway.Life.Trace.{
  Call, create, claim, recover, approve, renew, progress, finish, cancel, expire, delete_run,
  delete_conversation, restore_a_run, restore_a_conversation, e2ee_create, e2ee_approve,
  e2ee_cancel, e2ee_claim, e2ee_progress, e2ee_renew, e2ee_finish, e2ee_reject, exec, exec_all,
  exec-Sound_slack, is_stale, IsAdmitted, committed_holds, committed_ok_holds,
  committed_submit_holds,
}
use cursor_gateway.Life.Approved.{
  AllApproved, update-approved, claim_next_e2ee_run-approved, claim_next_run-approved,
  create_e2ee_run-approved, create_run-approved, deleted-approved, e2ee_finished-approved,
  finished-approved, interrupted-approved, plain-approved, record_approval-approved,
  requeued-approved, restore_conversation-approved, soft_delete_conversation-approved,
}

module _ (b n m now : ℕ) (s : Store) (sound : Sound b m s) (h : AllApproved s.runs) where
  exec-approved : (c : Call) → AllApproved (exec n m now c s).runs
  unfolding exec Queue.approve_run Queue.recover_stale_runs Lease.renew_run_lease Lease.mark_renewed
      Lease.update_run_progress Lease.mark_progress Lease.finish_run Deadline.mark_cancelled
      Deadline.expire_csapi_runs Deadline.mark_swept Trash.soft_delete_run Trash.restore_run
      Trash.mark_restored Submit.cancel_e2ee_run Submit.mark_e2ee_cancelled
      Work.update_e2ee_progress Work.mark_e2ee_progress Work.renew_e2ee_lease Work.mark_e2ee_renewed
      Work.finish_e2ee_run Work.reject_e2ee_run Work.mark_e2ee_failed
  exec-approved (create i) =
      committed_holds (λ t. AllApproved t.runs) s h _
        (λ after r e.
          create_run-approved now s sound.unique h i after.runs (create_run-inserts now i s e))
  exec-approved (claim x runner_id lease) =
      claim_next_run-approved now s sound.unique h x runner_id lease n
  exec-approved (recover x stale) =
      update-approved (Queue.retriable now x stale m) (Queue.mark_requeued now)
        (update_where (Queue.exhausted now x stale m) (Queue.mark_interrupted now) s.runs)
        (λ r o e. requeued-approved r o now x stale m e)
        (update-approved (Queue.exhausted now x stale m) (Queue.mark_interrupted now) s.runs
          (λ r o e. interrupted-approved r o now) h)
  exec-approved (approve id user_id) =
      update-approved (Queue.approvable id user_id) (Queue.mark_approved now) s.runs
        (λ r o e. plain-approved r o now id user_id e) h
  exec-approved (renew id runner_id lease) =
      update-approved (Lease.renewable id runner_id lease) (Lease.mark_renewed now) s.runs
        (λ r o e. o) h
  exec-approved (progress id runner_id lease kind message) =
      update-approved (Lease.leased id runner_id lease) (Lease.mark_progress now kind message)
        s.runs (λ r o e. o) h
  exec-approved (finish i) =
      update-approved (Lease.leased i.run_id i.runner_id i.lease_id) (Lease.mark_finished now i)
        s.runs (λ r o e. finished-approved r o now i) h
  exec-approved (cancel id user_id reason limit) =
      committed_holds (λ t. AllApproved t.runs) s h _
        (λ after r e. rw (cancel_run-updates now id user_id reason limit s e) (
          update-approved (Deadline.cancellable now id user_id reason (coalesce limit 0))
            (Deadline.mark_cancelled now reason) s.runs (λ q o f. ground arith) h))
  exec-approved (expire t) =
      update-approved (Deadline.sweepable now t s.users) (Deadline.mark_swept now t) s.runs
        (λ r o e. ground arith) h
  exec-approved (delete_run id user_id) =
      update-approved (Trash.deletable id user_id) (Trash.mark_deleted now "deleted by user" false)
        s.runs (λ r o e. deleted-approved r o now "deleted by user" false) h
  exec-approved (delete_conversation id user_id) =
      soft_delete_conversation-approved now s sound.unique h id user_id
  exec-approved (restore_a_run id user_id) =
      update-approved (Trash.restorable id user_id s.conversations) (Trash.mark_restored now) s.runs
        (λ r o e. o) h
  exec-approved (restore_a_conversation id user_id) =
      restore_conversation-approved now s sound.unique h id user_id
  exec-approved (e2ee_create user_id q) =
      committed_submit_holds (λ t. AllApproved t.runs) s h _
        (λ after r made e. elim (create_e2ee_run-inserts now s user_id q e) [
          | inl same ↦ rw same h
          | inr put ↦ create_e2ee_run-approved now s sound.unique h user_id q after.runs put
        ])
  exec-approved (e2ee_approve user_id a) =
      committed_ok_holds (λ t. AllApproved t.runs) s h _
        (λ after r e. elim (submit_e2ee_approval-records now s user_id a e) [
          | inl same ↦ rw same h
          | inr recorded ↦ rw recorded (record_approval-approved now s sound.unique h user_id a)
        ])
  exec-approved (e2ee_cancel id user_id) =
      update-approved (Submit.e2ee_cancellable id user_id) (Submit.mark_e2ee_cancelled now) s.runs
        (λ r o e. ground arith) h
  exec-approved (e2ee_claim runner_id key lease seen) =
      claim_next_e2ee_run-approved now s sound.unique h _ _
  exec-approved (e2ee_progress runner_id lease p) =
      update-approved (Work.progresses runner_id lease p) (Work.mark_e2ee_progress now p) s.runs
        (λ r o e. o) h
  exec-approved (e2ee_renew id runner_id key lease) =
      update-approved (Work.keyed_lease id runner_id key lease) (Work.mark_e2ee_renewed now) s.runs
        (λ r o e. o) h
  exec-approved (e2ee_finish runner_id lease e) =
      update-approved (Work.finishes runner_id lease e) (Work.mark_e2ee_finished now e) s.runs
        (λ r o t. e2ee_finished-approved r o now e) h
  exec-approved (e2ee_reject id runner_id key lease) =
      update-approved (Work.keyed_lease id runner_id key lease) (Work.mark_e2ee_failed now) s.runs
        (λ r o e. ground arith) h

module _ (n m : ℕ) (room : 0 < m) where
  exec_all-approved_from :
      (calls : List (ℕ × Call)) (b : ℕ) (s : Store)
      → n ≤ b
      → All (λ c. IsAdmitted c.1) calls
      → Sound b m s
      → AllApproved s.runs
      → AllApproved (exec_all n m calls s).runs
  unfolding exec_all
  exec_all-approved_from [] b s fits a sound h = h
  exec_all-approved_from ((now, c) ∷ cs) b s fits (a, rest) sound h =
      exec_all-approved_from cs ((if is_stale c then 1 else 0) + b) (exec n m now c s)
        (omega (arith, fits)) rest (exec-Sound_slack b n m room fits now c s a sound)
        (exec-approved b n m now s sound h c)

  -- No encrypted run that may write is ever queued or running without a stored approval, whatever
  -- calls are made, at whatever times, from a sound table on of which this holds. New plaintext runs
  -- are made queued or waiting for approval, and `max_attempts` is positive.
  pub exec_all-approved :
      (calls : List (ℕ × Call)) (s : Store)
      → All (λ c. IsAdmitted c.1) calls
      → Sound n m s
      → AllApproved s.runs
      → AllApproved (exec_all n m calls s).runs
  exec_all-approved calls s a sound h = exec_all-approved_from calls n s (omega arith) a sound h
