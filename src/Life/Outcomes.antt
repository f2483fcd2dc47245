-- ===== src/Life/Outcomes.antt =====
-- One call moves each run by one step of its diagram at most.
use mathlib.Core.List.{Memᴰ}
use cursor_gateway.Base.{ℕ, true, false, not, List, ◌≡◌, refl, arith, inl, inr, Bool-cases, any}
use cursor_gateway.Table.{rows_where}
use cursor_gateway.Run.{
  AppUser, RunResult, is_active, CancelReason, Approval, Run, Store, is_running,
}
use cursor_gateway.Run.Queue
use cursor_gateway.Run.Lease
use cursor_gateway.Run.Deadline
use cursor_gateway.Run.Trash
use cursor_gateway.E2ee.Submit
use cursor_gateway.E2ee.Work
use cursor_gateway.Life.Committed.{
  create_run-inserts, cancel_run-updates, create_e2ee_run-inserts, submit_e2ee_approval-records,
}
use cursor_gateway.Life.Moves
use cursor_gateway.Life.Moves.{Follows, Follows-refl, Settled, may_step}
use cursor_gateway.Life.Statements.{Sound}
use cursor_gateway.Life.Trace.{
  Call, create, claim, recover, approve, renew, progress, finish, cancel, expire, delete_run,
  delete_conversation, restore_a_run, restore_a_conversation, e2ee_create, e2ee_approve,
  e2ee_cancel, e2ee_claim, e2ee_progress, e2ee_renew, e2ee_finish, e2ee_reject, exec,
  committed_holds, committed_ok_holds, committed_submit_holds,
}
use cursor_gateway.Life.History.{
  run_id, Kept, Kept-refl, update_where-Kept, update_twice-Kept, insert_row-Kept,
  claim_next_run-Kept, claim_next_e2ee_run-Kept,
}
use cursor_gateway.Run.Deadline.{RunTimeouts}

module _ (now : ℕ) (s : Store) where
  recover_stale_runs-Kept :
      (x : Queue.RunExecutor) (stale m : ℕ)
      → Kept s.runs (Queue.recover_stale_runs now x stale m s).0.runs
  unfolding Queue.recover_stale_runs Queue.mark_interrupted Queue.retriable
  recover_stale_runs-Kept x stale m =
      update_twice-Kept (Queue.exhausted now x stale m) (Queue.retriable now x stale m)
        (Queue.mark_interrupted now) (Queue.mark_requeued now) s.runs
        (λ r e. (Moves.interrupted-Follows r now x stale m e, refl))
        (λ r e. Moves.requeued-Follows r now x stale m e)

  record_approval-Kept :
      (user_id : ℕ) (a : Approval) → Kept s.runs (Submit.record_approval now user_id a s).0.runs
  unfolding Submit.record_approval
  record_approval-Kept user_id a =
      update_where-Kept _ _ s.runs (λ r m e. Moves.e2ee_approved-Follows r now a.run_id user_id a e)

  soft_delete_conversation-Kept :
      (conversation_id user_id : ℕ)
      → Kept s.runs (Trash.soft_delete_conversation now conversation_id user_id s).0.runs
  unfolding Trash.soft_delete_conversation Trash.conversation_deleted
  soft_delete_conversation-Kept conversation_id user_id =
      elim (Bool-cases
        (any (Trash.own_live_conversation conversation_id user_id) s.conversations)) [
          | inr absent ↦ rw absent (Kept-refl s.runs)
          | inl own ↦
              elim (Bool-cases (
                any (λ (r : Run). is_running r.status)
                  (rows_where (Trash.live_plain_run_of conversation_id) s.runs))) [
                    | inl busy ↦ rw (own, busy) (Kept-refl s.runs)
                    | inr idle ↦
                        rw (own, idle)
                          (update_where-Kept (Trash.live_plain_run_of conversation_id)
                            (Trash.mark_deleted now "conversation deleted by user" true) s.runs
                            (λ r m e.
                              Moves.deleted-Follows r now "conversation deleted by user" true))
                  ]
        ]

  restore_conversation-Kept :
      (conversation_id user_id : ℕ)
      → Kept s.runs (Trash.restore_conversation now conversation_id user_id s).0.runs
  unfolding Trash.restore_conversation
  restore_conversation-Kept conversation_id user_id =
      elim (Bool-cases
        (not (any (Trash.own_deleted_conversation conversation_id user_id) s.conversations))) [
          | inl absent ↦ rw absent (Kept-refl s.runs)
          | inr found ↦
              rw found (update_where-Kept _ _ s.runs (λ r m e. Moves.restored-Follows r now))
        ]

-- The row-level guards that `Follows` asks for.
active_of_cancellable :
    (now run_id user_id : ℕ) (reason : CancelReason) (limit : ℕ) (r : Run)
    → Deadline.cancellable now run_id user_id reason limit r ≡ true
    → is_active r.status ≡ true
unfolding Deadline.cancellable
active_of_cancellable now run_id user_id reason limit r h = ground arith

active_of_sweepable :
    (now : ℕ) (t : RunTimeouts) (users : List AppUser) (r : Run)
    → Deadline.sweepable now t users r ≡ true
    → is_active r.status ≡ true
unfolding Deadline.sweepable
active_of_sweepable now t users r h = ground arith

active_of_e2ee_cancellable :
    (run_id user_id : ℕ) (r : Run)
    → Submit.e2ee_cancellable run_id user_id r ≡ true
    → is_active r.status ≡ true
unfolding Submit.e2ee_cancellable
active_of_e2ee_cancellable run_id user_id r h = ground arith

running_of_finishes :
    (runner_id lease : ℕ) (e : RunResult) (r : Run)
    → Work.finishes runner_id lease e r ≡ true
    → is_running r.status ≡ true
unfolding Work.finishes
running_of_finishes runner_id lease e r h = ground arith

running_of_keyed_lease :
    (run_id runner_id key lease : ℕ) (r : Run)
    → Work.keyed_lease run_id runner_id key lease r ≡ true
    → is_running r.status ≡ true
unfolding Work.keyed_lease
running_of_keyed_lease run_id runner_id key lease r h = ground arith

module _ (b n m now : ℕ) (s : Store) (h : Sound b m s) where
  -- One call, at any time, leaves every run of the table in it under its id, moved by one step of
  -- the diagram at most: waiting for approval to queued, queued to running, running back to queued
  -- or to an end, and from any live status to cancelled. A run that is over keeps its status and
  -- the whole outcome that its owner reads. The table is sound to begin
  -- with, whatever its number of running runs.
  pub exec-Follows :
      (c : Call) (r : Run)
      → Memᴰ r s.runs
      → (q : Run) × Memᴰ q (exec n m now c s).runs × Follows r q
  unfolding exec Lease.renew_run_lease Lease.update_run_progress Lease.finish_run Queue.approve_run
      Deadline.expire_csapi_runs Deadline.mark_swept Trash.soft_delete_run Trash.restore_run
      Submit.cancel_e2ee_run Work.update_e2ee_progress Work.renew_e2ee_lease Work.finish_e2ee_run
      Work.reject_e2ee_run
  exec-Follows (create i) =
      committed_holds (λ t. Kept s.runs t.runs) s (Kept-refl s.runs) _
        (λ after r e.
          insert_row-Kept (Queue.new_run now i) s.runs after.runs (create_run-inserts now i s e))
  exec-Follows (claim x runner_id lease) = claim_next_run-Kept now s h.unique x runner_id lease n
  exec-Follows (recover x stale_after) = recover_stale_runs-Kept now s x stale_after m
  exec-Follows (approve run_id user_id) =
      update_where-Kept _ _ s.runs (λ r mem e. Moves.approved-Follows r now run_id user_id e)
  exec-Follows (renew run_id runner_id lease) =
      update_where-Kept _ _ s.runs (λ r mem e. Moves.renewed-Follows r now)
  exec-Follows (progress run_id runner_id lease kind message) =
      update_where-Kept _ _ s.runs (λ r mem e. Moves.progress-Follows r now kind message)
  exec-Follows (finish i) =
      update_where-Kept _ _ s.runs
        (λ r mem e. Moves.finished-Follows r now i i.run_id i.runner_id i.lease_id e)
  exec-Follows (cancel run_id user_id reason limit) =
      committed_holds (λ t. Kept s.runs t.runs) s (Kept-refl s.runs) _
        (λ after r e. rw (cancel_run-updates now run_id user_id reason limit s e) (
          update_where-Kept _ _ s.runs (λ q mem f.
            Moves.cancelled-Follows q now reason
              (active_of_cancellable now run_id user_id reason _ q f))))
  exec-Follows (expire t) =
      update_where-Kept _ _ s.runs
        (λ r mem e. Moves.cancelled-Follows r now _ (active_of_sweepable now t s.users r e))
  exec-Follows (delete_run run_id user_id) =
      update_where-Kept _ _ s.runs (λ r mem e. Moves.deleted-Follows r now "deleted by user" false)
  exec-Follows (delete_conversation conversation_id user_id) =
      soft_delete_conversation-Kept now s conversation_id user_id
  exec-Follows (restore_a_run run_id user_id) =
      update_where-Kept _ _ s.runs (λ r mem e. Moves.restored-Follows r now)
  exec-Follows (restore_a_conversation conversation_id user_id) =
      restore_conversation-Kept now s conversation_id user_id
  exec-Follows (e2ee_create user_id q) =
      committed_submit_holds (λ t. Kept s.runs t.runs) s (Kept-refl s.runs) _
        (λ after r made e. elim (create_e2ee_run-inserts now s user_id q e) [
          | inl same ↦ rw same (Kept-refl s.runs)
          | inr put ↦ insert_row-Kept (Submit.new_e2ee_run now user_id q) s.runs after.runs put
        ])
  exec-Follows (e2ee_approve user_id a) =
      committed_ok_holds (λ t. Kept s.runs t.runs) s (Kept-refl s.runs) _
        (λ after r e. elim (submit_e2ee_approval-records now s user_id a e) [
          | inl same ↦ rw same (Kept-refl s.runs)
          | inr recorded ↦ rw recorded (record_approval-Kept now s user_id a)
        ])
  exec-Follows (e2ee_cancel run_id user_id) = update_where-Kept _ _ s.runs (λ r mem e.
      Moves.e2ee_cancelled-Follows r now (active_of_e2ee_cancellable run_id user_id r e))
  exec-Follows (e2ee_claim runner_id runner_key_id lease seen) =
      claim_next_e2ee_run-Kept now s h.unique _ _
  exec-Follows (e2ee_progress runner_id lease p) =
      update_where-Kept _ _ s.runs (λ r mem e. Moves.e2ee_progress-Follows r now p)
  exec-Follows (e2ee_renew run_id runner_id runner_key_id lease) =
      update_where-Kept _ _ s.runs (λ r mem e. Moves.e2ee_renewed-Follows r now)
  exec-Follows (e2ee_finish runner_id lease result) = update_where-Kept _ _ s.runs (λ r mem e.
      Moves.e2ee_finished-Follows r now result (running_of_finishes runner_id lease result r e))
  exec-Follows (e2ee_reject run_id runner_id runner_key_id lease) =
      update_where-Kept _ _ s.runs (λ r mem e.
        Moves.e2ee_failed-Follows r now
          (running_of_keyed_lease run_id runner_id runner_key_id lease r e))
