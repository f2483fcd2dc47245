-- ===== src/Life/Statements.antt =====
-- Every modelled statement of the plaintext repository keeps the invariant of the `runs` table.
use cursor_gateway.Base.{
  ℕ, ◌≤◌, ◌<◌, true, false, Option, some, ◌≡◌, refl, arith, inl, inr, String, leb, any, not,
  Bool-cases, Option-cases,
}
use cursor_gateway.Table.{count_where, earliest_where, rows_where}
use cursor_gateway.Table.Laws.{none_selected, earliest_where-mem, All-at}
use cursor_gateway.Run.{Run, Store, CancelReason, is_pending, is_running}
use cursor_gateway.Run.Queue
use cursor_gateway.Run.Queue.{CreateRun, RunExecutor, occupies_slot}
use cursor_gateway.Run.Lease
use cursor_gateway.Run.Lease.{FinishRun}
use cursor_gateway.Run.Deadline
use cursor_gateway.Run.Deadline.{RunTimeouts}
use cursor_gateway.Run.Trash
use cursor_gateway.Life.{RowOk, IsSound}
use cursor_gateway.Life.Committed.{create_run-inserts, cancel_run-updates}
use cursor_gateway.Life.Rows
use cursor_gateway.Life.Tables.{
  update_where-IsSound_at, update_where-IsSound, update_returning-IsSound, insert_row-IsSound,
  claim-IsSound,
}

-- The `runs` table of a store is sound under the two limits.
abbrev pub Sound : (max_jobs max_attempts : ℕ) → Store → Type 0
Sound n m s = IsSound n m s.runs

module _ (n m : ℕ) (room : 0 < m) (now : ℕ) (s : Store) (h : Sound n m s) where
  pub create_run-Sound :
      (i : CreateRun) {after : Store} {r : Run}
      → is_pending i.status ≡ true
      → Queue.create_run now i s ≡ some (after, r)
      → Sound n m after
  create_run-Sound i {after} pending e =
      insert_row-IsSound n m s.runs h (Queue.new_run now i) after.runs
        (create_run-inserts now i s e) (Rows.new_run-RowOk m room now i pending)
        (Rows.new_run-unslotted now i)

  pub claim_next_run-Sound :
      (x : RunExecutor) (runner_id lease max_jobs : ℕ)
      → max_jobs ≤ n
      → Sound n m (Queue.claim_next_run now x runner_id lease max_jobs s).0
  unfolding Queue.claim_next_run Queue.mark_claimed
  claim_next_run-Sound x runner_id lease max_jobs fits =
      elim (Bool-cases (leb max_jobs (count_where occupies_slot s.runs))) [
        | inl full ↦ rw full h
        | inr free ↦
            elim (Option-cases
              (earliest_where (Queue.claimable x s.conversations) Queue.queued_before s.runs)) [
                | inl idle ↦ rw (free, idle) h
                | inr (c, found) ↦
                    let (mem, fit) =
                      earliest_where-mem (Queue.claimable x s.conversations) Queue.queued_before
                        s.runs found in
                    rw (free, found)
                      (claim-IsSound n m s.runs h c (Queue.mark_claimed now runner_id lease)
                        (λ r. refl) mem
                        (Rows.claimed-RowOk m c (All-at (RowOk m) s.runs h.rows c mem) now x
                          s.conversations runner_id lease fit)
                        (ground arith))
              ]
      ]

  pub recover_stale_runs-Sound :
      (x : RunExecutor) (stale : ℕ) → Sound n m (Queue.recover_stale_runs now x stale m s).0
  unfolding Queue.recover_stale_runs Queue.mark_interrupted Queue.mark_requeued
  recover_stale_runs-Sound x stale =
      update_where-IsSound n m _
        (update_where-IsSound n m s.runs h _ _ (λ r. refl)
          (λ r o t. Rows.exhausted-SafeAt m r o now x stale t))
        _ _ (λ r. refl) (λ r o t. Rows.retriable-SafeAt m r o now x stale t)

  pub approve_run-Sound :
      (run_id user_id : ℕ) → Sound n m (Queue.approve_run now run_id user_id s).0
  unfolding Queue.approve_run Queue.mark_approved
  approve_run-Sound run_id user_id =
      update_returning-IsSound n m s.runs h _ _ (λ r. refl)
        (λ r o t. Rows.approvable-SafeAt m r o now run_id user_id room t)

  pub renew_run_lease-Sound :
      (run_id runner_id lease : ℕ)
      → Sound n m (Lease.renew_run_lease now run_id runner_id lease s).0
  unfolding Lease.renew_run_lease Lease.mark_renewed
  renew_run_lease-Sound run_id runner_id lease =
      update_returning-IsSound n m s.runs h _ _ (λ r. refl) (λ r o t. Rows.renewed-SafeAt m r o now)

  pub update_run_progress-Sound :
      (run_id runner_id lease : ℕ) (kind message : String)
      → Sound n m (Lease.update_run_progress now run_id runner_id lease kind message s).0
  unfolding Lease.update_run_progress Lease.mark_progress
  update_run_progress-Sound run_id runner_id lease kind message =
      update_returning-IsSound n m s.runs h _ _ (λ r. refl)
        (λ r o t. Rows.progress-SafeAt m r o now kind message)

  pub finish_run-Sound : (i : FinishRun) → Sound n m (Lease.finish_run now i s).0
  unfolding Lease.finish_run Lease.mark_finished
  finish_run-Sound i =
      update_returning-IsSound n m s.runs h _ _ (λ r. refl)
        (λ r o t. Rows.finished-SafeAt m r o now i)

  pub cancel_run-Sound :
      (run_id user_id : ℕ) (reason : CancelReason) (limit : Option ℕ) {after : Store}
      {found : Option Run}
      → Deadline.cancel_run now run_id user_id reason limit s ≡ some (after, found)
      → Sound n m after
  unfolding Deadline.mark_cancelled
  cancel_run-Sound run_id user_id reason limit e =
      rw (cancel_run-updates now run_id user_id reason limit s e) (
        update_where-IsSound n m s.runs h _ _ (λ r. refl)
          (λ r o t. Rows.cancelled-SafeAt m r o now reason))

  pub expire_csapi_runs-Sound : (t : RunTimeouts) → Sound n m (Deadline.expire_csapi_runs now t s).0
  unfolding Deadline.expire_csapi_runs Deadline.mark_swept Deadline.mark_cancelled
  expire_csapi_runs-Sound t =
      update_where-IsSound n m s.runs h _ _ (λ r. refl) (λ r o g. Rows.swept-SafeAt m r o now t)

  pub soft_delete_run-Sound :
      (run_id user_id : ℕ) → Sound n m (Trash.soft_delete_run now run_id user_id s).0
  unfolding Trash.soft_delete_run Trash.deletable Trash.mark_deleted
  soft_delete_run-Sound run_id user_id =
      update_returning-IsSound n m s.runs h _ _ (λ r. refl)
        (λ r o t. Rows.deleted-SafeAt m r o now "deleted by user" false (ground arith))

  pub restore_run-Sound :
      (run_id user_id : ℕ) → Sound n m (Trash.restore_run now run_id user_id s).0
  unfolding Trash.restore_run Trash.mark_restored
  restore_run-Sound run_id user_id =
      update_returning-IsSound n m s.runs h _ _ (λ r. refl)
        (λ r o t. Rows.restored-SafeAt m r o now)

  pub restore_conversation-Sound :
      (conversation_id user_id : ℕ)
      → Sound n m (Trash.restore_conversation now conversation_id user_id s).0
  unfolding Trash.restore_conversation Trash.mark_restored
  restore_conversation-Sound conversation_id user_id =
      elim (Bool-cases
        (not (any (Trash.own_deleted_conversation conversation_id user_id) s.conversations))) [
          | inl absent ↦ rw absent h
          | inr found ↦ rw found (
              update_where-IsSound n m s.runs h _ _ (λ r. refl)
                (λ r o t. Rows.restored-SafeAt m r o now))
        ]

  pub soft_delete_conversation-Sound :
      (conversation_id user_id : ℕ)
      → Sound n m (Trash.soft_delete_conversation now conversation_id user_id s).0
  unfolding Trash.soft_delete_conversation Trash.conversation_deleted Trash.mark_deleted
  soft_delete_conversation-Sound conversation_id user_id =
      elim (Bool-cases
        (any (Trash.own_live_conversation conversation_id user_id) s.conversations)) [
          | inr absent ↦ rw absent h
          | inl own ↦
              elim (Bool-cases (
                any (λ (r : Run). is_running r.status)
                  (rows_where (Trash.live_plain_run_of conversation_id) s.runs))) [
                    | inl busy ↦ rw (own, busy) h
                    | inr idle ↦
                        rw (own, idle)
                          (update_where-IsSound_at n m s.runs h _ _ (λ r. refl)
                            (λ r mem o t.
                              Rows.deleted-SafeAt m r o now "conversation deleted by user" true (
                                none_selected (λ (r : Run). is_running r.status)
                                  (Trash.live_plain_run_of conversation_id) s.runs idle mem t)))
                  ]
        ]
