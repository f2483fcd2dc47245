-- ===== src/Life/Exclusive.antt =====
-- How many encrypted runs a runner works on at once, under any calls.
use cursor_gateway.Base.{
  ℕ, suc, ◌+◌, ◌≤◌, ◌<◌, Bool, false, none, some, List, [], ◌∷◌, ◌≡◌, arith, inl, inr, All,
  coalesce, if◌then◌else◌, ◌==◌, ==_iff, Bool-cases,
}
use cursor_gateway.Table.Laws.{All-at}
use cursor_gateway.Run.{Store}
use cursor_gateway.Run.Queue
use cursor_gateway.Run.Queue.{occupies_slot}
use cursor_gateway.Run.Lease
use cursor_gateway.Run.Deadline
use cursor_gateway.Run.Trash
use cursor_gateway.E2ee.Submit
use cursor_gateway.E2ee.Work
use cursor_gateway.E2ee.Work.{busy_runner, ClaimE2ee}
use cursor_gateway.Life.{RowOk}
use cursor_gateway.Life.Committed.{
  create_run-inserts, cancel_run-updates, create_e2ee_run-inserts, submit_e2ee_approval-records,
}
use cursor_gateway.Life.Statements.{Sound}
use cursor_gateway.Life.Trace.{
  Call, create, claim, recover, approve, renew, progress, finish, cancel, expire, delete_run,
  delete_conversation, restore_a_run, restore_a_conversation, e2ee_create, e2ee_approve,
  e2ee_cancel, e2ee_claim, e2ee_progress, e2ee_renew, e2ee_finish, e2ee_reject, exec, exec_all,
  exec-Sound_slack, is_stale, IsAdmitted, committed_holds, committed_ok_holds,
  committed_submit_holds,
}
use cursor_gateway.Life.Calm.{
  working_on, calm_update, own_claim-calm, own_stale_claim-few, claim_by_other-few,
  claim_next_run-calm, deleted-calm, e2ee_finished-idle, finished-idle, insert-calm,
  new_e2ee_run-idle, new_run-idle, record_approval-calm, recover_stale_runs-calm,
  restore_conversation-calm, restored-calm, soft_delete_conversation-calm,
}

-- A claim of the runner by a statement whose snapshot is older than the table.
abbrev pub is_stale_of : (runner_id : ℕ) → Call → Bool
is_stale_of k (e2ee_claim runner_id runner_key_id lease (some seen)) = runner_id == k
is_stale_of k _ = false

-- How many of the calls are such claims.
unfoldable pub stale_claims_of : (runner_id : ℕ) → List (ℕ × Call) → ℕ
stale_claims_of k [] = 0
stale_claims_of k ((now, c) ∷ cs) = (if is_stale_of k c then 1 else 0) + stale_claims_of k cs

module _ (k b w n m now : ℕ) (one : 1 ≤ w) (s : Store) (sound : Sound b m s)
    (h : working_on k s.runs ≤ w) where
  -- A claim of the runner or of another one.
  e2ee_claim-calm :
      (i : ClaimE2ee) (seen : Store)
      → working_on k (Work.claim_next_e2ee_run now i seen s).0.runs
        ≤ (if i.runner_id == k then suc w else w)
  e2ee_claim-calm i seen = elim (Bool-cases (i.runner_id == k)) [
    | inl e ↦
        let same : i.runner_id ≡ k = (==_iff _ _).0 e in
        rw e (rw (← same) (own_stale_claim-few now s sound.unique i seen w (rw same h)))
    | inr other ↦ rw other (omega (arith, h, claim_by_other-few now s sound.unique k i seen other))
  ]

  fresh_claim-calm : (i : ClaimE2ee) → working_on k (Work.claim_next_e2ee_run now i s s).0.runs ≤ w
  fresh_claim-calm i = elim (Bool-cases (i.runner_id == k)) [
    | inl e ↦
        let same : i.runner_id ≡ k = (==_iff _ _).0 e in
        rw (← same) (own_claim-calm now s sound.unique i w one (rw same h))
    | inr other ↦ omega (arith, h, claim_by_other-few now s sound.unique k i s other)
  ]

  exec-calm :
      (c : Call) → working_on k (exec n m now c s).runs ≤ (if is_stale_of k c then suc w else w)
  unfolding exec busy_runner Queue.approve_run Queue.mark_approved Lease.renew_run_lease
      Lease.mark_renewed Lease.update_run_progress Lease.mark_progress Lease.finish_run
      Deadline.mark_cancelled Deadline.expire_csapi_runs Deadline.mark_swept Trash.soft_delete_run
      Trash.restore_run Submit.cancel_e2ee_run Submit.mark_e2ee_cancelled Work.update_e2ee_progress
      Work.mark_e2ee_progress Work.renew_e2ee_lease Work.mark_e2ee_renewed Work.finish_e2ee_run
      Work.reject_e2ee_run Work.mark_e2ee_failed
  exec-calm (create i) =
      committed_holds (λ t. working_on k t.runs ≤ w) s h _
        (λ after r e.
          insert-calm k now s sound.unique h (Queue.new_run now i) after.runs
            (create_run-inserts now i s e) (new_run-idle k r now i))
  exec-calm (claim x runner_id lease) =
      claim_next_run-calm k now s sound.unique h x runner_id lease n
  exec-calm (recover x stale) = recover_stale_runs-calm k now s sound.unique h x stale m
  exec-calm (approve id user_id) =
      calm_update k (Queue.approvable id user_id) (Queue.mark_approved now) s.runs
        (λ r at e b. absurd (ground (arith, b))) h
  exec-calm (renew id runner_id lease) =
      calm_update k (Lease.renewable id runner_id lease) (Lease.mark_renewed now) s.runs
        (λ r at e b. b) h
  exec-calm (progress id runner_id lease kind message) =
      calm_update k (Lease.leased id runner_id lease) (Lease.mark_progress now kind message) s.runs
        (λ r at e b. b) h
  exec-calm (finish i) =
      calm_update k (Lease.leased i.run_id i.runner_id i.lease_id) (Lease.mark_finished now i)
        s.runs (λ r at e b. absurd (cc (finished-idle k r now i, b))) h
  exec-calm (cancel id user_id reason limit) =
      committed_holds (λ t. working_on k t.runs ≤ w) s h _
        (λ after r e. rw (cancel_run-updates now id user_id reason limit s e) (
          calm_update k (Deadline.cancellable now id user_id reason (coalesce limit 0))
            (Deadline.mark_cancelled now reason) s.runs (λ q at f b. absurd (ground (arith, b))) h))
  exec-calm (expire t) =
      calm_update k (Deadline.sweepable now t s.users) (Deadline.mark_swept now t) s.runs
        (λ r at e b. absurd (ground (arith, b))) h
  exec-calm (delete_run id user_id) =
      calm_update k (Trash.deletable id user_id) (Trash.mark_deleted now "deleted by user" false)
        s.runs (λ r at e b. deleted-calm k r now "deleted by user" false b) h
  exec-calm (delete_conversation id user_id) =
      soft_delete_conversation-calm k now s sound.unique h id user_id
  exec-calm (restore_a_run id user_id) =
      calm_update k (Trash.restorable id user_id s.conversations) (Trash.mark_restored now) s.runs
        (λ r at e b. restored-calm k r now m (All-at (RowOk m) s.runs sound.rows r at) b) h
  exec-calm (restore_a_conversation id user_id) =
      restore_conversation-calm k now s sound.unique h m sound.rows id user_id
  exec-calm (e2ee_create user_id q) =
      committed_submit_holds (λ t. working_on k t.runs ≤ w) s h _
        (λ after r made e. elim (create_e2ee_run-inserts now s user_id q e) [
          | inl same ↦ rw same h
          | inr put ↦
              insert-calm k now s sound.unique h (Submit.new_e2ee_run now user_id q) after.runs put
                (new_e2ee_run-idle k r now user_id q)
        ])
  exec-calm (e2ee_approve user_id a) =
      committed_ok_holds (λ t. working_on k t.runs ≤ w) s h _
        (λ after r e. elim (submit_e2ee_approval-records now s user_id a e) [
          | inl same ↦ rw same h
          | inr recorded ↦ rw recorded (record_approval-calm k now s sound.unique h user_id a)
        ])
  exec-calm (e2ee_cancel id user_id) =
      calm_update k (Submit.e2ee_cancellable id user_id) (Submit.mark_e2ee_cancelled now) s.runs
        (λ r at e b. absurd (ground (arith, b))) h
  exec-calm (e2ee_claim runner_id key lease none) = fresh_claim-calm _
  exec-calm (e2ee_claim runner_id key lease (some seen)) = e2ee_claim-calm _ seen
  exec-calm (e2ee_progress runner_id lease p) =
      calm_update k (Work.progresses runner_id lease p) (Work.mark_e2ee_progress now p) s.runs
        (λ r at e b. b) h
  exec-calm (e2ee_renew id runner_id key lease) =
      calm_update k (Work.keyed_lease id runner_id key lease) (Work.mark_e2ee_renewed now) s.runs
        (λ r at e b. b) h
  exec-calm (e2ee_finish runner_id lease e) =
      calm_update k (Work.finishes runner_id lease e) (Work.mark_e2ee_finished now e) s.runs
        (λ r at t b. absurd (cc (e2ee_finished-idle k r now e, b))) h
  exec-calm (e2ee_reject id runner_id key lease) =
      calm_update k (Work.keyed_lease id runner_id key lease) (Work.mark_e2ee_failed now) s.runs
        (λ r at e b. absurd (ground (arith, b))) h

  exec-calm_slack :
      (c : Call) → working_on k (exec n m now c s).runs ≤ (if is_stale_of k c then 1 else 0) + w
  exec-calm_slack c = elim (Bool-cases (is_stale_of k c)) [
    | inl stale ↦ rw stale (omega (arith, rw stale at (exec-calm c)))
    | inr fresh ↦ rw fresh (omega (arith, rw fresh at (exec-calm c)))
  ]

module _ (n m : ℕ) (room : 0 < m) (k : ℕ) where
  exec_all-exclusive_from :
      (calls : List (ℕ × Call)) (b w : ℕ) (s : Store)
      → n ≤ b
      → 1 ≤ w
      → All (λ c. IsAdmitted c.1) calls
      → Sound b m s
      → working_on k s.runs ≤ w
      → working_on k (exec_all n m calls s).runs ≤ w + stale_claims_of k calls
  unfolding exec_all stale_claims_of
  exec_all-exclusive_from [] b w s fits one a sound h = omega (arith, h)
  exec_all-exclusive_from ((now, c) ∷ cs) b w s fits one (a, rest) sound h =
      let more : ℕ = if is_stale_of k c then 1 else 0 in
      omega (
        arith,
        exec_all-exclusive_from cs ((if is_stale c then 1 else 0) + b) (more + w) (exec n m now c s)
            (omega (arith, fits)) (omega (arith, one)) rest
            (exec-Sound_slack b n m room fits now c s a sound)
            (exec-calm_slack k b w n m now one s sound h c),
      )

  -- A runner works on no more encrypted runs at once than one, and one more for each of its claims
  -- whose statement read a snapshot older than the table; where there is none, never on two. So it
  -- is whatever calls are made, at whatever times, from a sound table on in which it works on one
  -- at most. New plaintext runs are made queued or waiting for approval, and `max_attempts` is
  -- positive.
  pub exec_all-exclusive :
      (calls : List (ℕ × Call)) (s : Store)
      → All (λ c. IsAdmitted c.1) calls
      → Sound n m s
      → working_on k s.runs ≤ 1
      → working_on k (exec_all n m calls s).runs ≤ 1 + stale_claims_of k calls
  exec_all-exclusive calls s a sound h =
      exec_all-exclusive_from calls n 1 s (omega arith) (omega arith) a sound h
