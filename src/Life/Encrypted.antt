-- ===== src/Life/Encrypted.antt =====
-- What every modelled statement of the encrypted repository does to the invariant of the `runs`
-- table; a claim on a snapshot that is older than the table may exceed the budget by one run.
use cursor_gateway.Base.{
  Option, ℕ, suc, ◌≤◌, ◌<◌, Bool, true, List, ◌≡◌, refl, inl, inr, arith, ok, Option-cases,
}
use cursor_gateway.Table.{update_where, count_where, earliest_where}
use cursor_gateway.Table.Laws.{count-update_where-le, earliest_where-mem, All-at}
use cursor_gateway.Run.{Run, Store, RunRequest, Approval, Progress, RunResult}
use cursor_gateway.Run.Queue.{occupies_slot}
use cursor_gateway.E2ee.Submit
use cursor_gateway.E2ee.Work
use cursor_gateway.E2ee.Work.{ClaimE2ee, seen_too}
use cursor_gateway.Life.History.{expire_leases_keep, e2ee_claimable_queued}
use cursor_gateway.Life.{RowOk, IsSound}
use cursor_gateway.Life.Committed.{create_e2ee_run-inserts, submit_e2ee_approval-records}
use cursor_gateway.Life.Rows
use cursor_gateway.Life.Tables.{
  update_where-IsSound, update_returning-IsSound, insert_row-IsSound, claim-IsSound,
}
use cursor_gateway.Life.Statements.{Sound}

-- The expiry of leases takes no slot, and leaves the queued rows.
module _ (n m now : ℕ) (seen runs : List Run) (h : IsSound n m runs) where
  pub expire_leases-IsSound : IsSound n m (Work.expire_leases now m seen runs)
  unfolding Work.expire_leases Work.mark_e2ee_failed Work.mark_e2ee_requeued
  expire_leases-IsSound =
      update_where-IsSound n m _
        (update_where-IsSound n m runs h _ _ (λ r. refl)
          (λ r o t. Rows.expired_failing-SafeAt m r o now))
        _ _ (λ r. refl) (λ r o t. Rows.expired_retriable-SafeAt m r o now (ground (arith, t)))

  pub expire_leases-le :
      count_where occupies_slot (Work.expire_leases now m seen runs)
      ≤ count_where occupies_slot runs
  unfolding Work.expire_leases occupies_slot Work.mark_e2ee_failed Work.mark_e2ee_requeued
  expire_leases-le = omega (
    arith,
    count-update_where-le occupies_slot (seen_too seen (Work.expired_retriable now m))
        (Work.mark_e2ee_requeued now)
        (update_where (seen_too seen (Work.expired_failing now m)) (Work.mark_e2ee_failed now) runs)
        (λ r mem t e. cc),
    count-update_where-le occupies_slot (seen_too seen (Work.expired_failing now m))
        (Work.mark_e2ee_failed now) runs (λ r mem t e. cc),
  )

module _ (n m : ℕ) (room : 0 < m) (now : ℕ) (s : Store) (h : Sound n m s) where
  pub update_e2ee_progress-Sound :
      (runner_id lease : ℕ) (p : Progress)
      → Sound n m (Work.update_e2ee_progress now runner_id lease p s).0
  unfolding Work.update_e2ee_progress Work.mark_e2ee_progress
  update_e2ee_progress-Sound runner_id lease p =
      update_returning-IsSound n m s.runs h _ _ (λ r. refl)
        (λ r o t. Rows.e2ee_progress-SafeAt m r o now p)

  pub renew_e2ee_lease-Sound :
      (run_id runner_id key lease : ℕ)
      → Sound n m (Work.renew_e2ee_lease now run_id runner_id key lease s).0
  unfolding Work.renew_e2ee_lease Work.mark_e2ee_renewed
  renew_e2ee_lease-Sound run_id runner_id key lease =
      update_returning-IsSound n m s.runs h _ _ (λ r. refl)
        (λ r o t. Rows.e2ee_renewed-SafeAt m r o now)

  pub finish_e2ee_run-Sound :
      (runner_id lease : ℕ) (e : RunResult)
      → Sound n m (Work.finish_e2ee_run now runner_id lease e s).0
  unfolding Work.finish_e2ee_run Work.mark_e2ee_finished
  finish_e2ee_run-Sound runner_id lease e =
      update_returning-IsSound n m s.runs h _ _ (λ r. refl)
        (λ r o t. Rows.e2ee_finished-SafeAt m r o now e)

  pub reject_e2ee_run-Sound :
      (run_id runner_id key lease : ℕ)
      → Sound n m (Work.reject_e2ee_run now run_id runner_id key lease s).0
  unfolding Work.reject_e2ee_run Work.mark_e2ee_failed
  reject_e2ee_run-Sound run_id runner_id key lease =
      update_returning-IsSound n m s.runs h _ _ (λ r. refl)
        (λ r o t. Rows.expired_failing-SafeAt m r o now)

  pub cancel_e2ee_run-Sound :
      (run_id user_id : ℕ) → Sound n m (Submit.cancel_e2ee_run now run_id user_id s).0
  unfolding Submit.cancel_e2ee_run Submit.mark_e2ee_cancelled
  cancel_e2ee_run-Sound run_id user_id =
      update_returning-IsSound n m s.runs h _ _ (λ r. refl)
        (λ r o t. Rows.e2ee_cancelled-SafeAt m r o now)

  record_approval-Sound :
      (user_id : ℕ) (a : Approval) → Sound n m (Submit.record_approval now user_id a s).0
  unfolding Submit.record_approval Submit.mark_e2ee_approved
  record_approval-Sound user_id a =
      update_returning-IsSound n m s.runs h _ _ (λ r. refl)
        (λ r o t. Rows.e2ee_approved-SafeAt m r o now a.run_id user_id a room t)

-- A run that may be claimed finds room in the budget that the snapshot shows.
claimable_room :
    (runner_id key max_jobs : ℕ) (seen s : Store) (r : Run)
    → Work.e2ee_claimable runner_id key max_jobs seen s r ≡ true
    → count_where occupies_slot seen.runs < max_jobs
unfolding Work.e2ee_claimable
claimable_room runner_id key max_jobs seen s r h = ground arith

pub wider : (b c m : ℕ) (t : List Run) → b ≤ c → IsSound b m t → IsSound c m t
wider b c m t le h = record {
  unique = h.unique;
  rows = h.rows;
  budget = omega (arith, le, h.budget);
}

module _ (now : ℕ) (i : ClaimE2ee) (seen s : Store) (b : ℕ) (h : Sound b i.max_attempts s) where
  -- The claim under a budget `c` that has room wherever a run is claimable.
  claim-Sound :
      (c : ℕ)
      → b ≤ c
      → ((r : Run)
          → Work.e2ee_claimable i.runner_id i.runner_key_id i.max_jobs seen s r ≡ true
          → count_where occupies_slot s.runs < c)
      → Sound c i.max_attempts (Work.claim_next_e2ee_run now i seen s).0
  unfolding Work.claim_next_e2ee_run Work.mark_e2ee_claimed
  claim-Sound c le room =
      let fits = Work.e2ee_claimable i.runner_id i.runner_key_id i.max_jobs seen s in
      let m = i.max_attempts in
      let wide = wider b c m s.runs le h in
      let kept = expire_leases-IsSound c m now seen.runs s.runs wide in
      elim (Option-cases (earliest_where fits Work.created_before s.runs)) [
        | inl idle ↦ rw (idle, Work.claim_next_e2ee_run) kept
        | inr (q, found) ↦
            let (mem, fit) = earliest_where-mem fits Work.created_before s.runs found in
            let queued =
              e2ee_claimable_queued i.runner_id i.runner_key_id i.max_jobs seen s q fit in
            rw (found, Work.claim_next_e2ee_run)
              (claim-IsSound c m _ kept q (Work.mark_e2ee_claimed now i.runner_id i.lease)
                (λ r. refl) (expire_leases_keep now m seen.runs s.runs mem queued)
                (Rows.e2ee_claimed-RowOk m q (All-at (RowOk m) s.runs h.rows q mem) now i.runner_id
                  i.runner_key_id i.max_jobs i.lease seen s fit)
                (omega (arith, room q fit, expire_leases-le c m now seen.runs s.runs wide)))
      ]

  -- On a snapshot that is older than the table, one run too many may be claimed.
  pub stale_claim-Sound : Sound (suc b) i.max_attempts (Work.claim_next_e2ee_run now i seen s).0
  stale_claim-Sound = claim-Sound (suc b) (omega arith) (λ r fit. omega (arith, h.budget))

module _ (now : ℕ) (i : ClaimE2ee) (s : Store) (b : ℕ) (h : Sound b i.max_attempts s) where
  pub claim_next_e2ee_run-Sound :
      i.max_jobs ≤ b → Sound b i.max_attempts (Work.claim_next_e2ee_run now i s s).0
  claim_next_e2ee_run-Sound le =
      claim-Sound now i s s b h b (omega arith) (λ r fit.
        omega (arith, le, claimable_room i.runner_id i.runner_key_id i.max_jobs s s r fit))

module _ (n m : ℕ) (room : 0 < m) (now : ℕ) (s : Store) (h : Sound n m s) where
  pub create_e2ee_run-Sound :
      (user_id : ℕ) (q : RunRequest) {after : Store} {r : Run} {created : Bool}
      → Submit.create_e2ee_run now user_id q s ≡ ok (after, r, created)
      → Sound n m after
  create_e2ee_run-Sound user_id q {after} f = elim (create_e2ee_run-inserts now s user_id q f) [
    | inl same ↦ rw same h
    | inr put ↦
        insert_row-IsSound n m s.runs h (Submit.new_e2ee_run now user_id q) after.runs put
          (Rows.new_e2ee_run-RowOk m room now user_id q) (Rows.new_e2ee_run-unslotted now user_id q)
  ]

  pub submit_e2ee_approval-Sound :
      (user_id : ℕ) (a : Approval) {after : Store} {found : Option Run}
      → Submit.submit_e2ee_approval now user_id a s ≡ ok (after, found)
      → Sound n m after
  submit_e2ee_approval-Sound user_id a f = elim (submit_e2ee_approval-records now s user_id a f) [
    | inl same ↦ rw same h
    | inr recorded ↦ rw recorded (record_approval-Sound n m room now s h user_id a)
  ]
