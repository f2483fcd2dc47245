-- ===== src/Life/Approved.antt =====
-- What each modelled statement does to the approvals of encrypted runs that may write.
use mathlib.Core.List.{Memᴰ}
use cursor_gateway.Base.{
  String, ℕ, Bool, true, not, ◌&&◌, ◌||◌, some, List, ◌≡◌, refl, arith, inl, inr, All, Bool-cases,
  Option-cases, any, ◌==◌, ==_iff, leb, is_some,
}
use cursor_gateway.Table.{
  update_where, update_key, count_where, earliest_where, rows_where, insert_row,
}
use cursor_gateway.Table.Laws.{All-update_where, All-insert_row, earliest_where-mem}
use cursor_gateway.Table.Keys.{Unique, Unique-at, Unique-update_where}
use cursor_gateway.Run.{Run, Store, RunResult, Approval, RunRequest, is_running, is_queued, is_e2ee}
use cursor_gateway.Run.Queue
use cursor_gateway.Run.Queue.{occupies_slot}
use cursor_gateway.Run.Lease
use cursor_gateway.Run.Trash
use cursor_gateway.E2ee.Submit
use cursor_gateway.E2ee.Work
use cursor_gateway.E2ee.Work.{ClaimE2ee, seen_too}
use cursor_gateway.Life.History.{claimable_queued, e2ee_claimable_queued, expire_leases_keep}

abbrev run_id : Run → ℕ
run_id r = r.id

-- An encrypted run that may write is queued or running only with an approval.
abbrev pub approved : Run → Bool
approved r =
    not (is_e2ee r.content_mode && r.allow_writes && (is_queued r.status || is_running r.status))
    || is_some r.approval_envelope

abbrev pub AllApproved : List Run → Type 0
AllApproved t = All (λ (r : Run). approved r ≡ true) t

pub update-approved :
    (test : Run → Bool) (change : Run → Run) (t : List Run)
    → ((r : Run) → approved r ≡ true → test r ≡ true → approved (change r) ≡ true)
    → AllApproved t
    → AllApproved (update_where test change t)
update-approved test change t safe h =
    All-update_where (λ (r : Run). approved r ≡ true) test change t (λ r mem o e. safe r o e) h

module _ (r : Run) (o : approved r ≡ true) (now : ℕ) where
  pub requeued-approved :
      (x : Queue.RunExecutor) (stale m : ℕ)
      → Queue.retriable now x stale m r ≡ true
      → approved (Queue.mark_requeued now r) ≡ true
  unfolding Queue.retriable Queue.mark_requeued
  requeued-approved x stale m e = ground arith

  pub interrupted-approved : approved (Queue.mark_interrupted now r) ≡ true
  unfolding Queue.mark_interrupted
  interrupted-approved = ground arith

  pub plain-approved :
      (run_id user_id : ℕ)
      → Queue.approvable run_id user_id r ≡ true
      → approved (Queue.mark_approved now r) ≡ true
  unfolding Queue.approvable Queue.mark_approved
  plain-approved id user_id e = ground arith

  pub finished-approved : (i : Lease.FinishRun) → approved (Lease.mark_finished now i r) ≡ true
  unfolding Lease.mark_finished
  finished-approved i = ground arith

  pub deleted-approved :
      (why : String) (whole : Bool) → approved (Trash.mark_deleted now why whole r) ≡ true
  unfolding Trash.mark_deleted
  deleted-approved why whole = ground arith

  expired-approved :
      (m : ℕ)
      → Work.expired_retriable now m r ≡ true
      → approved (Work.mark_e2ee_requeued now r) ≡ true
  unfolding Work.expired_retriable Work.mark_e2ee_requeued
  expired-approved m e = ground arith

  pub e2ee_finished-approved : (e : RunResult) → approved (Work.mark_e2ee_finished now e r) ≡ true
  unfolding Work.mark_e2ee_finished
  e2ee_finished-approved e = ground arith

  claimed-approved :
      (runner_id lease : ℕ)
      → is_queued r.status ≡ true
      → approved (Queue.mark_claimed now runner_id lease r) ≡ true
  unfolding Queue.mark_claimed
  claimed-approved runner_id lease e = ground arith

  e2ee_claimed-approved :
      (runner_id lease : ℕ)
      → is_queued r.status ≡ true
      → approved (Work.mark_e2ee_claimed now runner_id lease r) ≡ true
  unfolding Work.mark_e2ee_claimed
  e2ee_claimed-approved runner_id lease e = ground arith

new_run-approved : (now : ℕ) (i : Queue.CreateRun) → approved (Queue.new_run now i) ≡ true
unfolding Queue.new_run
new_run-approved now i = ground arith

new_e2ee_run-approved :
    (now user_id : ℕ) (q : RunRequest) → approved (Submit.new_e2ee_run now user_id q) ≡ true
unfolding Submit.new_e2ee_run
new_e2ee_run-approved now user_id q = ground arith

module _ (now : ℕ) (s : Store) (u : Unique run_id s.runs) (h : AllApproved s.runs) where
  pub claim_next_run-approved :
      (x : Queue.RunExecutor) (runner_id lease max_jobs : ℕ)
      → AllApproved (Queue.claim_next_run now x runner_id lease max_jobs s).0.runs
  unfolding Queue.claim_next_run update_key
  claim_next_run-approved x runner_id lease max_jobs =
      let fits = Queue.claimable x s.conversations in
      elim (Bool-cases (leb max_jobs (count_where occupies_slot s.runs))) [
        | inl full ↦ rw full h
        | inr free ↦ elim (Option-cases (earliest_where fits Queue.queued_before s.runs)) [
          | inl idle ↦ rw (free, idle) h
          | inr (c, found) ↦
              let (mem, fit) = earliest_where-mem fits Queue.queued_before s.runs found in
              rw (free, found)
                (All-update_where (λ (r : Run). approved r ≡ true) (λ r. run_id r == c.id)
                  (Queue.mark_claimed now runner_id lease) s.runs
                  (λ r at o e.
                    let same : r ≡ c = Unique-at run_id s.runs u r c at mem ((==_iff _ _).0 e) in
                    claimed-approved r o now runner_id lease
                      (rw same (claimable_queued x s.conversations c fit)))
                  h)
        ]
      ]

  expire_leases-approved :
      (m : ℕ) (seen : List Run) → AllApproved (Work.expire_leases now m seen s.runs)
  unfolding Work.expire_leases Work.mark_e2ee_failed
  expire_leases-approved m seen =
      update-approved (seen_too seen (Work.expired_retriable now m)) (Work.mark_e2ee_requeued now)
        (update_where (seen_too seen (Work.expired_failing now m)) (Work.mark_e2ee_failed now)
          s.runs)
        (λ r o e. expired-approved r o now m (ground (arith, e)))
        (update-approved (seen_too seen (Work.expired_failing now m)) (Work.mark_e2ee_failed now)
          s.runs (λ r o e. ground arith) h)

  e2ee_claimed_row-approved :
      (m runner_id lease : ℕ) (c : Run) (t : List Run)
      → Unique run_id t
      → AllApproved t
      → Memᴰ c t
      → is_queued c.status ≡ true
      → AllApproved (update_key run_id c.id (Work.mark_e2ee_claimed now runner_id lease) t)
  unfolding update_key
  e2ee_claimed_row-approved m runner_id lease c t distinct ok mem queued =
      All-update_where (λ (r : Run). approved r ≡ true) (λ r. run_id r == c.id)
        (Work.mark_e2ee_claimed now runner_id lease) t
        (λ r at o e.
          let same : r ≡ c = Unique-at run_id t distinct r c at mem ((==_iff _ _).0 e) in
          e2ee_claimed-approved r o now runner_id lease (rw same queued))
        ok

  expired-Unique : (m : ℕ) (seen : List Run) → Unique run_id (Work.expire_leases now m seen s.runs)
  unfolding Work.expire_leases Work.mark_e2ee_failed Work.mark_e2ee_requeued
  expired-Unique m seen =
      Unique-update_where run_id (seen_too seen (Work.expired_retriable now m))
        (Work.mark_e2ee_requeued now) (λ r. refl)
        (update_where (seen_too seen (Work.expired_failing now m)) (Work.mark_e2ee_failed now)
          s.runs)
        (Unique-update_where run_id (seen_too seen (Work.expired_failing now m))
          (Work.mark_e2ee_failed now) (λ r. refl) s.runs u)

  pub claim_next_e2ee_run-approved :
      (i : ClaimE2ee) (seen : Store) → AllApproved (Work.claim_next_e2ee_run now i seen s).0.runs
  unfolding Work.claim_next_e2ee_run
  claim_next_e2ee_run-approved i seen =
      let fits = Work.e2ee_claimable i.runner_id i.runner_key_id i.max_jobs seen s in
      elim (Option-cases (earliest_where fits Work.created_before s.runs)) [
        | inl idle ↦
            rw (idle, Work.claim_next_e2ee_run) (expire_leases-approved i.max_attempts seen.runs)
        | inr (c, found) ↦
            let (mem, fit) = earliest_where-mem fits Work.created_before s.runs found in
            let queued =
              e2ee_claimable_queued i.runner_id i.runner_key_id i.max_jobs seen s c fit in
            rw (found, Work.claim_next_e2ee_run)
              (e2ee_claimed_row-approved i.max_attempts i.runner_id i.lease c
                (Work.expire_leases now i.max_attempts seen.runs s.runs)
                (expired-Unique i.max_attempts seen.runs)
                (expire_leases-approved i.max_attempts seen.runs)
                (expire_leases_keep now i.max_attempts seen.runs s.runs mem queued) queued)
      ]

  pub soft_delete_conversation-approved :
      (conversation_id user_id : ℕ)
      → AllApproved (Trash.soft_delete_conversation now conversation_id user_id s).0.runs
  unfolding Trash.soft_delete_conversation Trash.conversation_deleted
  soft_delete_conversation-approved conversation_id user_id =
      elim (Bool-cases
        (any (Trash.own_live_conversation conversation_id user_id) s.conversations)) [
          | inr absent ↦ rw absent h
          | inl own ↦
              elim (Bool-cases (
                any (λ (r : Run). is_running r.status)
                  (rows_where (Trash.live_plain_run_of conversation_id) s.runs))) [
                    | inl busy ↦ rw (own, busy) h
                    | inr idle ↦
                        rw (own, idle)
                          (update-approved (Trash.live_plain_run_of conversation_id)
                            (Trash.mark_deleted now "conversation deleted by user" true) s.runs
                            (λ r o e. deleted-approved r o now "conversation deleted by user" true)
                            h)
                  ]
        ]

  pub restore_conversation-approved :
      (conversation_id user_id : ℕ)
      → AllApproved (Trash.restore_conversation now conversation_id user_id s).0.runs
  unfolding Trash.restore_conversation Trash.mark_restored
  restore_conversation-approved conversation_id user_id =
      elim (Bool-cases
        (not (any (Trash.own_deleted_conversation conversation_id user_id) s.conversations))) [
          | inl absent ↦ rw absent h
          | inr found ↦ rw found (
              update-approved (Trash.deleted_with conversation_id) (Trash.mark_restored now) s.runs
                (λ r o e. o) h)
        ]

  pub record_approval-approved :
      (user_id : ℕ) (a : Approval) → AllApproved (Submit.record_approval now user_id a s).0.runs
  unfolding Submit.record_approval Submit.mark_e2ee_approved
  record_approval-approved user_id a =
      update-approved (Submit.awaiting a.run_id user_id) (Submit.mark_e2ee_approved now a) s.runs
        (λ r o e. ground arith) h

  pub create_run-approved :
      (i : Queue.CreateRun) (t : List Run)
      → insert_row run_id (Queue.new_run now i) s.runs ≡ some t
      → AllApproved t
  create_run-approved i t put =
      All-insert_row (λ (r : Run). approved r ≡ true) run_id (Queue.new_run now i) s.runs t put
        (new_run-approved now i) h

  pub create_e2ee_run-approved :
      (user_id : ℕ) (q : RunRequest) (t : List Run)
      → insert_row run_id (Submit.new_e2ee_run now user_id q) s.runs ≡ some t
      → AllApproved t
  create_e2ee_run-approved user_id q t put =
      All-insert_row (λ (r : Run). approved r ≡ true) run_id (Submit.new_e2ee_run now user_id q)
        s.runs t put (new_e2ee_run-approved now user_id q) h
