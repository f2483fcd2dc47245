-- ===== src/Life/Calm.antt =====
-- What each modelled statement does to the number of the encrypted runs that a runner works on.
use mathlib.Core.List.{Memᴰ}
use cursor_gateway.Base.{
  String, ℕ, suc, ◌≤◌, Bool, true, false, not, some, List, [], ◌∷◌, ◌≡◌, refl, arith, inl, inr, All,
  Bool-cases, Option-cases, any, ◌==◌, ==_iff, leb,
}
use cursor_gateway.Table.{
  update_where, update_key, count_where, earliest_where, rows_where, insert_row,
}
use cursor_gateway.Table.Laws.{count-update_where-le, count-insert_row, earliest_where-mem, All-at}
use cursor_gateway.Table.Keys.{Unique, Unique-at, Unique-update_where, count-update_key-le}
use cursor_gateway.Run.{Run, Store, Conversation, RunResult, Approval, RunRequest, is_running}
use cursor_gateway.Run.Queue
use cursor_gateway.Run.Queue.{occupies_slot}
use cursor_gateway.Run.Lease
use cursor_gateway.Run.Trash
use cursor_gateway.E2ee.Submit
use cursor_gateway.E2ee.Work
use cursor_gateway.E2ee.Work.{busy_runner, ClaimE2ee, seen_too}
use cursor_gateway.Life.{RowOk}

abbrev run_id : Run → ℕ
run_id r = r.id

-- The number of the encrypted runs that a runner works on.
abbrev pub working_on : ℕ → List Run → ℕ
working_on k t = count_where (busy_runner k) t

count-none : (k : ℕ) (t : List Run) → any (busy_runner k) t ≡ false → working_on k t ≡ 0
unfolding count_where
count-none k [] h = refl
count-none k (r ∷ t) h = ground (arith, h, count-none k t)

module _ (k : ℕ) where
  -- An update that makes no run busy.
  pub calm_update :
      (test : Run → Bool) (change : Run → Run) (t : List Run) {w : ℕ}
      → ((r : Run)
          → Memᴰ r t
          → test r ≡ true
          → busy_runner k (change r) ≡ true
          → busy_runner k r ≡ true)
      → working_on k t ≤ w
      → working_on k (update_where test change t) ≤ w
  calm_update test change t calm h =
      omega (arith, h, count-update_where-le (busy_runner k) test change t calm)

  -- Updates that leave the row as busy as it was.
  module _ (r : Run) (now : ℕ) where
    renewed-calm : busy_runner k (Lease.mark_renewed now r) ≡ true → busy_runner k r ≡ true
    unfolding busy_runner Lease.mark_renewed
    renewed-calm b = b

    pub restored-calm :
        (m : ℕ)
        → RowOk m r
        → busy_runner k (Trash.mark_restored now r) ≡ true
        → busy_runner k r ≡ true
    unfolding busy_runner Trash.mark_restored
    restored-calm m ok b = ground (arith, b, ok.deleted_over)

    pub finished-idle : (i : Lease.FinishRun) → busy_runner k (Lease.mark_finished now i r) ≡ false
    unfolding busy_runner Lease.mark_finished
    finished-idle i = ground arith

    pub e2ee_finished-idle :
        (e : RunResult) → busy_runner k (Work.mark_e2ee_finished now e r) ≡ false
    unfolding busy_runner Work.mark_e2ee_finished
    e2ee_finished-idle e = ground arith

    pub deleted-calm :
        (why : String) (whole : Bool)
        → busy_runner k (Trash.mark_deleted now why whole r) ≡ true
        → busy_runner k r ≡ true
    unfolding busy_runner Trash.mark_deleted
    deleted-calm why whole b = ground (arith, b)

    claimed-calm :
        (x : Queue.RunExecutor) (conversations : List Conversation) (runner_id lease : ℕ)
        → Queue.claimable x conversations r ≡ true
        → busy_runner k (Queue.mark_claimed now runner_id lease r) ≡ true
        → busy_runner k r ≡ true
    unfolding busy_runner Queue.mark_claimed Queue.claimable
    claimed-calm x conversations runner_id lease fit b = ground (arith, fit, b)

    pub new_run-idle : (i : Queue.CreateRun) → busy_runner k (Queue.new_run now i) ≡ false
    unfolding busy_runner Queue.new_run
    new_run-idle i = ground arith

    pub new_e2ee_run-idle :
        (user_id : ℕ) (q : RunRequest) → busy_runner k (Submit.new_e2ee_run now user_id q) ≡ false
    unfolding busy_runner Submit.new_e2ee_run
    new_e2ee_run-idle user_id q = ground arith

-- What a claim of an encrypted run has found.
claimable_alone :
    (runner_id key max_jobs : ℕ) (seen s : Store) (r : Run)
    → Work.e2ee_claimable runner_id key max_jobs seen s r ≡ true
    → any (busy_runner runner_id) seen.runs ≡ false
unfolding Work.e2ee_claimable
claimable_alone runner_id key max_jobs seen s r h = ground (arith, h)

-- The claim of an encrypted run by a statement that reads the snapshot `seen`.
module _ (now : ℕ) (s : Store) (u : Unique run_id s.runs) where
  -- The rows once the expired leases are over.
  expire_leases-few :
      (m : ℕ) (seen : List Run) (j : ℕ)
      → working_on j (Work.expire_leases now m seen s.runs) ≤ working_on j s.runs
  unfolding Work.expire_leases busy_runner Work.mark_e2ee_failed Work.mark_e2ee_requeued
  expire_leases-few m seen j = omega (
    arith,
    count-update_where-le (busy_runner j) (seen_too seen (Work.expired_retriable now m))
        (Work.mark_e2ee_requeued now)
        (update_where (seen_too seen (Work.expired_failing now m)) (Work.mark_e2ee_failed now)
          s.runs)
        (λ r at e b. absurd (ground (arith, b))),
    count-update_where-le (busy_runner j) (seen_too seen (Work.expired_failing now m))
        (Work.mark_e2ee_failed now) s.runs (λ r at e b. absurd (ground (arith, b))),
  )

  expire_leases-Unique :
      (m : ℕ) (seen : List Run) → Unique run_id (Work.expire_leases now m seen s.runs)
  unfolding Work.expire_leases Work.mark_e2ee_failed Work.mark_e2ee_requeued
  expire_leases-Unique m seen =
      Unique-update_where run_id _ _ (λ r. refl) _
        (Unique-update_where run_id _ _ (λ r. refl) s.runs u)

  -- The claim of one row: one run more for its runner, and none for another.
  claimed-few :
      (m runner_id lease : ℕ) (seen : List Run) (c : Run)
      → working_on runner_id (
          update_key run_id c.id
            (Work.mark_e2ee_claimed now runner_id lease)
            (Work.expire_leases now m seen s.runs))
        ≤ suc (working_on runner_id s.runs)
  claimed-few m runner_id lease seen c = omega (
    arith,
    expire_leases-few m seen runner_id,
    count-update_key-le run_id (busy_runner runner_id) c.id
        (Work.mark_e2ee_claimed now runner_id lease) (Work.expire_leases now m seen s.runs)
        (expire_leases-Unique m seen),
  )

  claimed_by_other-few :
      (k m runner_id lease : ℕ) (seen : List Run) (c : Run)
      → (runner_id == k) ≡ false
      → working_on k (
          update_key run_id c.id
            (Work.mark_e2ee_claimed now runner_id lease)
            (Work.expire_leases now m seen s.runs))
        ≤ working_on k s.runs
  unfolding update_key busy_runner Work.mark_e2ee_claimed
  claimed_by_other-few k m runner_id lease seen c other =
      calm_update k _ (Work.mark_e2ee_claimed now runner_id lease) _
        (λ r at e b. absurd (ground (arith, b, other))) (expire_leases-few m seen k)

  -- A runner claims one run at most, where it can claim one at all.
  claim-few :
      (i : ClaimE2ee) (seen : Store) (w : ℕ)
      → working_on i.runner_id s.runs ≤ w
      → (any (busy_runner i.runner_id) seen.runs ≡ false → suc (working_on i.runner_id s.runs) ≤ w)
      → working_on i.runner_id (Work.claim_next_e2ee_run now i seen s).0.runs ≤ w
  unfolding Work.claim_next_e2ee_run
  claim-few i seen w le room =
      let fits = Work.e2ee_claimable i.runner_id i.runner_key_id i.max_jobs seen s in
      elim (Option-cases (earliest_where fits Work.created_before s.runs)) [
        | inl idle ↦
            rw (idle, Work.claim_next_e2ee_run)
              (omega (arith, le, expire_leases-few i.max_attempts seen.runs i.runner_id))
        | inr (c, found) ↦
            let (mem, fit) = earliest_where-mem fits Work.created_before s.runs found in
            rw (found, Work.claim_next_e2ee_run)
              (omega (
                arith,
                claimed-few i.max_attempts i.runner_id i.lease seen.runs c,
                room (claimable_alone i.runner_id i.runner_key_id i.max_jobs seen s c fit),
              ))
      ]

  pub claim_by_other-few :
      (k : ℕ) (i : ClaimE2ee) (seen : Store)
      → (i.runner_id == k) ≡ false
      → working_on k (Work.claim_next_e2ee_run now i seen s).0.runs ≤ working_on k s.runs
  unfolding Work.claim_next_e2ee_run
  claim_by_other-few k i seen other =
      let fits = Work.e2ee_claimable i.runner_id i.runner_key_id i.max_jobs seen s in
      elim (Option-cases (earliest_where fits Work.created_before s.runs)) [
        | inl idle ↦
            rw (idle, Work.claim_next_e2ee_run) (expire_leases-few i.max_attempts seen.runs k)
        | inr (c, found) ↦
            rw (found, Work.claim_next_e2ee_run)
              (claimed_by_other-few k i.max_attempts i.runner_id i.lease seen.runs c other)
      ]

  -- On the table itself only a runner that works on nothing claims.
  pub own_claim-calm :
      (i : ClaimE2ee) (w : ℕ)
      → 1 ≤ w
      → working_on i.runner_id s.runs ≤ w
      → working_on i.runner_id (Work.claim_next_e2ee_run now i s s).0.runs ≤ w
  own_claim-calm i w one le =
      claim-few i s w le (λ alone. omega (arith, one, count-none i.runner_id s.runs alone))

  pub own_stale_claim-few :
      (i : ClaimE2ee) (seen : Store) (w : ℕ)
      → working_on i.runner_id s.runs ≤ w
      → working_on i.runner_id (Work.claim_next_e2ee_run now i seen s).0.runs ≤ suc w
  own_stale_claim-few i seen w le =
      claim-few i seen (suc w) (omega (arith, le)) (λ alone. omega (arith, le))

module _ (k now : ℕ) (s : Store) (u : Unique run_id s.runs) {w : ℕ}
    (h : working_on k s.runs ≤ w) where
  pub insert-calm :
      (r : Run) (t : List Run)
      → insert_row run_id r s.runs ≡ some t
      → busy_runner k r ≡ false
      → working_on k t ≤ w
  insert-calm r t e idle =
      omega (arith, h, count-insert_row (busy_runner k) run_id r s.runs t e idle)

  pub claim_next_run-calm :
      (x : Queue.RunExecutor) (runner_id lease max_jobs : ℕ)
      → working_on k (Queue.claim_next_run now x runner_id lease max_jobs s).0.runs ≤ w
  unfolding Queue.claim_next_run update_key
  claim_next_run-calm x runner_id lease max_jobs =
      let fits = Queue.claimable x s.conversations in
      elim (Bool-cases (leb max_jobs (count_where occupies_slot s.runs))) [
        | inl full ↦ rw full h
        | inr free ↦ elim (Option-cases (earliest_where fits Queue.queued_before s.runs)) [
          | inl idle ↦ rw (free, idle) h
          | inr (c, found) ↦
              let (mem, fit) = earliest_where-mem fits Queue.queued_before s.runs found in
              rw (free, found)
                (calm_update k (λ r. run_id r == c.id) (Queue.mark_claimed now runner_id lease)
                  s.runs
                  (λ r at e b.
                    let same : r ≡ c = Unique-at run_id s.runs u r c at mem ((==_iff _ _).0 e) in
                    claimed-calm k r now x s.conversations runner_id lease (rw same fit) b)
                  h)
        ]
      ]

  pub recover_stale_runs-calm :
      (x : Queue.RunExecutor) (stale m : ℕ)
      → working_on k (Queue.recover_stale_runs now x stale m s).0.runs ≤ w
  unfolding Queue.recover_stale_runs busy_runner Queue.mark_interrupted Queue.mark_requeued
  recover_stale_runs-calm x stale m =
      calm_update k (Queue.retriable now x stale m) (Queue.mark_requeued now)
        (update_where (Queue.exhausted now x stale m) (Queue.mark_interrupted now) s.runs)
        (λ r at e b. absurd (ground (arith, b)))
        (calm_update k (Queue.exhausted now x stale m) (Queue.mark_interrupted now) s.runs
          (λ r at e b. absurd (ground (arith, b))) h)

  pub soft_delete_conversation-calm :
      (conversation_id user_id : ℕ)
      → working_on k (Trash.soft_delete_conversation now conversation_id user_id s).0.runs ≤ w
  unfolding Trash.soft_delete_conversation Trash.conversation_deleted
  soft_delete_conversation-calm conversation_id user_id =
      elim (Bool-cases
        (any (Trash.own_live_conversation conversation_id user_id) s.conversations)) [
          | inr absent ↦ rw absent h
          | inl own ↦
              elim (Bool-cases (
                any (λ (r : Run). is_running r.status)
                  (rows_where (Trash.live_plain_run_of conversation_id) s.runs))) [
                    | inl busy ↦ rw (own, busy) h
                    | inr idle ↦
                        rw (own, idle)
                          (calm_update k (Trash.live_plain_run_of conversation_id)
                            (Trash.mark_deleted now "conversation deleted by user" true) s.runs
                            (λ r at e b. deleted-calm k r now "conversation deleted by user" true b)
                            h)
                  ]
        ]

  pub record_approval-calm :
      (user_id : ℕ) (a : Approval)
      → working_on k (Submit.record_approval now user_id a s).0.runs ≤ w
  unfolding Submit.record_approval busy_runner Submit.mark_e2ee_approved
  record_approval-calm user_id a =
      calm_update k (Submit.awaiting a.run_id user_id) (Submit.mark_e2ee_approved now a) s.runs
        (λ r at e b. absurd (ground (arith, b))) h

  pub restore_conversation-calm :
      (m : ℕ)
      → All (RowOk m) s.runs
      → (conversation_id user_id : ℕ)
      → working_on k (Trash.restore_conversation now conversation_id user_id s).0.runs ≤ w
  unfolding Trash.restore_conversation
  restore_conversation-calm m rows conversation_id user_id =
      elim (Bool-cases
        (not (any (Trash.own_deleted_conversation conversation_id user_id) s.conversations))) [
          | inl absent ↦ rw absent h
          | inr found ↦ rw found (
              calm_update k (Trash.deleted_with conversation_id) (Trash.mark_restored now) s.runs
                (λ r at e b. restored-calm k r now m (All-at (RowOk m) s.runs rows r at) b) h)
        ]
