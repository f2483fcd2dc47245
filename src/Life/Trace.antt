-- ===== src/Life/Trace.antt =====
-- Any sequence of the modelled statements of both repositories, under one deployment's limits.
use cursor_gateway.Base.{
  ℕ, suc, ◌+◌, ◌≤◌, ◌<◌, if◌then◌else◌, false, coalesce, arith, inl, inr, Bool-cases, String,
  Option, none, some, List, [], ◌∷◌, ◌≡◌, refl, Bool, true, ok, err, Result, All,
}
use cursor_gateway.Run.{
  Run, Store, CancelReason, RunRequest, Approval, Progress, RunResult, is_pending,
}
use cursor_gateway.Run.Queue.{
  CreateRun, RunExecutor, create_run, claim_next_run, recover_stale_runs, approve_run,
}
use cursor_gateway.Run.Lease.{FinishRun, renew_run_lease, update_run_progress, finish_run}
use cursor_gateway.Run.Deadline.{RunTimeouts, cancel_run, expire_csapi_runs}
use cursor_gateway.Run.Trash.{
  soft_delete_run, soft_delete_conversation, restore_run, restore_conversation,
}
use cursor_gateway.E2ee.{E2eeError}
use cursor_gateway.E2ee.Submit.{create_e2ee_run, submit_e2ee_approval, cancel_e2ee_run}
use cursor_gateway.E2ee.Work.{
  claim_next_e2ee_run, update_e2ee_progress, renew_e2ee_lease, finish_e2ee_run, reject_e2ee_run,
}
use cursor_gateway.Life.Statements
use cursor_gateway.Life.Statements.{Sound}
use cursor_gateway.Life.Encrypted

-- One call of a repository function, with what it is given. The claim of an encrypted run may have
-- waited for the advisory lock inside its statement: it is then given the older snapshot that it
-- reads.
pub data Call : Type 0 where
  create : CreateRun → Call
  claim : RunExecutor → (runner_id lease : ℕ) → Call
  recover : RunExecutor → (stale_after : ℕ) → Call
  approve : (run_id user_id : ℕ) → Call
  renew : (run_id runner_id lease : ℕ) → Call
  progress : (run_id runner_id lease : ℕ) → (kind message : String) → Call
  finish : FinishRun → Call
  cancel : (run_id user_id : ℕ) → CancelReason → Option ℕ → Call
  expire : RunTimeouts → Call
  delete_run : (run_id user_id : ℕ) → Call
  delete_conversation : (conversation_id user_id : ℕ) → Call
  restore_a_run : (run_id user_id : ℕ) → Call
  restore_a_conversation : (conversation_id user_id : ℕ) → Call
  e2ee_create : (user_id : ℕ) → RunRequest → Call
  e2ee_approve : (user_id : ℕ) → Approval → Call
  e2ee_cancel : (run_id user_id : ℕ) → Call
  e2ee_claim : (runner_id runner_key_id lease : ℕ) → (seen : Option Store) → Call
  e2ee_progress : (runner_id lease : ℕ) → Progress → Call
  e2ee_renew : (run_id runner_id runner_key_id lease : ℕ) → Call
  e2ee_finish : (runner_id lease : ℕ) → RunResult → Call
  e2ee_reject : (run_id runner_id runner_key_id lease : ℕ) → Call

-- A call that throws is rolled back.
module _ {ℓ} {A : Type ℓ} where
  abbrev committed : Store → Option (Store × A) → Store
  committed s none = s
  committed s (some (after, x)) = after

  abbrev committed_ok : Store → Result E2eeError (Store × A) → Store
  committed_ok s (err e) = s
  committed_ok s (ok (after, x)) = after

abbrev pub committed_submit : Store → Result E2eeError (Store × Run × Bool) → Store
committed_submit s (err e) = s
committed_submit s (ok (after, r, created)) = after

module _ (max_jobs max_attempts : ℕ) where
  -- The store after a call at a time.
  unfoldable pub exec : ℕ → Call → Store → Store
  exec now (create i) s = committed s (create_run now i s)
  exec now (claim x runner_id lease) s = (claim_next_run now x runner_id lease max_jobs s).0
  exec now (recover x stale_after) s = (recover_stale_runs now x stale_after max_attempts s).0
  exec now (approve run_id user_id) s = (approve_run now run_id user_id s).0
  exec now (renew run_id runner_id lease) s = (renew_run_lease now run_id runner_id lease s).0
  exec now (progress run_id runner_id lease kind message) s =
      (update_run_progress now run_id runner_id lease kind message s).0
  exec now (finish i) s = (finish_run now i s).0
  exec now (cancel run_id user_id reason limit) s =
      committed s (cancel_run now run_id user_id reason limit s)
  exec now (expire t) s = (expire_csapi_runs now t s).0
  exec now (delete_run run_id user_id) s = (soft_delete_run now run_id user_id s).0
  exec now (delete_conversation conversation_id user_id) s =
      (soft_delete_conversation now conversation_id user_id s).0
  exec now (restore_a_run run_id user_id) s = (restore_run now run_id user_id s).0
  exec now (restore_a_conversation conversation_id user_id) s =
      (restore_conversation now conversation_id user_id s).0
  exec now (e2ee_create user_id q) s = committed_submit s (create_e2ee_run now user_id q s)
  exec now (e2ee_approve user_id a) s = committed_ok s (submit_e2ee_approval now user_id a s)
  exec now (e2ee_cancel run_id user_id) s = (cancel_e2ee_run now run_id user_id s).0
  exec now (e2ee_claim runner_id runner_key_id lease seen) s =
      (claim_next_e2ee_run now
        (record {
          runner_id = runner_id;
          runner_key_id = runner_key_id;
          max_attempts = max_attempts;
          max_jobs = max_jobs;
          lease = lease;
        })
        (coalesce seen s) s).0
  exec now (e2ee_progress runner_id lease p) s = (update_e2ee_progress now runner_id lease p s).0
  exec now (e2ee_renew run_id runner_id runner_key_id lease) s =
      (renew_e2ee_lease now run_id runner_id runner_key_id lease s).0
  exec now (e2ee_finish runner_id lease e) s = (finish_e2ee_run now runner_id lease e s).0
  exec now (e2ee_reject run_id runner_id runner_key_id lease) s =
      (reject_e2ee_run now run_id runner_id runner_key_id lease s).0

  -- A history: timed calls, the first one first.
  unfoldable pub exec_all : List (ℕ × Call) → Store → Store
  unfolding exec
  exec_all [] s = s
  exec_all ((now, c) ∷ cs) s = exec_all cs (exec now c s)

-- The claim of an encrypted run by a statement whose snapshot is older than the table.
abbrev pub is_stale : Call → Bool
is_stale (e2ee_claim runner_id runner_key_id lease (some seen)) = true
is_stale _ = false

-- How many of the calls are such claims.
unfoldable pub stale_claims : List (ℕ × Call) → ℕ
stale_claims [] = 0
stale_claims ((now, c) ∷ cs) = (if is_stale c then 1 else 0) + stale_claims cs

-- The callers of `createRun` make queued runs, and runs that wait for approval.
abbrev pub IsAdmitted : Call → Type 0
IsAdmitted (create i) = is_pending i.status ≡ true
IsAdmitted _ = Unit

-- A property that a call keeps when it returns, and that the store had, holds once it is over.
module _ {ℓ} (P : Store → Type ℓ) (s : Store) (h : P s) where
  module _ {A : Type 0} where
    pub committed_holds :
        (o : Option (Store × A))
        → ((after : Store) (x : A) → o ≡ some (after, x) → P after)
        → P (committed s o)
    committed_holds none f = h
    committed_holds (some (after, x)) f = f after x refl

    pub committed_ok_holds :
        (o : Result E2eeError (Store × A))
        → ((after : Store) (x : A) → o ≡ ok (after, x) → P after)
        → P (committed_ok s o)
    committed_ok_holds (err e) f = h
    committed_ok_holds (ok (after, x)) f = f after x refl

  pub committed_submit_holds :
      (o : Result E2eeError (Store × Run × Bool))
      → ((after : Store) (r : Run) (b : Bool) → o ≡ ok (after, r, b) → P after)
      → P (committed_submit s o)
  committed_submit_holds (err e) f = h
  committed_submit_holds (ok (after, r, b)) f = f after r b refl

-- A table with at most `b` slots taken, where `b` is the budget at least.
module _ (b n m : ℕ) (room : 0 < m) (fits : n ≤ b) where
  pub exec-Sound :
      (now : ℕ) (c : Call) (s : Store)
      → IsAdmitted c
      → Sound b m s
      → Sound (if is_stale c then suc b else b) m (exec n m now c s)
  unfolding exec
  exec-Sound now (create i) s a h =
      committed_holds (Sound b m) s h _
        (λ after r e. Statements.create_run-Sound b m room now s h i a e)
  exec-Sound now (claim x runner_id lease) s a h =
      Statements.claim_next_run-Sound b m room now s h x runner_id lease n fits
  exec-Sound now (recover x stale_after) s a h =
      Statements.recover_stale_runs-Sound b m room now s h x stale_after
  exec-Sound now (approve run_id user_id) s a h =
      Statements.approve_run-Sound b m room now s h run_id user_id
  exec-Sound now (renew run_id runner_id lease) s a h =
      Statements.renew_run_lease-Sound b m room now s h run_id runner_id lease
  exec-Sound now (progress run_id runner_id lease kind message) s a h =
      Statements.update_run_progress-Sound b m room now s h run_id runner_id lease kind message
  exec-Sound now (finish i) s a h = Statements.finish_run-Sound b m room now s h i
  exec-Sound now (cancel run_id user_id reason limit) s a h =
      committed_holds (Sound b m) s h _
        (λ after r e. Statements.cancel_run-Sound b m room now s h run_id user_id reason limit e)
  exec-Sound now (expire t) s a h = Statements.expire_csapi_runs-Sound b m room now s h t
  exec-Sound now (delete_run run_id user_id) s a h =
      Statements.soft_delete_run-Sound b m room now s h run_id user_id
  exec-Sound now (delete_conversation conversation_id user_id) s a h =
      Statements.soft_delete_conversation-Sound b m room now s h conversation_id user_id
  exec-Sound now (restore_a_run run_id user_id) s a h =
      Statements.restore_run-Sound b m room now s h run_id user_id
  exec-Sound now (restore_a_conversation conversation_id user_id) s a h =
      Statements.restore_conversation-Sound b m room now s h conversation_id user_id
  exec-Sound now (e2ee_create user_id q) s a h =
      committed_submit_holds (Sound b m) s h _
        (λ after r made e. Encrypted.create_e2ee_run-Sound b m room now s h user_id q e)
  exec-Sound now (e2ee_approve user_id p) s a h =
      committed_ok_holds (Sound b m) s h _
        (λ after r e. Encrypted.submit_e2ee_approval-Sound b m room now s h user_id p e)
  exec-Sound now (e2ee_cancel run_id user_id) s a h =
      Encrypted.cancel_e2ee_run-Sound b m room now s h run_id user_id
  exec-Sound now (e2ee_claim runner_id runner_key_id lease none) s a h =
      Encrypted.claim_next_e2ee_run-Sound now _ s b h fits
  exec-Sound now (e2ee_claim runner_id runner_key_id lease (some seen)) s a h =
      Encrypted.stale_claim-Sound now _ seen s b h
  exec-Sound now (e2ee_progress runner_id lease p) s a h =
      Encrypted.update_e2ee_progress-Sound b m room now s h runner_id lease p
  exec-Sound now (e2ee_renew run_id runner_id runner_key_id lease) s a h =
      Encrypted.renew_e2ee_lease-Sound b m room now s h run_id runner_id runner_key_id lease
  exec-Sound now (e2ee_finish runner_id lease e) s a h =
      Encrypted.finish_e2ee_run-Sound b m room now s h runner_id lease e
  exec-Sound now (e2ee_reject run_id runner_id runner_key_id lease) s a h =
      Encrypted.reject_e2ee_run-Sound b m room now s h run_id runner_id runner_key_id lease

  pub exec-Sound_slack :
      (now : ℕ) (c : Call) (s : Store)
      → IsAdmitted c
      → Sound b m s
      → Sound ((if is_stale c then 1 else 0) + b) m (exec n m now c s)
  exec-Sound_slack now c s a h = elim (Bool-cases (is_stale c)) [
    | inl stale ↦
        Encrypted.wider (suc b) _ m _ (ground (arith, stale)) (rw stale at (exec-Sound now c s a h))
    | inr fresh ↦
        Encrypted.wider b _ m _ (ground (arith, fresh)) (rw fresh at (exec-Sound now c s a h))
  ]

module _ (n m : ℕ) (room : 0 < m) where
  pub exec_all-Sound_from :
      (calls : List (ℕ × Call)) (b : ℕ) (s : Store)
      → n ≤ b
      → All (λ c. IsAdmitted c.1) calls
      → Sound b m s
      → Sound (b + stale_claims calls) m (exec_all n m calls s)
  unfolding exec_all stale_claims
  exec_all-Sound_from [] b s fits a h = Encrypted.wider b (b + 0) m s.runs (omega arith) h
  exec_all-Sound_from ((now, c) ∷ cs) b s fits (a, rest) h =
      let more : ℕ = if is_stale c then 1 else 0 in
      Encrypted.wider (more + b + stale_claims cs) (b + (more + stale_claims cs)) m
        (exec_all n m cs (exec n m now c s)).runs (omega arith)
        (exec_all-Sound_from cs (more + b) (exec n m now c s) (omega (arith, fits)) rest
          (exec-Sound_slack b n m room fits now c s a h))

  -- Whatever calls are made, in whatever order and at whatever times, from a sound table on: the
  -- ids stay distinct, no run is claimed more than `max_attempts` times, a queued run has an attempt
  -- left, a running run has a start, a claimant and a lease, a pending run has neither claimant nor
  -- lease, and a deleted run is over. The running claimed runs outnumber `max_jobs` by no more than
  -- the claims of encrypted runs whose statement read a snapshot older than the table; where there
  -- is none, they never outnumber it. New plaintext runs are made queued or waiting for approval,
  -- and `max_attempts` is positive.
  pub exec_all-Sound :
      (calls : List (ℕ × Call)) (s : Store)
      → All (λ c. IsAdmitted c.1) calls
      → Sound n m s
      → Sound (n + stale_claims calls) m (exec_all n m calls s)
  exec_all-Sound calls s a h = exec_all-Sound_from calls n s (omega arith) a h
