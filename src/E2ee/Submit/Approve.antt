-- ===== src/E2ee/Submit/Approve.antt =====
-- The approval and the cancellation of an encrypted run by its client: submitE2eeApproval and
-- cancelE2eeRun of apps/server/src/e2eeDb.ts.
use cursor_gateway.Base.{
  ℕ, Bool, not, ◌&&◌, ◌||◌, Option, none, some, ◌==◌, if◌then◌else◌, is_some, Result, ok, err,
}
use cursor_gateway.Table.{update_returning, first_where}
use cursor_gateway.Run.{
  RunStatus, CancelReason, RunRequest, Approval, Run, Store, is_waiting, is_active, is_e2ee,
}
use cursor_gateway.E2ee.{
  E2eeError, approval_request_mismatch, approval_already_submitted, invalid_envelope, same_approval,
}

unfoldable pub own_e2ee_run : (run_id user_id : ℕ) → Run → Bool
own_e2ee_run run_id user_id r = r.id == run_id && r.user_id == user_id && is_e2ee r.content_mode

-- The approval fits the request that it answers.
unfoldable pub approval_fits : RunRequest → Approval → Bool
approval_fits q a =
    q.conversation_id == a.conversation_id
    && q.client_id == a.client_id
    && q.client_key_id == a.client_key_id
    && q.runner_id == a.runner_id
    && q.runner_key_id == a.runner_key_id
    && q.allow_writes

unfoldable pub awaiting : (run_id user_id : ℕ) → Run → Bool
awaiting run_id user_id r = r.id == run_id && r.user_id == user_id && is_waiting r.status

unfoldable pub mark_e2ee_approved : ℕ → Approval → Run → Run
mark_e2ee_approved now a r = record r {
  approval_envelope = some a;
  status = RunStatus.queued;
  updated_at = now;
}

-- The update of `submitE2eeApproval`.
unfoldable pub record_approval : ℕ → (user_id : ℕ) → Approval → Store → Store × Option Run
unfolding awaiting mark_e2ee_approved update_returning
record_approval now user_id a s =
    let (runs, found) =
      update_returning (awaiting a.run_id user_id) (mark_e2ee_approved now a) s.runs in
    (record s { runs = runs }, found)

-- An approval that is stored already: the same one is answered again.
unfoldable pub approve_again :
    Approval → Approval → Store → Run → Result E2eeError (Store × Option Run)
unfolding same_approval
approve_again stored a s r =
    if not (stored.message_id == a.message_id) || not (same_approval stored a)
    then err approval_already_submitted
    else ok (s, some r)

-- An approval of a run whose request is known, by the approval that is stored.
unfoldable pub approve_request :
    ℕ
    → (user_id : ℕ) → Approval
    → Store
    → Run
    → RunRequest
    → Option Approval
    → Result E2eeError (Store × Option Run)
unfolding approval_fits record_approval approve_again
approve_request now user_id a s r q (some stored) =
    if not (approval_fits q a) then err approval_request_mismatch else approve_again stored a s r
approve_request now user_id a s r q none =
    if not (approval_fits q a)
    then err approval_request_mismatch
    else ok (record_approval now user_id a s)

-- An approval of a run that is there, by its stored request.
unfoldable pub approve_row :
    ℕ
    → (user_id : ℕ) → Approval
    → Store
    → Run
    → Option RunRequest
    → Result E2eeError (Store × Option Run)
unfolding approve_request
approve_row now user_id a s r none = err invalid_envelope
approve_row now user_id a s r (some q) = approve_request now user_id a s r q r.approval_envelope

-- The transaction, by the row that it locks.
unfoldable pub approve_found :
    ℕ → (user_id : ℕ) → Approval → Store → Option Run → Result E2eeError (Store × Option Run)
unfolding approve_row
approve_found now user_id a s none = ok (s, none)
approve_found now user_id a s (some r) = approve_row now user_id a s r r.request_envelope

-- `submitE2eeApproval`
unfoldable pub submit_e2ee_approval :
    ℕ → (user_id : ℕ) → Approval → Store → Result E2eeError (Store × Option Run)
unfolding own_e2ee_run approve_found first_where
submit_e2ee_approval now user_id a s =
    approve_found now user_id a s (first_where (own_e2ee_run a.run_id user_id) s.runs)

unfoldable pub e2ee_cancellable : (run_id user_id : ℕ) → Run → Bool
e2ee_cancellable run_id user_id r =
    r.id == run_id
    && r.user_id == user_id
    && is_e2ee r.content_mode
    && is_active r.status
    && not (is_some r.deleted_at)

unfoldable pub mark_e2ee_cancelled : ℕ → Run → Run
mark_e2ee_cancelled now r = record r {
  status = RunStatus.cancelled;
  cancel_reason = some CancelReason.caller_cancelled;
  progress_envelope = none;
  progress_sequence = none;
  claim_lease_id = none;
  claimed_by = none;
  lease_expires_at = none;
  last_activity_at = some now;
  finished_at = some now;
  updated_at = now;
}

-- `cancelE2eeRun`
unfoldable pub cancel_e2ee_run : ℕ → (run_id user_id : ℕ) → Store → Store × Option Run
unfolding e2ee_cancellable mark_e2ee_cancelled update_returning
cancel_e2ee_run now run_id user_id s =
    let (runs, found) =
      update_returning (e2ee_cancellable run_id user_id) (mark_e2ee_cancelled now) s.runs in
    (record s { runs = runs }, found)
