-- ===== src/E2ee/Work.antt =====
-- What a runner does to an encrypted run: claimNextE2eeRun, updateE2eeProgress, renewE2eeLease,
-- finishE2eeRun and rejectE2eeRun of apps/server/src/e2eeDb.ts.
use cursor_gateway.Base.{
  or_else, ℕ, ◌+◌, Bool, not, ◌&&◌, Option, none, some, List, leb, ltb, ◌==◌, any, is_some, is_none,
  holds, coalesce, same_number,
}
use cursor_gateway.Table.{
  update_where, update_key, update_returning, count_where, earliest_where, first_where,
}
use cursor_gateway.Run.{
  RunStatus, Progress, RunResult, ending_status, Run, Conversation, Store, is_queued, is_running,
  is_error, is_e2ee,
}
use cursor_gateway.Run.Queue.{occupies_slot}
use cursor_gateway.E2ee.{lease_ms, e2ee_leased}

-- `content_mode = $1 and status = 'running' and deleted_at is null and lease_expires_at < now()`
unfoldable pub lease_expired : ℕ → Run → Bool
lease_expired now r =
    is_e2ee r.content_mode
    && is_running r.status
    && is_none r.deleted_at
    && holds (λ at. ltb at now) r.lease_expires_at

unfoldable pub expired_failing : ℕ → (max_attempts : ℕ) → Run → Bool
unfolding lease_expired
expired_failing now max_attempts r = lease_expired now r && leb max_attempts r.claim_attempts

unfoldable pub expired_retriable : ℕ → (max_attempts : ℕ) → Run → Bool
unfolding lease_expired
expired_retriable now max_attempts r = lease_expired now r && ltb r.claim_attempts max_attempts

-- The `set` of `expired_failed`, and of `rejectE2eeRun`.
unfoldable pub mark_e2ee_failed : ℕ → Run → Run
mark_e2ee_failed now r = record r {
  status = RunStatus.error;
  progress_envelope = none;
  progress_sequence = none;
  claim_lease_id = none;
  claimed_by = none;
  lease_expires_at = none;
  finished_at = some now;
  updated_at = now;
}

-- The `set` of `expired_requeued`.
unfoldable pub mark_e2ee_requeued : ℕ → Run → Run
mark_e2ee_requeued now r = record r {
  status = RunStatus.queued;
  progress_envelope = none;
  progress_sequence = none;
  claim_lease_id = none;
  claimed_by = none;
  lease_expires_at = none;
  started_at = none;
  updated_at = now;
}

-- `runner_active`: an encrypted run that the runner works on.
unfoldable pub busy_runner : (runner_id : ℕ) → Run → Bool
busy_runner runner_id r =
    is_e2ee r.content_mode
    && is_running r.status
    && same_number r.claimed_by (some runner_id)
    && is_none r.deleted_at

-- `active`: a run of the conversation that is running.
unfoldable pub busy_conversation : (conversation_id : ℕ) → Run → Bool
busy_conversation conversation_id r =
    r.conversation_id == conversation_id && is_running r.status && is_none r.deleted_at

-- The conditions of `candidate` on the run and its conversation, which PostgreSQL checks again on
-- their current versions when it locks them (`for update of r, c`).
unfoldable pub e2ee_fits : (runner_id runner_key_id : ℕ) → List Conversation → Run → Bool
e2ee_fits runner_id runner_key_id conversations r =
    is_e2ee r.content_mode
    && is_queued r.status
    && same_number r.target_runner_id (some runner_id)
    && same_number r.runner_key_id (some runner_key_id)
    && is_none r.deleted_at
    && any (λ (c : Conversation). c.id == r.conversation_id && is_none c.deleted_at) conversations

-- The `where` of `candidate`, for a row of the table `s`. The counts and the `not exists` read the
-- statement's snapshot `seen` alone, which is older than `s` where the statement has waited for the
-- advisory lock. A row never changes its `created_at`.
unfoldable pub e2ee_claimable :
    (runner_id runner_key_id max_jobs : ℕ) → (seen : Store) → Store → Run → Bool
unfolding e2ee_fits occupies_slot busy_runner busy_conversation count_where
e2ee_claimable runner_id runner_key_id max_jobs seen s r =
    e2ee_fits runner_id runner_key_id s.conversations r
    && any (λ (q : Run). q.id == r.id && e2ee_fits runner_id runner_key_id seen.conversations q)
        seen.runs
    && not (leb max_jobs (count_where occupies_slot seen.runs))
    && not (any (busy_runner runner_id) seen.runs)
    && not (any (busy_conversation r.conversation_id) seen.runs)

-- `order by r.created_at`
unfoldable pub created_before : Run → Run → Bool
created_before s r = ltb s.created_at r.created_at

unfoldable pub mark_e2ee_claimed : ℕ → (runner_id lease : ℕ) → Run → Run
mark_e2ee_claimed now runner_id lease r = record r {
  status = RunStatus.running;
  started_at = some now;
  updated_at = now;
  claim_attempts = r.claim_attempts + 1;
  claim_lease_id = some lease;
  claimed_by = some runner_id;
  lease_expires_at = some (now + lease_ms);
}

-- A condition that the row's version in the snapshot meets as well as its current one.
abbrev pub seen_too : (seen : List Run) → (Run → Bool) → Run → Bool
seen_too seen test r = test r && any (λ (q : Run). q.id == r.id && test q) seen

-- The two updates of expired leases. They touch the running rows, the claim a queued one, and all
-- three read the rows of the snapshot.
unfoldable pub expire_leases : ℕ → (max_attempts : ℕ) → (seen : List Run) → List Run → List Run
unfolding expired_failing expired_retriable mark_e2ee_failed mark_e2ee_requeued update_where
expire_leases now max_attempts seen runs =
    update_where (seen_too seen (expired_retriable now max_attempts)) (mark_e2ee_requeued now)
      (update_where (seen_too seen (expired_failing now max_attempts)) (mark_e2ee_failed now) runs)

-- What `claimNextE2eeRun` is given, and the uuid that the database generates.
pub record ClaimE2ee : Type 0 where
  pub runner_id : ℕ
  pub runner_key_id : ℕ
  pub max_attempts : ℕ
  pub max_jobs : ℕ
  pub lease : ℕ

-- `claimNextE2eeRun`, by the row that it claims. The statement takes the advisory lock itself, so
-- its snapshot `seen` may be older than the table `s` that it changes.
unfoldable pub claim_next_e2ee_run : ℕ → ClaimE2ee → (seen : Store) → Store → Store × Option Run
unfolding e2ee_claimable created_before mark_e2ee_claimed expire_leases earliest_where update_key
claim_next_e2ee_run now i seen s =
    let runs = expire_leases now i.max_attempts seen.runs s.runs in
    elim (earliest_where (e2ee_claimable i.runner_id i.runner_key_id i.max_jobs seen s)
      created_before s.runs) [
        | none ↦ (record s { runs = runs }, none)
        | some r ↦ (
          record s {
            runs = update_key (λ q. q.id) r.id (mark_e2ee_claimed now i.runner_id i.lease) runs;
          },
          some (mark_e2ee_claimed now i.runner_id i.lease r),
        )
      ]

unfoldable pub progresses : (runner_id lease : ℕ) → Progress → Run → Bool
unfolding e2ee_leased
progresses runner_id lease p r =
    e2ee_leased p.run_id runner_id lease r
    && r.conversation_id == p.conversation_id
    && ltb (coalesce r.progress_sequence 0) p.sequence

unfoldable pub mark_e2ee_progress : ℕ → Progress → Run → Run
mark_e2ee_progress now p r = record r {
  progress_envelope = some p;
  progress_sequence = some p.sequence;
  lease_expires_at = some (now + lease_ms);
  updated_at = now;
}

-- `updateE2eeProgress`
unfoldable pub update_e2ee_progress : ℕ → (runner_id lease : ℕ) → Progress → Store → Store × Bool
unfolding progresses mark_e2ee_progress update_returning
update_e2ee_progress now runner_id lease p s =
    let (runs, found) =
      update_returning (progresses runner_id lease p) (mark_e2ee_progress now p) s.runs in
    (record s { runs = runs }, is_some found)

unfoldable pub keyed_lease : (run_id runner_id runner_key_id lease : ℕ) → Run → Bool
unfolding e2ee_leased
keyed_lease run_id runner_id runner_key_id lease r =
    e2ee_leased run_id runner_id lease r && same_number r.runner_key_id (some runner_key_id)

unfoldable pub mark_e2ee_renewed : ℕ → Run → Run
mark_e2ee_renewed now r = record r { lease_expires_at = some (now + lease_ms); updated_at = now }

-- `renewE2eeLease`
unfoldable pub renew_e2ee_lease :
    ℕ → (run_id runner_id runner_key_id lease : ℕ) → Store → Store × Bool
unfolding keyed_lease mark_e2ee_renewed update_returning
renew_e2ee_lease now run_id runner_id runner_key_id lease s =
    let (runs, found) =
      update_returning (keyed_lease run_id runner_id runner_key_id lease) (mark_e2ee_renewed now)
        s.runs in
    (record s { runs = runs }, is_some found)

unfoldable pub finishes : (runner_id lease : ℕ) → RunResult → Run → Bool
unfolding e2ee_leased
finishes runner_id lease e r =
    e2ee_leased e.run_id runner_id lease r && r.conversation_id == e.conversation_id

unfoldable pub mark_e2ee_finished : ℕ → RunResult → Run → Run
mark_e2ee_finished now e r = record r {
  status = ending_status e.status;
  result_envelope = some e;
  progress_envelope = none;
  progress_sequence = none;
  claim_lease_id = none;
  claimed_by = none;
  lease_expires_at = none;
  finished_at = some now;
  updated_at = now;
}

-- `result_envelope ->> 'messageId' = $4`, for the same run and runner.
unfoldable pub finished_by : (runner_id : ℕ) → RunResult → Run → Bool
finished_by runner_id e r =
    r.id == e.run_id
    && same_number r.target_runner_id (some runner_id)
    && is_e2ee r.content_mode
    && holds (λ (q : RunResult). q.message_id == e.message_id) r.result_envelope

-- `finishE2eeRun`
unfoldable pub finish_e2ee_run : ℕ → (runner_id lease : ℕ) → RunResult → Store → Store × Option Run
unfolding finishes mark_e2ee_finished finished_by update_returning first_where
finish_e2ee_run now runner_id lease e s =
    let (runs, found) =
      update_returning (finishes runner_id lease e) (mark_e2ee_finished now e) s.runs in
    (record s { runs = runs }, or_else found (first_where (finished_by runner_id e) runs))

-- A rejection that was committed already.
unfoldable pub rejected_before : (run_id runner_id runner_key_id : ℕ) → Run → Bool
rejected_before run_id runner_id runner_key_id r =
    r.id == run_id
    && same_number r.target_runner_id (some runner_id)
    && same_number r.runner_key_id (some runner_key_id)
    && is_error r.status
    && is_e2ee r.content_mode
    && is_none r.result_envelope

-- `rejectE2eeRun`
unfoldable pub reject_e2ee_run :
    ℕ → (run_id runner_id runner_key_id lease : ℕ) → Store → Store × Option Run
unfolding keyed_lease mark_e2ee_failed rejected_before update_returning first_where
reject_e2ee_run now run_id runner_id runner_key_id lease s =
    let (runs, found) =
      update_returning (keyed_lease run_id runner_id runner_key_id lease) (mark_e2ee_failed now)
        s.runs in
    (
      record s { runs = runs },
      or_else found (first_where (rejected_before run_id runner_id runner_key_id) runs),
    )
