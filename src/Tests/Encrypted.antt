-- ===== src/Tests/Encrypted.antt =====
-- Encrypted runs at concrete inputs.
use mathlib.Core.List.{Memᴰ}
use cursor_gateway.Base.{
  is_some, map, Option, Bool, List, ℕ, ◌+◌, ◌≤◌, true, false, none, some, [], ◌∷◌, ◌≡◌, refl, arith,
  ok,
}
use cursor_gateway.Run.{Approval, Run, RunRequest, Progress, RunResult, Store, Ending}
use cursor_gateway.E2ee.Submit.{submit_e2ee_approval, create_e2ee_run, new_e2ee_run}
use cursor_gateway.E2ee.Work.{
  claim_next_e2ee_run, mark_e2ee_claimed, mark_e2ee_finished, finish_e2ee_run, update_e2ee_progress,
  finishes, progresses, busy_runner, ClaimE2ee, created_before, e2ee_claimable,
}
use cursor_gateway.Life.Approved.{AllApproved}
use cursor_gateway.Life.Consent.{exec_all-approved}
use cursor_gateway.Life.Served.{IsFor, claim_next_e2ee_run-serves}
use cursor_gateway.Life.Trace.{Call, exec_all, committed_submit, stale_claims, exec_all-Sound}
use cursor_gateway.Life.Exclusive.{stale_claims_of, exec_all-exclusive}
use cursor_gateway.Life.Calm.{working_on}
use cursor_gateway.Life.Statements.{Sound}
use cursor_gateway.Table.{count_where}
use cursor_gateway.E2ee.Replay.{finish_e2ee_run-replay, update_e2ee_progress-stale}
use cursor_gateway.E2ee.Resubmit.{create_e2ee_run-again}
use cursor_gateway.Tests.{empty-Sound, empty_store}

abbrev wanted : RunRequest
wanted = record {
  run_id = 20;
  message_id = 20;
  conversation_id = 2;
  client_id = 30;
  client_key_id = 31;
  runner_id = 7;
  runner_key_id = 71;
  sequence = 1;
  model = "gpt-5";
  workspace_id = "main";
  allow_writes = false;
  memory_enabled = true;
  title = none;
  payload = "ciphertext";
}

abbrev claimed_run : Run
claimed_run = mark_e2ee_claimed 105 7 70 (new_e2ee_run 100 5 wanted)

abbrev working_store : Store
working_store = record empty_store { runs = claimed_run ∷ [] }

abbrev result : RunResult
result = record {
  message_id = 90;
  run_id = 20;
  conversation_id = 2;
  status = Ending.ended_finished;
  payload = "answer";
}

abbrev progress_at : ℕ → Progress
progress_at sequence = record {
  run_id = 20;
  conversation_id = 2;
  sequence = sequence;
  payload = "working";
}

finish_e2ee_run-replay_example :
    ((finish_e2ee_run 110 7 70 result working_store).1
      ≡ some (mark_e2ee_finished 110 result claimed_run))
    × (finish_e2ee_run 130 7 70 result (finish_e2ee_run 110 7 70 result working_store).0 ≡ (
      (finish_e2ee_run 110 7 70 result working_store).0,
      some (mark_e2ee_finished 110 result claimed_run),
    ))
unfolding finishes mark_e2ee_claimed new_e2ee_run
finish_e2ee_run-replay_example =
    finish_e2ee_run-replay working_store (tt, tt) claimed_run (Memᴰ.head refl) 110 130 7 70 result
      refl

update_e2ee_progress-stale_example :
    update_e2ee_progress 120 7 70
      (progress_at 2)
      (update_e2ee_progress 110 7 70 (progress_at 3) working_store).0
    ≡ ((update_e2ee_progress 110 7 70 (progress_at 3) working_store).0, false)
unfolding progresses mark_e2ee_claimed new_e2ee_run
update_e2ee_progress-stale_example =
    update_e2ee_progress-stale working_store (tt, tt) claimed_run (Memᴰ.head refl) 110 120 7 70 70
      (progress_at 3) (progress_at 2) refl refl (ground arith)

-- The store after the request.
abbrev asked_store : Store
asked_store = committed_submit empty_store (create_e2ee_run 100 5 wanted empty_store)

create_e2ee_run-again_example :
    create_e2ee_run 200 5 wanted asked_store ≡ ok (asked_store, new_e2ee_run 100 5 wanted, false)
unfolding create_e2ee_run
create_e2ee_run-again_example = create_e2ee_run-again 100 5 wanted empty_store tt 200 refl

-- A request that may write, its approval, and the claim of the run.
abbrev writing : RunRequest
writing = record wanted { allow_writes = true }

abbrev consent : Approval
consent = record {
  message_id = 40;
  run_id = 20;
  conversation_id = 2;
  client_id = 30;
  client_key_id = 31;
  runner_id = 7;
  runner_key_id = 71;
  payload = "signature";
}

abbrev guarded : List (ℕ × Call)
guarded =
    (100, Call.e2ee_create 5 writing)
    ∷ (101, Call.e2ee_claim 7 71 69 none)
    ∷ (102, Call.e2ee_approve 5 consent)
    ∷ (103, Call.e2ee_claim 7 71 70 none)
    ∷ []

guarded_run : List (Bool × Option ℕ)
unfolding exec_all create_e2ee_run submit_e2ee_approval claim_next_e2ee_run
guarded_run =
    map (λ (r : Run). (is_some r.approval_envelope, r.claim_lease_id))
      (exec_all 2 2 guarded empty_store).runs

exec_all-approved_example : AllApproved (exec_all 2 2 guarded empty_store).runs
exec_all-approved_example =
    exec_all-approved 2 2 (ground arith) guarded empty_store (tt, (tt, (tt, (tt, tt)))) empty-Sound
      tt

-- Two runs of one runner, in two conversations.
abbrev second_wanted : RunRequest
second_wanted = record wanted { run_id = 21; message_id = 21; conversation_id = 3 }

abbrev requests : List (ℕ × Call)
requests = (100, Call.e2ee_create 5 wanted) ∷ (101, Call.e2ee_create 5 second_wanted) ∷ []

abbrev requested : Store
requested = exec_all 2 2 requests empty_store

-- The second claim has waited for the lock of the first, and reads the table from before it.
abbrev racing : List (ℕ × Call)
racing =
    (105, Call.e2ee_claim 7 71 70 none)
    ∷ (106, Call.e2ee_claim 7 71 72 (some requested))
    ∷ (107, Call.e2ee_progress 7 70 (progress_at 1))
    ∷ []

abbrev one_after_another : List (ℕ × Call)
one_after_another = (105, Call.e2ee_claim 7 71 70 none) ∷ (106, Call.e2ee_claim 7 71 72 none) ∷ []

racing_runs : working_on 7 (exec_all 2 2 racing requested).runs ≡ 2
unfolding exec_all create_e2ee_run claim_next_e2ee_run update_e2ee_progress count_where
racing_runs = refl

ordered_runs : working_on 7 (exec_all 2 2 one_after_another requested).runs ≡ 1
unfolding exec_all create_e2ee_run claim_next_e2ee_run count_where
ordered_runs = refl

requested-Sound : Sound 2 2 requested
unfolding exec_all create_e2ee_run new_e2ee_run count_where stale_claims
requested-Sound = exec_all-Sound 2 2 (ground arith) requests empty_store (tt, (tt, tt)) empty-Sound

exec_all-Sound_example : Sound (2 + stale_claims racing) 2 (exec_all 2 2 racing requested)
exec_all-Sound_example =
    exec_all-Sound 2 2 (ground arith) racing requested (tt, (tt, (tt, tt))) requested-Sound

idle_runners : working_on 7 requested.runs ≤ 1
unfolding exec_all create_e2ee_run new_e2ee_run count_where busy_runner
idle_runners = ground arith

exec_all-exclusive_example :
    working_on 7 (exec_all 2 2 racing requested).runs ≤ 1 + stale_claims_of 7 racing
exec_all-exclusive_example =
    exec_all-exclusive 2 2 (ground arith) 7 racing requested (tt, (tt, (tt, tt))) requested-Sound
      idle_runners

-- The second request can be claimed; the first one, which was made before it, is.
abbrev next_claim : ClaimE2ee
next_claim = record {
  runner_id = 7;
  runner_key_id = 71;
  max_attempts = 2;
  max_jobs = 2;
  lease = 70;
}

claim_next_e2ee_run-serves_example :
    (c : Run) × Memᴰ c requested.runs
    × IsFor next_claim c
    × (created_before (new_e2ee_run 101 5 second_wanted) c ≡ false)
    × ((claim_next_e2ee_run 105 next_claim requested requested).1
        ≡ some (mark_e2ee_claimed 105 7 70 c))
    × Memᴰ
        (mark_e2ee_claimed 105 7 70 c)
        (claim_next_e2ee_run 105 next_claim requested requested).0.runs
unfolding exec_all create_e2ee_run e2ee_claimable
claim_next_e2ee_run-serves_example =
    claim_next_e2ee_run-serves 105 next_claim requested requested (new_e2ee_run 101 5 second_wanted)
      (Memᴰ.tail (Memᴰ.head refl)) refl
