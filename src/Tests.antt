-- ===== src/Tests.antt =====
-- Runs of the model at concrete inputs: a deployment with two slots and two attempts, a csapi user,
-- one conversation, and what the repositories do to its first runs.
mod Encrypted
mod Clients
mod Facade
mod Access
mod Pairing
mod Relay
mod Waiters
use mathlib.Core.List.{Memᴰ}
use cursor_gateway.Base.{
  any, ◌≢◌, ◌+◌, is_some, ◌<◌, ◌≤◌, if◌then◌else◌, All, map, ℕ, true, false, none, some, List, [],
  ◌∷◌, ◌≡◌, refl, arith,
}
use cursor_gateway.Run.{
  is_running, Run, RunStatus, ContentMode, Conversation, AppUser, Store, Ending, CancelReason,
}
use cursor_gateway.Run.Queue.{
  create_run, queued_before, claim_next_run, claimable, occupies_slot, CreateRun, RunExecutor,
  new_run, mark_claimed,
}
use cursor_gateway.Run.Lease.{
  update_run_progress, leased, finish_run, mark_progress, mark_finished, FinishRun,
}
use cursor_gateway.Run.Deadline.{
  sweep_reason, cancellable, sweepable, evaluate_run_timeout, RunTimeouts,
}
use cursor_gateway.Life.Statements.{Sound}
use cursor_gateway.Life.Moves.{Follows}
use cursor_gateway.Life.Outcomes.{exec-Follows}
use cursor_gateway.Life.Events.{
  Event, run_events, is_scrub, IsAdmittedEvent, Outcome, run_events-Outcome,
}
use cursor_gateway.Run.Queue.Order.{claim_next_run-first}
use cursor_gateway.Run.Lease.Fence.{finish_run-fenced, finish_run-replay}
use cursor_gateway.Run.Deadline.Agreement.{
  csapi_run, sweepable-evaluate, cancellable-decided, cancellable-undecided,
}
use cursor_gateway.Table.{count_where}
use cursor_gateway.Life.Trace.{IsAdmitted, exec, Call, exec_all, exec_all-Sound, stale_claims}
use cursor_gateway.Run.Queue.{recover_stale_runs}
use cursor_gateway.Run.Deadline.{cancel_run, expire_csapi_runs}
use cursor_gateway.Run.Trash.{restore_run, soft_delete_run}

abbrev conversation : Conversation
conversation = record {
  id = 1;
  user_id = 5;
  workspace_id = "main";
  content_mode = ContentMode.plaintext;
  target_runner_id = none;
  runner_key_id = none;
  encrypted_title = none;
  deleted_at = none;
  updated_at = 0;
}

abbrev csapi_user : AppUser
csapi_user = record { id = 5; service_name = some "csapi" }

abbrev pub empty_store : Store
empty_store = record {
  runs = [];
  conversations = conversation ∷ [];
  users = csapi_user ∷ [];
  telegram_sessions = [];
  notices = [];
}

abbrev order : ℕ → CreateRun
order id = record {
  id = id;
  conversation_id = 1;
  user_id = 5;
  status = RunStatus.queued;
  model = "gpt-5";
  workspace_id = "main";
  prompt = "hello";
  allow_writes = false;
  memory_enabled = true;
  csapi_key_id = none;
  idempotency_key = some id;
}

abbrev report : FinishRun
report = record {
  run_id = 10;
  runner_id = 7;
  lease_id = 70;
  status = Ending.ended_finished;
  response = some "done";
  error = none;
  input_tokens = some 3;
  output_tokens = some 4;
}

abbrev limits : RunTimeouts
limits = record { queue_timeout_ms = 30; idle_timeout_ms = 120; absolute_timeout_ms = 1000 }

-- Two runs are made; the first is claimed, reports progress and is finished.
abbrev history : List (ℕ × Call)
history =
    (100, Call.create (order 10))
    ∷ (101, Call.create (order 11))
    ∷ (105, Call.claim RunExecutor.windows 7 70)
    ∷ (106, Call.progress 10 7 70 "tool" "reading")
    ∷ (110, Call.finish report)
    ∷ []

abbrev orders : List (ℕ × Call)
orders = (100, Call.create (order 10)) ∷ (101, Call.create (order 11)) ∷ []

-- What is tried on the finished run afterwards.
abbrev afterwards : List Event
afterwards =
    Event.call 200 (Call.cancel 10 5 CancelReason.caller_cancelled none)
    ∷ Event.call 201 (Call.expire limits)
    ∷ Event.call 202 (Call.delete_run 10 5)
    ∷ Event.call 203 (Call.restore_a_run 10 5)
    ∷ Event.call 204 (Call.cancel 11 5 CancelReason.caller_cancelled none)
    ∷ Event.migrate
    ∷ Event.scrub 250 5 (1 ∷ [])
    ∷ Event.call 300 (Call.recover RunExecutor.windows 50)
    ∷ []

room : count_where occupies_slot empty_store.runs ≤ 2
unfolding count_where
room = ground arith

pub empty-Sound : Sound 2 2 empty_store
empty-Sound = record { unique = tt; rows = tt; budget = room }

-- The claim of the first run.
abbrev queued_run : Run
queued_run = new_run 100 (order 10)

abbrev pub running_run : Run
running_run = mark_claimed 105 7 70 queued_run

abbrev busy_store : Store
busy_store = record empty_store { runs = running_run ∷ [] }

abbrev queue_store : Store
queue_store = exec_all 2 2 orders empty_store

abbrev done_store : Store
done_store = exec_all 2 2 history empty_store

history-IsAdmitted : All (λ c. IsAdmitted c.1) history
history-IsAdmitted = (refl, (refl, (tt, (tt, (tt, tt)))))

afterwards-IsAdmitted : All IsAdmittedEvent afterwards
afterwards-IsAdmitted = (tt, (tt, (tt, (tt, (tt, (tt, (tt, (tt, tt))))))))

-- The store after the two orders.
queue-Sound : Sound 2 2 (exec_all 2 2 orders empty_store)
unfolding stale_claims
queue-Sound = exec_all-Sound 2 2 (ground arith) orders empty_store (refl, (refl, tt)) empty-Sound

history_status : List RunStatus
unfolding exec_all
history_status = map (λ (r : Run). r.status) done_store.runs

exec-Follows_example :
    (q : Run) × Memᴰ q (exec 2 2 105 (Call.claim RunExecutor.windows 7 70) queue_store).runs
    × Follows queued_run q
unfolding exec_all create_run
exec-Follows_example =
    exec-Follows 2 2 2 105 queue_store queue-Sound (Call.claim RunExecutor.windows 7 70) queued_run
      (Memᴰ.head refl)

done_run : Run
done_run = mark_finished 110 report (mark_progress 106 "tool" "reading" running_run)

run_events-Outcome_example :
    (q : Run) × Memᴰ q (run_events 2 2 afterwards done_store).runs
    × Outcome (any is_scrub afterwards) done_run q
unfolding exec_all finish_run update_run_progress claim_next_run create_run done_run stale_claims
run_events-Outcome_example =
    run_events-Outcome 2 2 (ground arith) afterwards done_store done_run afterwards-IsAdmitted
      (exec_all-Sound 2 2 (ground arith) history empty_store history-IsAdmitted empty-Sound)
      (Memᴰ.head refl) refl

-- The scrubbing has wiped the answer.
wiped_answer :
    map (λ (r : Run). r.response) (run_events 2 2 afterwards done_store).runs ≡ none ∷ none ∷ []
unfolding run_events exec_all finish_run update_run_progress claim_next_run create_run
    recover_stale_runs cancel_run restore_run soft_delete_run expire_csapi_runs
wiped_answer = refl

queue_room : count_where occupies_slot queue_store.runs < 2
unfolding exec_all count_where create_run new_run occupies_slot
queue_room = ground arith

claim_next_run-first_example :
    (c : Run) × ((claim_next_run 105 RunExecutor.windows 7 70 2 queue_store).1
      ≡ some (mark_claimed 105 7 70 c, 70))
    × Memᴰ c queue_store.runs
    × (claimable RunExecutor.windows queue_store.conversations c ≡ true)
    × (queued_before queued_run c ≡ false)
unfolding exec_all claimable create_run
claim_next_run-first_example =
    claim_next_run-first 105 RunExecutor.windows 7 70 2 queue_store queued_run queue_room
      (Memᴰ.head refl) refl

-- A runner with an older lease.
abbrev late_report : FinishRun
late_report = record report { lease_id = 60 }

finish_run-fenced_example : finish_run 120 late_report busy_store ≡ (busy_store, none)
unfolding mark_claimed new_run
finish_run-fenced_example =
    finish_run-fenced busy_store (tt, tt) running_run (Memᴰ.head refl) 120 late_report refl refl

finish_run-replay_example :
    ((finish_run 110 report busy_store).1 ≡ some (mark_finished 110 report running_run))
    × (finish_run 130 report (finish_run 110 report busy_store).0
        ≡ ((finish_run 110 report busy_store).0, some (mark_finished 110 report running_run)))
unfolding leased mark_claimed new_run
finish_run-replay_example =
    finish_run-replay busy_store (tt, tt) running_run (Memᴰ.head refl) 110 130 report refl

running_run-started : is_running running_run.status ≡ true → is_some running_run.started_at ≡ true
unfolding mark_claimed new_run
running_run-started h = refl

-- The running run is idle at 300, and is not yet idle at 200.
sweepable-evaluate_example :
    (if sweepable 300 limits (csapi_user ∷ []) running_run
      then some (sweep_reason 300 limits running_run)
      else none)
    ≡ (if csapi_run (csapi_user ∷ []) running_run
        then evaluate_run_timeout 300 limits running_run
        else none)
sweepable-evaluate_example =
    sweepable-evaluate 300 limits running_run running_run-started (csapi_user ∷ [])

cancellable-decided_example : cancellable 300 10 5 CancelReason.idle_timeout 120 running_run ≡ true
unfolding evaluate_run_timeout mark_claimed new_run
cancellable-decided_example =
    cancellable-decided 300 limits running_run running_run-started CancelReason.idle_timeout 120
      refl refl refl

cancellable-undecided_example :
    cancellable 200 10 5 CancelReason.idle_timeout 120 running_run ≡ false
unfolding evaluate_run_timeout mark_claimed new_run
cancellable-undecided_example =
    cancellable-undecided 200 limits running_run running_run-started CancelReason.idle_timeout 120
      refl refl
