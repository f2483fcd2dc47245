-- ===== src/Life/Events.antt =====
-- The calls of both repositories together with what else writes the rows of `runs`: the scrubbing of
-- a user's old content and the updates of each start of the server. A run that is over keeps its
-- outcome through all of them.
use mathlib.Core.List.{Memᴰ}
use cursor_gateway.Base.{
  ℕ, ◌+◌, ◌≤◌, ◌<◌, Bool, true, false, ◌||◌, none, List, [], ◌∷◌, ◌≡◌, refl, ◌∙◌, ◌⊎◌, arith, inl,
  inr, All, any, or_else, Bool-cases, if◌then◌else◌, Result, ok, err,
}
use cursor_gateway.Table.{update_where, rows_where}
use cursor_gateway.Table.Laws.{update_where-mem_at, none_selected}
use cursor_gateway.Run.{Run, Store, is_active, is_terminal}
use cursor_gateway.Run.Queue.{occupies_slot}
use cursor_gateway.Run.Migrate.{
  migrate_runs, without_activity, without_reason, without_finish, mark_activity,
  mark_caller_cancelled, mark_finish,
}
use cursor_gateway.E2ee.Scrub.{ScrubError, Scrubbed, scrub_legacy_data, legacy_run, mark_scrubbed}
use cursor_gateway.Life.{RowOk}
use cursor_gateway.Life.Rows.{SafeAt}
use cursor_gateway.Life.Tables.{update_where-IsSound, update_where-IsSound_at}
use cursor_gateway.Life.Moves.{Settled}
use cursor_gateway.Life.Statements.{Sound}
use cursor_gateway.Life.Trace.{Call, exec, is_stale, IsAdmitted, exec-Sound_slack}
use cursor_gateway.Life.Outcomes.{exec-Follows}
use cursor_gateway.Life.Encrypted.{wider}

pub data Event : Type 0 where
  call : (now : ℕ) → Call → Event
  scrub : (now user_id : ℕ) → (conversation_ids : List ℕ) → Event
  migrate : Event

-- A scrubbing that is refused is rolled back.
abbrev scrub_committed : Store → Result ScrubError (Store × Scrubbed) → Store
scrub_committed s (err e) = s
scrub_committed s (ok (after, counts)) = after

unfoldable pub run_event : (max_jobs max_attempts : ℕ) → Event → Store → Store
unfolding scrub_legacy_data migrate_runs
run_event n m (call now c) s = exec n m now c s
run_event n m (scrub now user_id conversation_ids) s =
    scrub_committed s (scrub_legacy_data now user_id conversation_ids s)
run_event n m migrate s = migrate_runs s

unfoldable pub run_events : (max_jobs max_attempts : ℕ) → List Event → Store → Store
unfolding run_event
run_events n m [] s = s
run_events n m (e ∷ es) s = run_events n m es (run_event n m e s)

abbrev pub is_scrub : Event → Bool
is_scrub (scrub now user_id conversation_ids) = true
is_scrub _ = false

abbrev pub IsAdmittedEvent : Event → Type 0
IsAdmittedEvent (call now c) = IsAdmitted c
IsAdmittedEvent _ = Unit

-- The answer of a run: what its owner reads of a plaintext one.
abbrev pub SameAnswer : Run → Run → Type 0
SameAnswer r q =
    (q.response ≡ r.response)
    × (q.error ≡ r.error)
    × (q.input_tokens ≡ r.input_tokens)
    × (q.output_tokens ≡ r.output_tokens)

abbrev pub NoAnswer : Run → Type 0
NoAnswer q =
    (q.response ≡ none) × (q.error ≡ none) × (q.input_tokens ≡ none) × (q.output_tokens ≡ none)

-- A run that is over, and the same run later. A cancel reason and a finishing time that were set are
-- the same; the answer is the same too, or wiped, which takes a scrubbing.
pub record Outcome (scrubbed : Bool) (r q : Run) : Type 0 where
  pub same_id : q.id ≡ r.id
  pub same_status : q.status ≡ r.status
  pub same_envelope : q.result_envelope ≡ r.result_envelope
  pub kept_reason : or_else r.cancel_reason q.cancel_reason ≡ q.cancel_reason
  pub kept_finish : or_else r.finished_at q.finished_at ≡ q.finished_at
  pub answer : SameAnswer r q ⊎ ((scrubbed ≡ true) × NoAnswer q)

Outcome-settled : (b : Bool) (r q : Run) → q.id ≡ r.id → Settled r q → Outcome b r q
Outcome-settled b r q same h = record {
  same_id = same;
  same_status = h.0;
  same_envelope = ground arith;
  kept_reason = ground arith;
  kept_finish = ground arith;
  answer = inl (ground arith);
}

Outcome-refl : (b : Bool) (r : Run) → Outcome b r r
Outcome-refl b r = Outcome-settled b r r refl (refl, refl, refl, refl, refl, refl, refl, refl)

answer_trans :
    (a b : Bool) (p q r : Run)
    → SameAnswer p q ⊎ ((a ≡ true) × NoAnswer q)
    → SameAnswer q r ⊎ ((b ≡ true) × NoAnswer r)
    → SameAnswer p r ⊎ (((a || b) ≡ true) × NoAnswer r)
answer_trans a b p q r (inl x) (inl y) = inl (ground arith)
answer_trans a b p q r (inl x) (inr y) = inr (ground arith)
answer_trans a b p q r (inr x) (inl y) = inr (ground arith)
answer_trans a b p q r (inr x) (inr y) = inr (ground arith)

Outcome-trans : (a b : Bool) (p q r : Run) → Outcome a p q → Outcome b q r → Outcome (a || b) p r
Outcome-trans a b p q r x y = record {
  same_id = y.same_id ∙ x.same_id;
  same_status = y.same_status ∙ x.same_status;
  same_envelope = y.same_envelope ∙ x.same_envelope;
  kept_reason = ground (arith, x.kept_reason, y.kept_reason);
  kept_finish = ground (arith, x.kept_finish, y.kept_finish);
  answer = answer_trans a b p q r x.answer y.answer;
}

-- Every run that is over is in the second table, with its outcome.
abbrev Keeps : Bool → List Run → List Run → Type 0
Keeps b t u =
    (r : Run) → Memᴰ r t → is_terminal r.status ≡ true → (q : Run) × Memᴰ q u × Outcome b r q

Keeps-trans : (b : Bool) (t u v : List Run) → Keeps false t u → Keeps b u v → Keeps b t v
Keeps-trans b t u v f g r mem over =
    let (q, there, x) = f r mem over in
    let (p, last, y) = g q there (rw x.same_status over) in
    (p, last, Outcome-trans false b r q p x y)

update_where-Keeps :
    (b : Bool) (test : Run → Bool) (change : Run → Run) (t : List Run)
    → ((r : Run) → is_terminal r.status ≡ true → test r ≡ true → Outcome b r (change r))
    → Keeps b t (update_where test change t)
update_where-Keeps b test change t step r mem over = (
  if test r then change r else r,
  update_where-mem_at test change t mem,
  elim (Bool-cases (test r)) [ inl e ↦ rw e (step r over e) | inr e ↦ rw e (Outcome-refl b r) ],
)

migrate-Keeps : (s : Store) → Keeps false s.runs (migrate_runs s).runs
unfolding migrate_runs without_activity without_reason without_finish
migrate-Keeps s =
    let first = update_where without_activity mark_activity s.runs in
    let second = update_where without_reason mark_caller_cancelled first in
    Keeps-trans false s.runs first (update_where without_finish mark_finish second)
      (update_where-Keeps false without_activity mark_activity s.runs
        (λ r over e. Outcome-settled false r (mark_activity r) refl (ground arith)))
      (Keeps-trans false first second (update_where without_finish mark_finish second)
        (update_where-Keeps false without_reason mark_caller_cancelled first
          (λ r over e. ground arith))
        (update_where-Keeps false without_finish mark_finish second (λ r over e. ground arith)))

scrub-Keeps :
    (now user_id : ℕ) (conversation_ids : List ℕ) (s : Store)
    → Keeps true s.runs (scrub_committed s (scrub_legacy_data now user_id conversation_ids s)).runs
unfolding scrub_legacy_data mark_scrubbed
scrub-Keeps now user_id conversation_ids s r mem over =
    let old = legacy_run user_id conversation_ids in
    elim (Bool-cases (any (λ (p : Run). is_active p.status) (rows_where old s.runs))) [
      | inl busy ↦ rw busy (r, mem, Outcome-refl true r)
      | inr idle ↦ rw idle (
          update_where-Keeps true old (mark_scrubbed now) s.runs (λ p o e. ground arith) r mem over)
    ]

-- The invariant of the table through the two statements.
migrate-Sound : (b m : ℕ) (s : Store) → Sound b m s → Sound b m (migrate_runs s)
unfolding migrate_runs without_activity without_reason without_finish occupies_slot
migrate-Sound b m s h =
    update_where-IsSound b m _
      (update_where-IsSound b m _
        (update_where-IsSound b m s.runs h without_activity mark_activity (λ r. refl)
          (λ r o t. ground arith))
        without_reason mark_caller_cancelled (λ r. refl) (λ r o t. ground arith))
      without_finish mark_finish (λ r. refl) (λ r o t. ground arith)

scrubbed-SafeAt :
    (m now : ℕ) (r : Run) → RowOk m r → is_active r.status ≡ false → SafeAt m (mark_scrubbed now) r
unfolding mark_scrubbed occupies_slot
scrubbed-SafeAt m now r o idle = ground arith

scrub-Sound :
    (b m now user_id : ℕ) (conversation_ids : List ℕ) (s : Store)
    → Sound b m s
    → Sound b m (scrub_committed s (scrub_legacy_data now user_id conversation_ids s))
unfolding scrub_legacy_data mark_scrubbed
scrub-Sound b m now user_id conversation_ids s h =
    let old = legacy_run user_id conversation_ids in
    elim (Bool-cases (any (λ (p : Run). is_active p.status) (rows_where old s.runs))) [
      | inl busy ↦ rw busy h
      | inr idle ↦ rw idle (
          update_where-IsSound_at b m s.runs h old (mark_scrubbed now) (λ r. refl)
            (λ r mem o t.
              scrubbed-SafeAt m now r o
                (none_selected (λ (p : Run). is_active p.status) old s.runs idle mem t)))
    ]

-- How many slots an event may take beyond the budget.
abbrev slack : Event → ℕ
slack (call now c) = if is_stale c then 1 else 0
slack _ = 0

module _ (n m : ℕ) (room : 0 < m) where
  run_event-Sound :
      (e : Event) (b : ℕ) (s : Store)
      → n ≤ b
      → IsAdmittedEvent e
      → Sound b m s
      → Sound (slack e + b) m (run_event n m e s)
  unfolding run_event
  run_event-Sound (call now c) b s fits a h = exec-Sound_slack b n m room fits now c s a h
  run_event-Sound (scrub now user_id conversation_ids) b s fits a h =
      wider b (0 + b) m _ (omega arith) (scrub-Sound b m now user_id conversation_ids s h)
  run_event-Sound migrate b s fits a h = wider b (0 + b) m _ (omega arith) (migrate-Sound b m s h)

  run_event-Keeps :
      (e : Event) (b : ℕ) (s : Store)
      → Sound b m s
      → Keeps (is_scrub e) s.runs (run_event n m e s).runs
  unfolding run_event
  run_event-Keeps (call now c) b s h = λ r mem over.
      let (q, there, step) = exec-Follows b n m now s h c r mem in
      (q, there, Outcome-settled false r q step.same_id (step.settled over))
  run_event-Keeps (scrub now user_id conversation_ids) b s h =
      scrub-Keeps now user_id conversation_ids s
  run_event-Keeps migrate b s h = migrate-Keeps s

  run_events-Outcome_from :
      (events : List Event) (b : ℕ) (s : Store) (r : Run)
      → n ≤ b
      → All IsAdmittedEvent events
      → Sound b m s
      → Memᴰ r s.runs
      → is_terminal r.status ≡ true
      → (q : Run) × Memᴰ q (run_events n m events s).runs × Outcome (any is_scrub events) r q
  unfolding run_events
  run_events-Outcome_from [] b s r fits a h mem over = (r, mem, Outcome-refl false r)
  run_events-Outcome_from (e ∷ es) b s r fits (a, rest) h mem over =
      let (p, there, x) = run_event-Keeps e b s h r mem over in
      let (q, last, y) =
        run_events-Outcome_from es (slack e + b) (run_event n m e s) p (omega (arith, fits)) rest
          (run_event-Sound e b s fits a h) there (rw x.same_status over) in
      (q, last, Outcome-trans (is_scrub e) (any is_scrub es) r p q x y)

  -- A run that is over stays in the table under its id, with its status and its result envelope, and
  -- with the cancel reason and the finishing time once they are set, whatever calls are made, old
  -- content is scrubbed and starts of the server migrate the table, at whatever times and in
  -- whatever order. It keeps its response, its error and its token counts, unless a scrubbing is
  -- among the events, which may leave it with none of them. No late finish, progress, cancellation,
  -- sweep, recovery, deletion or restoration rewrites the outcome. The table is sound to begin with,
  -- new plaintext runs are made queued or waiting for approval, and `max_attempts` is positive.
  pub run_events-Outcome :
      (events : List Event) (s : Store) (r : Run)
      → All IsAdmittedEvent events
      → Sound n m s
      → Memᴰ r s.runs
      → is_terminal r.status ≡ true
      → (q : Run) × Memᴰ q (run_events n m events s).runs × Outcome (any is_scrub events) r q
  run_events-Outcome events s r a h mem over =
      run_events-Outcome_from events n s r (omega arith) a h mem over
