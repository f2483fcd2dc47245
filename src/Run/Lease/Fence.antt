-- ===== src/Run/Lease/Fence.antt =====
-- The lease as a fence: a runner whose lease is not the row's changes nothing, and a runner that
-- reports the same result again gets the same answer.
use mathlib.Core.List.{Memᴰ}
use text.Mathlib.TextPositions.{eq_refl}
use cursor_gateway.Base.{
  String, ◌&&◌, if◌then◌else◌, ℕ, true, false, Option, none, some, ◌≡◌, refl, arith, any,
  same_number, same_text,
}
use cursor_gateway.Table.{first_where}
use cursor_gateway.Table.Laws.{update_where-mem_changed, update_where-none, first_where-none}
use cursor_gateway.Table.Keys.{Unique-update_where, Unique, any-at, first_where-at}
use cursor_gateway.Run.{ending_status, RunStatus, Run, Store, same_status}
use cursor_gateway.Run.Lease.{FinishRun, leased, replays, mark_finished, finish_run}

abbrev run_id : Run → ℕ
run_id r = r.id

-- Where no row has the lease, the answer is the row that the same report has finished before.
finish_run_closed :
    (s : Store) (now : ℕ) (i : FinishRun) {past : Option Run}
    → any (leased i.run_id i.runner_id i.lease_id) s.runs ≡ false
    → first_where (replays i) s.runs ≡ past
    → finish_run now i s ≡ (s, past)
unfolding finish_run
finish_run_closed s now i closed past =
    let mine = leased i.run_id i.runner_id i.lease_id in
    rw (
      update_where-none mine (mark_finished now i) s.runs closed,
      first_where-none mine s.runs closed,
      past,
    )

module _ (s : Store) (u : Unique run_id s.runs) (r : Run) (mem : Memᴰ r s.runs) where
  -- The row with the reported id decides whether the statement reaches a row.
  any-leased :
      (i : FinishRun)
      → i.run_id ≡ r.id
      → any (leased i.run_id i.runner_id i.lease_id) s.runs
        ≡ leased i.run_id i.runner_id i.lease_id r
  unfolding leased
  any-leased i same =
      any-at run_id (leased i.run_id i.runner_id i.lease_id) r (λ q e. ground arith) s.runs u mem

  first_where-leased :
      (i : FinishRun)
      → leased i.run_id i.runner_id i.lease_id r ≡ true
      → first_where (leased i.run_id i.runner_id i.lease_id) s.runs ≡ some r
  unfolding leased
  first_where-leased i h =
      rw
        (first_where-at run_id (leased i.run_id i.runner_id i.lease_id) r (λ q e. ground arith)
          s.runs u mem)
        (rw h)

  first_where-replays :
      (i : FinishRun)
      → i.run_id ≡ r.id
      → first_where (replays i) s.runs ≡ (if replays i r then some r else none)
  unfolding replays
  first_where-replays i same =
      first_where-at run_id (replays i) r (λ q e. ground arith) s.runs u mem

  -- A runner that reports on a run under another lease than the row's, or in another's name, is
  -- refused: the whole store stays as it was. The run is in the table, whose ids are distinct.
  pub finish_run-fenced :
      (now : ℕ) (i : FinishRun)
      → i.run_id ≡ r.id
      → (same_number r.claimed_by (some i.runner_id)
          && same_number r.claim_lease_id (some i.lease_id))
        ≡ false
      → finish_run now i s ≡ (s, none)
  unfolding leased replays
  finish_run-fenced now i same other =
      let mine = leased i.run_id i.runner_id i.lease_id in
      let closed : any mine s.runs ≡ false = rw (any-leased i same) (ground arith) in
      let past : first_where (replays i) s.runs ≡ none =
        rw (first_where-replays i same) (ground arith) in
      finish_run_closed s now i closed past

same_text_refl : (o : Option String) → same_text o o ≡ true
same_text_refl none = refl
same_text_refl (some t) = eq_refl t

same_number_refl : (o : Option ℕ) → same_number o o ≡ true
same_number_refl none = refl
same_number_refl (some n) = ground arith

same_status_refl : (x : RunStatus) → same_status x x ≡ true
same_status_refl x = ground arith

-- What a runner reports is what it reports again.
finished-replays :
    (now : ℕ) (i : FinishRun) (r : Run)
    → leased i.run_id i.runner_id i.lease_id r ≡ true
    → replays i (mark_finished now i r) ≡ true
unfolding leased replays mark_finished
finished-replays now i r h = ground (
  arith,
  same_status_refl (ending_status i.status),
  same_text_refl i.response,
  same_text_refl i.error,
  same_number_refl i.input_tokens,
  same_number_refl i.output_tokens,
)

finished-not_leased :
    (now : ℕ) (i : FinishRun) (r : Run)
    → leased i.run_id i.runner_id i.lease_id (mark_finished now i r) ≡ false
unfolding leased mark_finished
finished-not_leased now i r = ground arith

module _ (s : Store) (u : Unique run_id s.runs) (r : Run) (mem : Memᴰ r s.runs) where
  -- A runner whose lease holds gets its run finished; and if it reports the same again, at any
  -- later time, it gets the same answer and nothing changes. The run is in the table, whose ids are
  -- distinct.
  pub finish_run-replay :
      (now later : ℕ) (i : FinishRun)
      → leased i.run_id i.runner_id i.lease_id r ≡ true
      → ((finish_run now i s).1 ≡ some (mark_finished now i r))
        × (finish_run later i (finish_run now i s).0
            ≡ ((finish_run now i s).0, some (mark_finished now i r)))
  unfolding finish_run mark_finished leased
  finish_run-replay now later i h =
      let mine = leased i.run_id i.runner_id i.lease_id in
      let q = mark_finished now i r in
      let found : first_where mine s.runs ≡ some r = first_where-leased s u r mem i h in
      let kept = Unique-update_where run_id mine (mark_finished now i) (λ p. refl) s.runs u in
      let there = update_where-mem_changed mine (mark_finished now i) s.runs mem h in
      let closed = any-leased (finish_run now i s).0 kept q there i (ground arith) in
      let past = first_where-replays (finish_run now i s).0 kept q there i (ground arith) in
      (
        rw found,
        finish_run_closed (finish_run now i s).0 later i (rw closed (finished-not_leased now i r))
            (rw past (rw (finished-replays now i r h))),
      )
