-- ===== src/E2ee/Replay.antt =====
-- What a runner of encrypted runs may send twice: a result and a progress envelope.
use mathlib.Core.List.{Memᴰ}
use cursor_gateway.Base.{
  if◌then◌else◌, ℕ, ◌≤◌, true, false, Option, none, some, ◌≡◌, refl, arith, any, ◌∙◌,
}
use cursor_gateway.Table.{first_where}
use cursor_gateway.Table.Laws.{update_where-mem_changed, update_where-none, first_where-none}
use cursor_gateway.Table.Keys.{Unique-update_where, Unique, any-at, first_where-at}
use cursor_gateway.Run.{Run, Store, RunResult, Progress}
use cursor_gateway.E2ee.{e2ee_leased}
use cursor_gateway.E2ee.Work.{
  finishes, finished_by, mark_e2ee_finished, finish_e2ee_run, progresses, mark_e2ee_progress,
  update_e2ee_progress,
}

abbrev run_id : Run → ℕ
run_id r = r.id

finish_e2ee_run_closed :
    (s : Store) (now runner_id lease : ℕ) (e : RunResult) {past : Option Run}
    → any (finishes runner_id lease e) s.runs ≡ false
    → first_where (finished_by runner_id e) s.runs ≡ past
    → finish_e2ee_run now runner_id lease e s ≡ (s, past)
unfolding finish_e2ee_run
finish_e2ee_run_closed s now runner_id lease e closed past = rw (
  update_where-none (finishes runner_id lease e) (mark_e2ee_finished now e) s.runs closed,
  first_where-none (finishes runner_id lease e) s.runs closed,
  past,
)

module _ (now runner_id lease : ℕ) (e : RunResult) (r : Run) where
  finished-past :
      finishes runner_id lease e r ≡ true
      → finished_by runner_id e (mark_e2ee_finished now e r) ≡ true
  unfolding finishes finished_by mark_e2ee_finished e2ee_leased
  finished-past h = ground arith

  finished-closed : finishes runner_id lease e (mark_e2ee_finished now e r) ≡ false
  unfolding finishes mark_e2ee_finished e2ee_leased
  finished-closed = ground arith

module _ (s : Store) (u : Unique run_id s.runs) (r : Run) (mem : Memᴰ r s.runs) where
  -- The row with the id of the result decides whether the statement and its second query reach one.
  any-finishes :
      (runner_id lease : ℕ) (e : RunResult)
      → e.run_id ≡ r.id
      → any (finishes runner_id lease e) s.runs ≡ finishes runner_id lease e r
  unfolding finishes e2ee_leased
  any-finishes runner_id lease e same =
      any-at run_id (finishes runner_id lease e) r (λ q d. ground arith) s.runs u mem

  first_where-finishes :
      (runner_id lease : ℕ) (e : RunResult)
      → finishes runner_id lease e r ≡ true
      → first_where (finishes runner_id lease e) s.runs ≡ some r
  unfolding finishes e2ee_leased
  first_where-finishes runner_id lease e h =
      rw (first_where-at run_id (finishes runner_id lease e) r (λ q d. ground arith) s.runs u mem)
        (rw h)

  first_where-finished_by :
      (runner_id : ℕ) (e : RunResult)
      → e.run_id ≡ r.id
      → first_where (finished_by runner_id e) s.runs
        ≡ (if finished_by runner_id e r then some r else none)
  unfolding finished_by
  first_where-finished_by runner_id e same =
      first_where-at run_id (finished_by runner_id e) r (λ q d. ground arith) s.runs u mem

  any-progresses :
      (runner_id lease : ℕ) (p : Progress)
      → p.run_id ≡ r.id
      → any (progresses runner_id lease p) s.runs ≡ progresses runner_id lease p r
  unfolding progresses e2ee_leased
  any-progresses runner_id lease p same =
      any-at run_id (progresses runner_id lease p) r (λ q d. ground arith) s.runs u mem

finishes-same :
    (runner_id lease : ℕ) (e : RunResult) (r : Run)
    → finishes runner_id lease e r ≡ true
    → e.run_id ≡ r.id
unfolding finishes e2ee_leased
finishes-same runner_id lease e r h = ground arith

progresses-same :
    (runner_id lease : ℕ) (p : Progress) (r : Run)
    → progresses runner_id lease p r ≡ true
    → p.run_id ≡ r.id
unfolding progresses e2ee_leased
progresses-same runner_id lease p r h = ground arith

progressed-closed :
    (now runner_id lease other : ℕ) (p q : Progress) (r : Run)
    → q.sequence ≤ p.sequence
    → progresses runner_id other q (mark_e2ee_progress now p r) ≡ false
unfolding progresses mark_e2ee_progress e2ee_leased
progressed-closed now runner_id lease other p q r h = ground arith

module _ (s : Store) (u : Unique run_id s.runs) (r : Run) (mem : Memᴰ r s.runs) where
  -- A runner whose lease holds gets its encrypted run finished; and if the answer is lost and it
  -- sends the result again, at any later time, it gets the same row and nothing changes. The run is
  -- in the table, whose ids are distinct.
  pub finish_e2ee_run-replay :
      (now later runner_id lease : ℕ) (e : RunResult)
      → finishes runner_id lease e r ≡ true
      → ((finish_e2ee_run now runner_id lease e s).1 ≡ some (mark_e2ee_finished now e r))
        × (finish_e2ee_run later runner_id lease e (finish_e2ee_run now runner_id lease e s).0
            ≡ ((finish_e2ee_run now runner_id lease e s).0, some (mark_e2ee_finished now e r)))
  unfolding finish_e2ee_run mark_e2ee_finished
  finish_e2ee_run-replay now later runner_id lease e h =
      let mine = finishes runner_id lease e in
      let q = mark_e2ee_finished now e r in
      let same = finishes-same runner_id lease e r h in
      let found = first_where-finishes s u r mem runner_id lease e h in
      let t = (finish_e2ee_run now runner_id lease e s).0 in
      let kept = Unique-update_where run_id mine (mark_e2ee_finished now e) (λ p. refl) s.runs u in
      let there = update_where-mem_changed mine (mark_e2ee_finished now e) s.runs mem h in
      let closed = any-finishes t kept q there runner_id lease e same in
      let past = first_where-finished_by t kept q there runner_id e same in
      (
        rw found,
        finish_e2ee_run_closed t later runner_id lease e
            (rw closed (finished-closed now runner_id lease e r))
            (rw past (rw (finished-past now runner_id lease e r h))),
      )

  -- Once a progress envelope is stored, the same one or an earlier one is refused, under any lease
  -- and at any time: nothing changes. The run is in the table, whose ids are distinct.
  pub update_e2ee_progress-stale :
      (now later runner_id lease other : ℕ) (p q : Progress)
      → progresses runner_id lease p r ≡ true
      → q.run_id ≡ p.run_id
      → q.sequence ≤ p.sequence
      → update_e2ee_progress later runner_id other q
          (update_e2ee_progress now runner_id lease p s).0
        ≡ ((update_e2ee_progress now runner_id lease p s).0, false)
  unfolding update_e2ee_progress mark_e2ee_progress
  update_e2ee_progress-stale now later runner_id lease other p q h same le =
      let mine = progresses runner_id lease p in
      let theirs = progresses runner_id other q in
      let t = (update_e2ee_progress now runner_id lease p s).0 in
      let kept = Unique-update_where run_id mine (mark_e2ee_progress now p) (λ x. refl) s.runs u in
      let there = update_where-mem_changed mine (mark_e2ee_progress now p) s.runs mem h in
      let closed : any theirs t.runs ≡ false =
        rw
          (any-progresses t kept (mark_e2ee_progress now p r) there runner_id other q
            (same ∙ progresses-same runner_id lease p r h))
          (progressed-closed now runner_id lease other p q r le) in
      rw (
        update_where-none theirs (mark_e2ee_progress later q) t.runs closed,
        first_where-none theirs t.runs closed,
      )
