-- ===== src/Run/Queue/Order.antt =====
-- The order in which plaintext runs are claimed.
use mathlib.Core.List.{Memᴰ}
use cursor_gateway.Base.{ℕ, ◌<◌, leb, Option-cases, inl, inr, some, true, false, ◌≡◌, arith}
use cursor_gateway.Run.{Run, Store}
use cursor_gateway.Table.{count_where, earliest_where}
use cursor_gateway.Table.Laws.{earliest_where-mem}
use cursor_gateway.Table.Order.{earliest_where-ne-none, earliest_where-least}
use cursor_gateway.Run.Queue.{
  occupies_slot, mark_claimed, RunExecutor, claimable, claim_next_run, queued_before,
}

pub queued_before-asym : (a b : Run) → queued_before a b ≡ true → queued_before b a ≡ false
unfolding queued_before
queued_before-asym a b h = ground arith

pub queued_before-chain :
    (a b c : Run)
    → queued_before a b ≡ false
    → queued_before b c ≡ false
    → queued_before a c ≡ false
unfolding queued_before
queued_before-chain a b c h k = ground arith

-- `claimNextRun` never claims out of order: no claimable run was queued before the one that it
-- claims, nor queued with it and created before it. It claims that run for the caller under the
-- fresh lease, and it claims some run whenever the budget has room and a run is claimable.
pub claim_next_run-first :
    (now : ℕ) (x : RunExecutor) (runner_id lease max_jobs : ℕ) (s : Store) (q : Run)
    → count_where occupies_slot s.runs < max_jobs
    → Memᴰ q s.runs
    → claimable x s.conversations q ≡ true
    → (c : Run) × ((claim_next_run now x runner_id lease max_jobs s).1
        ≡ some (mark_claimed now runner_id lease c, lease))
      × Memᴰ c s.runs
      × (claimable x s.conversations c ≡ true)
      × (queued_before q c ≡ false)
unfolding claim_next_run
claim_next_run-first now x runner_id lease max_jobs s q room m h =
    let fits = claimable x s.conversations in
    let open_budget : leb max_jobs (count_where occupies_slot s.runs) ≡ false = ground arith in
    elim (Option-cases (earliest_where fits queued_before s.runs)) [
      | inl idle ↦ absurd (earliest_where-ne-none fits queued_before s.runs m h idle)
      | inr (c, found) ↦
          let (mem, fit) = earliest_where-mem fits queued_before s.runs found in
          (
            c,
            rw (open_budget, found),
            mem,
            fit,
            earliest_where-least fits queued_before queued_before-asym queued_before-chain s.runs
                found m h,
          )
    ]
