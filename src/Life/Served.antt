-- ===== src/Life/Served.antt =====
-- Which encrypted run claimNextE2eeRun of apps/server/src/e2eeDb.ts gives a runner.
use mathlib.Core.List.{Memᴰ}
use cursor_gateway.Base.{
  ℕ, Option, none, some, true, false, ◌≡◌, refl, ap, arith, inl, inr, ◌==◌, ==_iff, same_number,
  Option-cases,
}
use cursor_gateway.Table.{earliest_where, update_key}
use cursor_gateway.Table.Laws.{earliest_where-mem, update_where-mem_changed}
use cursor_gateway.Table.Order.{earliest_where-ne-none, earliest_where-least}
use cursor_gateway.Run.{Run, Store, is_queued, is_e2ee}
use cursor_gateway.E2ee.Work.{
  ClaimE2ee, e2ee_fits, e2ee_claimable, created_before, mark_e2ee_claimed, expire_leases,
  claim_next_e2ee_run,
}
use cursor_gateway.Life.History.{expire_leases_keep}

created_before-asym : (a b : Run) → created_before a b ≡ true → created_before b a ≡ false
unfolding created_before
created_before-asym a b h = ground arith

created_before-chain :
    (a b c : Run)
    → created_before a b ≡ false
    → created_before b c ≡ false
    → created_before a c ≡ false
unfolding created_before
created_before-chain a b c h k = ground arith

same_number-some : (o : Option ℕ) (k : ℕ) → same_number o (some k) ≡ true → o ≡ some k
same_number-some none k e = absurd (cc)
same_number-some (some a) k e = ap some ((==_iff a k).0 e)

-- A run that waits for this runner and its key.
pub record IsFor (i : ClaimE2ee) (r : Run) : Type 0 where
  pub encrypted : is_e2ee r.content_mode ≡ true
  pub queued : is_queued r.status ≡ true
  pub same_runner : r.target_runner_id ≡ some i.runner_id
  pub same_key : r.runner_key_id ≡ some i.runner_key_id
  pub kept : r.deleted_at ≡ none

claimable-IsFor :
    (i : ClaimE2ee) (seen s : Store) (r : Run)
    → e2ee_claimable i.runner_id i.runner_key_id i.max_jobs seen s r ≡ true
    → IsFor i r
unfolding e2ee_claimable e2ee_fits
claimable-IsFor i seen s r h = record {
  encrypted = ground (arith, h);
  queued = ground (arith, h);
  same_runner = same_number-some r.target_runner_id i.runner_id (ground (arith, h));
  same_key = same_number-some r.runner_key_id i.runner_key_id (ground (arith, h));
  kept = ground (arith, h);
}

-- Where a run `q` can be claimed, by the snapshot and by the table, the runner is given a run that
-- waits for it and its key and was not created after `q`; and that run is in the table afterwards,
-- running under the fresh lease of the runner, whatever expired leases the same statement ends.
pub claim_next_e2ee_run-serves :
    (now : ℕ) (i : ClaimE2ee) (seen s : Store) (q : Run)
    → Memᴰ q s.runs
    → e2ee_claimable i.runner_id i.runner_key_id i.max_jobs seen s q ≡ true
    → (c : Run) × Memᴰ c s.runs
      × IsFor i c
      × (created_before q c ≡ false)
      × ((claim_next_e2ee_run now i seen s).1 ≡ some (mark_e2ee_claimed now i.runner_id i.lease c))
      × Memᴰ (mark_e2ee_claimed now i.runner_id i.lease c) (claim_next_e2ee_run now i seen s).0.runs
unfolding claim_next_e2ee_run update_key
claim_next_e2ee_run-serves now i seen s q m h =
    let fits = e2ee_claimable i.runner_id i.runner_key_id i.max_jobs seen s in
    elim (Option-cases (earliest_where fits created_before s.runs)) [
      | inl idle ↦ absurd (earliest_where-ne-none fits created_before s.runs m h idle)
      | inr (c, found) ↦
          let (mem, fit) = earliest_where-mem fits created_before s.runs found in
          let own = claimable-IsFor i seen s c fit in
          (
            c,
            mem,
            own,
            earliest_where-least fits created_before created_before-asym created_before-chain s.runs
                found m h,
            rw (found, claim_next_e2ee_run) refl,
            rw (found, claim_next_e2ee_run)
                (update_where-mem_changed (λ r. Run.id r == c.id)
                  (mark_e2ee_claimed now i.runner_id i.lease)
                  (expire_leases now i.max_attempts seen.runs s.runs)
                  (expire_leases_keep now i.max_attempts seen.runs s.runs mem own.queued)
                  ((==_iff _ _).1 refl)),
          )
    ]
