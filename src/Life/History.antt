-- ===== src/Life/History.antt =====
-- Tables of which the second has every row of the first, moved by one step of its diagram at most;
-- and what the claims do to the rows.
use mathlib.Core.List.{Memᴰ}
use cursor_gateway.Base.{
  ℕ, Bool, true, false, some, List, ◌≡◌, refl, arith, inl, inr, Bool-cases, Option-cases, ◌==◌,
  ==_iff, if◌then◌else◌, leb,
}
use cursor_gateway.Table.{update_where, update_key, earliest_where, count_where, insert_row}
use cursor_gateway.Table.Laws.{
  update_where-mem, update_where-mem_changed, update_where-mem_at, insert_row-mem,
  earliest_where-mem,
}
use cursor_gateway.Table.Keys.{Unique, Unique-at}
use cursor_gateway.Run.{Conversation, Run, Store, is_queued}
use cursor_gateway.Run.Queue
use cursor_gateway.Run.Queue.{occupies_slot}
use cursor_gateway.E2ee.Work
use cursor_gateway.E2ee.Work.{ClaimE2ee, seen_too}
use cursor_gateway.Life.Moves
use cursor_gateway.Life.Moves.{Follows, Follows-refl, Settled}

abbrev pub run_id : Run → ℕ
run_id r = r.id

-- Every row of the first table is in the second, moved by one step at most.
abbrev pub Kept : List Run → List Run → Type 0
Kept t u = (r : Run) → Memᴰ r t → (q : Run) × Memᴰ q u × Follows r q

pub Kept-refl : (t : List Run) → Kept t t
Kept-refl t r m = (r, m, Follows-refl r)

pub update_where-Kept :
    (test : Run → Bool) (change : Run → Run) (t : List Run)
    → ((r : Run) → Memᴰ r t → test r ≡ true → Follows r (change r))
    → Kept t (update_where test change t)
update_where-Kept test change t step r m = (
  if test r then change r else r,
  update_where-mem_at test change t m,
  elim (Bool-cases (test r)) [ inl e ↦ rw e (step r m e) | inr e ↦ rw e (Follows-refl r) ],
)

pub insert_row-Kept : (r : Run) (t u : List Run) → insert_row run_id r t ≡ some u → Kept t u
insert_row-Kept r t u e q m = (q, insert_row-mem run_id r t u e m, Follows-refl q)

-- A row of the table that is claimed by its key.
update_key-Kept :
    (t : List Run) (u : Unique run_id t) (c : Run) (change : Run → Run)
    → Memᴰ c t
    → Follows c (change c)
    → Kept t (update_key run_id c.id change t)
unfolding update_key
update_key-Kept t u c change mem step =
    update_where-Kept (λ r. run_id r == c.id) change t
      (λ r m e.
        let same : r ≡ c = Unique-at run_id t u r c m mem ((==_iff _ _).0 e) in rw same step)

-- Two updates of which no row passes both.
pub update_twice-Kept :
    (f g : Run → Bool) (a b : Run → Run) (t : List Run)
    → ((r : Run) → f r ≡ true → Follows r (a r) × (g (a r) ≡ false))
    → ((r : Run) → g r ≡ true → Follows r (b r))
    → Kept t (update_where g b (update_where f a t))
update_twice-Kept f g a b t first second r m = elim (Bool-cases (f r)) [
  | inl e ↦
      let (step, off) = first r e in
      (a r, update_where-mem g b _ (update_where-mem_changed f a t m e) off, step)
  | inr e ↦
      let there = update_where-mem f a t m e in
      let (q, mem, step) = update_where-Kept g b _ (λ p n. second p) r there in (q, mem, step)
]

expire_leases-Kept : (now m : ℕ) (seen t : List Run) → Kept t (Work.expire_leases now m seen t)
unfolding Work.expire_leases Work.expired_failing Work.expired_retriable Work.mark_e2ee_failed
expire_leases-Kept now m seen t =
    update_twice-Kept (seen_too seen (Work.expired_failing now m))
      (seen_too seen (Work.expired_retriable now m)) (Work.mark_e2ee_failed now)
      (Work.mark_e2ee_requeued now) t
      (λ r e. (Moves.e2ee_failed-Follows r now (ground arith), ground arith))
      (λ r e. Moves.e2ee_requeued-Follows r now (ground arith))

pub expire_leases_keep :
    (now m : ℕ) (seen t : List Run) {r : Run}
    → Memᴰ r t
    → is_queued r.status ≡ true
    → Memᴰ r (Work.expire_leases now m seen t)
unfolding Work.expire_leases Work.expired_failing Work.expired_retriable
expire_leases_keep now m seen t {r} mem queued =
    update_where-mem (seen_too seen (Work.expired_retriable now m)) (Work.mark_e2ee_requeued now) _
      (update_where-mem (seen_too seen (Work.expired_failing now m)) (Work.mark_e2ee_failed now) t
        mem (ground arith))
      (ground arith)

pub claimable_queued :
    (x : Queue.RunExecutor) (conversations : List Conversation) (r : Run)
    → Queue.claimable x conversations r ≡ true
    → is_queued r.status ≡ true
unfolding Queue.claimable
claimable_queued x conversations r h = ground arith

pub e2ee_claimable_queued :
    (runner_id key max_jobs : ℕ) (seen s : Store) (r : Run)
    → Work.e2ee_claimable runner_id key max_jobs seen s r ≡ true
    → is_queued r.status ≡ true
unfolding Work.e2ee_claimable Work.e2ee_fits
e2ee_claimable_queued runner_id key max_jobs seen s r h = ground arith

module _ (now : ℕ) (s : Store) (u : Unique run_id s.runs) where
  pub claim_next_run-Kept :
      (x : Queue.RunExecutor) (runner_id lease max_jobs : ℕ)
      → Kept s.runs (Queue.claim_next_run now x runner_id lease max_jobs s).0.runs
  unfolding Queue.claim_next_run
  claim_next_run-Kept x runner_id lease max_jobs =
      elim (Bool-cases (leb max_jobs (count_where occupies_slot s.runs))) [
        | inl full ↦ rw full (Kept-refl s.runs)
        | inr free ↦
            elim (Option-cases
              (earliest_where (Queue.claimable x s.conversations) Queue.queued_before s.runs)) [
                | inl idle ↦ rw (free, idle) (Kept-refl s.runs)
                | inr (c, found) ↦
                    let (mem, fit) =
                      earliest_where-mem (Queue.claimable x s.conversations) Queue.queued_before
                        s.runs found in
                    rw (free, found)
                      (update_key-Kept s.runs u c (Queue.mark_claimed now runner_id lease) mem (
                        Moves.claimed-Follows c now runner_id lease
                          (claimable_queued x s.conversations c fit)))
              ]
      ]

  e2ee_claimed-Kept :
      (m runner_id lease : ℕ) (seen : List Run) (c : Run)
      → Memᴰ c s.runs
      → is_queued c.status ≡ true
      → Memᴰ c (Work.expire_leases now m seen s.runs)
      → Kept s.runs (
          update_key run_id c.id
            (Work.mark_e2ee_claimed now runner_id lease)
            (Work.expire_leases now m seen s.runs))
  unfolding update_key
  e2ee_claimed-Kept m runner_id lease seen c mem queued there r at =
      elim (Bool-cases (r.id == c.id)) [
        | inl e ↦
            let same : r ≡ c = Unique-at run_id s.runs u r c at mem ((==_iff _ _).0 e) in
            rw same (
              Work.mark_e2ee_claimed now runner_id lease c,
              update_where-mem_changed (λ q. run_id q == c.id) _ _ there ((==_iff _ _).1 refl),
              Moves.e2ee_claimed-Follows c now runner_id lease queued,
            )
        | inr e ↦
            let (q, left, step) = expire_leases-Kept now m seen s.runs r at in
            (
              q,
              update_where-mem (λ p. run_id p == c.id) _ _ left (ground (arith, step.same_id)),
              step,
            )
      ]

  pub claim_next_e2ee_run-Kept :
      (i : ClaimE2ee) (seen : Store) → Kept s.runs (Work.claim_next_e2ee_run now i seen s).0.runs
  unfolding Work.claim_next_e2ee_run
  claim_next_e2ee_run-Kept i seen =
      let fits = Work.e2ee_claimable i.runner_id i.runner_key_id i.max_jobs seen s in
      elim (Option-cases (earliest_where fits Work.created_before s.runs)) [
        | inl idle ↦
            rw (idle, Work.claim_next_e2ee_run)
              (expire_leases-Kept now i.max_attempts seen.runs s.runs)
        | inr (c, found) ↦
            let (mem, fit) = earliest_where-mem fits Work.created_before s.runs found in
            let queued =
              e2ee_claimable_queued i.runner_id i.runner_key_id i.max_jobs seen s c fit in
            rw (found, Work.claim_next_e2ee_run)
              (e2ee_claimed-Kept i.max_attempts i.runner_id i.lease seen.runs c mem queued
                (expire_leases_keep now i.max_attempts seen.runs s.runs mem queued))
      ]
