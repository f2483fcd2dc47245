-- ===== src/Access/Calm.antt =====
-- The wait returns once the gateway answers.
use cursor_gateway.Base.{
  ℕ, zero, suc, ◌+◌, ◌≤◌, Bool, true, false, not, ◌&&◌, some, ◌≡◌, refl, ltb, leb, inl, inr, arith,
}
use cursor_gateway.Access.{
  Options, Pass, World, WaitOutcome, WaitProgress, after_success, deadline, wait_loop,
}
use cursor_gateway.Access.Stable.{Probe-cases, succeeds}

module _ {ℓ} {A : Type ℓ} (o : Options) (delay : (transient_failures : ℕ) → (waiting : Bool) → ℕ)
    (w : World A) where
  -- The probe of a pass answers, in time, and the signal does not fire.
  abbrev pub is_calm : Pass A → Bool
  is_calm now =
      succeeds now.probe && ltb now.clock (deadline o delay w) && not now.aborted && now.slept

  -- The `n` passes from `at` on.
  abbrev pub calm : (n at : ℕ) → Bool
  calm zero at = true
  calm (suc n) at = is_calm (w.pass at) && calm n (suc at)

  -- Wherever the loop is, when as many probes as are still required answer one after the other, in
  -- time, without an abort and within the largest number of attempts, it returns a value, given
  -- fuel for these passes.
  pub wait_loop-returns :
      (n fuel : ℕ) (p : WaitProgress A)
      → p.consecutive_successes + suc n ≡ o.required_successes
      → calm (suc n) p.attempts ≡ true
      → p.attempts + suc n ≤ o.max_attempts
      → suc n ≤ fuel
      → (v : A) × (wait_loop o delay w fuel p ≡ some (WaitOutcome.returned v))
  unfolding wait_loop after_success
  wait_loop-returns n zero p due answers few enough = absurd (omega (arith, enough))
  wait_loop-returns n (suc fuel) p due answers few enough =
      let now = w.pass p.attempts in
      let timely : ltb now.clock (deadline o delay w) ≡ true = ground (arith, answers) in
      let early : ltb p.attempts o.max_attempts ≡ true = ground (arith, few) in
      let free : now.aborted ≡ false = ground (arith, answers) in
      let slept : now.slept ≡ true = ground (arith, answers) in
      let good : succeeds now.probe ≡ true = ground (arith, answers) in
      elim (Probe-cases now.probe) [
        | inr (f, e) ↦ absurd (cc (rw e at good))
        | inl (v, e) ↦
            elim n
                as (λ (k : ℕ).
                  p.consecutive_successes + suc k ≡ o.required_successes
                  → calm k (suc p.attempts) ≡ true
                  → p.attempts + suc k ≤ o.max_attempts
                  → suc k ≤ suc fuel
                  → (u : A) × (wait_loop o delay w (suc fuel) p ≡ some (WaitOutcome.returned u))) [
                    | zero ↦ λ due answers few enough.
                        let last : leb o.required_successes (suc p.consecutive_successes) ≡ true =
                          ground (arith, due) in
                        (v, rw (e, wait_loop, early, timely, free, last) refl)
                    | suc m ↦ λ due answers few enough.
                        let more : leb o.required_successes (suc p.consecutive_successes) ≡ false =
                          ground (arith, due) in
                        rw (e, wait_loop, early, timely, free, more, slept)
                          (wait_loop-returns m fuel (after_success p v) (omega (arith, due)) answers
                            (omega (arith, few)) (omega (arith, enough)))
                  ]
              due (ground (arith, answers)) few enough
      ]
