-- ===== src/Access/Stable.antt =====
-- The wait ends, and what it returns is stable.
use cursor_gateway.Base.{
  ◌≢◌, ◌⊎◌, ℕ, zero, suc, ◌+◌, ◌≤◌, ◌<◌, max, Bool, true, false, not, ◌&&◌, ◌||◌, Option, none,
  some, ◌≡◌, refl, ap, ◌∙◌, ltb, leb, inl, inr, Bool-cases, arith, is_some,
}
use cursor_gateway.Access.{
  Failure, is_cancelled, is_retryable_access_error, waits_for_login, Options, Probe, World,
  WaitOutcome, WaitProgress, new_progress, after_success, after_failure, deadline, give_up,
  wait_loop, wait_for_stable_access,
}

module _ {ℓ} {A : Type ℓ} where
  pub Probe-cases :
      (p : Probe A) → ((v : A) × (p ≡ Probe.value v)) ⊎ ((f : Failure) × (p ≡ Probe.fails f))
  Probe-cases (Probe.value v) = inl (v, refl)
  Probe-cases (Probe.fails f) = inr (f, refl)

  abbrev pub succeeds : Probe A → Bool
  succeeds (Probe.value v) = true
  succeeds (Probe.fails f) = false

  is_some-value :
      (x : Option (WaitOutcome A)) → is_some x ≡ true → (out : WaitOutcome A) × (x ≡ some out)
  is_some-value none e = absurd (cc)
  is_some-value (some out) e = (out, refl)

  -- The `n` passes before the pass `at` have succeeded.
  abbrev pub succeeded : World A → (n at : ℕ) → Bool
  succeeded w zero at = true
  succeeded w (suc n) zero = false
  succeeded w (suc n) (suc at) = succeeds ((w.pass at).probe) && succeeded w n at

  module _ (o : Options) (delay : (transient_failures : ℕ) → (waiting : Bool) → ℕ)
      (w : World A) where
    abbrev going_on : WaitProgress A → Bool
    going_on p = ltb p.attempts o.max_attempts && ltb (w.pass p.attempts).clock (deadline o delay w)

    loop-ends :
        (fuel : ℕ) (p : WaitProgress A)
        → p.attempts ≤ o.max_attempts
        → o.max_attempts < fuel + p.attempts
        → is_some (wait_loop o delay w fuel p) ≡ true
    unfolding wait_loop after_success after_failure
    loop-ends zero p few enough = absurd (omega (arith, few, enough))
    loop-ends (suc fuel) p few enough = elim (Bool-cases (going_on p)) [
      | inr over ↦ elim (Probe-cases ((w.pass p.attempts).probe)) [
        | inl (v, e) ↦ rw (e, wait_loop, over) refl
        | inr (f, e) ↦ rw (e, wait_loop, over) refl
      ]
      | inl going ↦
          let fewer : suc p.attempts ≤ o.max_attempts = ground (arith, going) in
          elim (Probe-cases ((w.pass p.attempts).probe)) [
            | inl (v, e) ↦
                let rest = loop-ends fuel (after_success p v) fewer (omega (arith, enough)) in
                rw (e, wait_loop, going) (ground (arith, rest))
            | inr (f, e) ↦
                let rest = loop-ends fuel (after_failure p f) fewer (omega (arith, enough)) in
                rw (e, wait_loop, going) (ground (arith, rest))
          ]
    ]

    -- The wait ends within the largest number of attempts, whatever the probes, the clock and the
    -- signal do.
    pub wait_for_stable_access-ends :
        (out : WaitOutcome A) × (wait_for_stable_access o delay w ≡ some out)
    unfolding wait_for_stable_access
    wait_for_stable_access-ends =
        is_some-value (wait_loop o delay w (suc o.max_attempts) new_progress)
          (loop-ends (suc o.max_attempts) new_progress (omega arith) (omega arith))

    succeeded-fewer : (m n at : ℕ) → m ≤ n → succeeded w n at ≡ true → succeeded w m at ≡ true
    succeeded-fewer zero n at h s = refl
    succeeded-fewer (suc m) zero at h s = absurd (omega (arith, h))
    succeeded-fewer (suc m) (suc n) zero h s = absurd (cc)
    succeeded-fewer (suc m) (suc n) (suc at) h s =
        ground (arith, s, succeeded-fewer m n at (omega (arith, h)))

    -- A value that is returned: it is that of the last of the probes that have succeeded in a row.
    abbrev pub IsStable : A → Type ℓ
    IsStable v =
        (n : ℕ) × (suc n ≤ o.max_attempts)
        × ((w.pass n).probe ≡ Probe.value v)
        × (succeeded w (max 1 o.required_successes) (suc n) ≡ true)

    give_up-other : (p : WaitProgress A) (v : A) → give_up o delay w p ≢ WaitOutcome.returned v
    unfolding give_up
    give_up-other p v e = elim (Bool-cases w.aborted_at_end) [
      | inl ended ↦ absurd (cc (rw ended at e))
      | inr free ↦ elim (Bool-cases (is_some p.last_value && ltb 0 p.consecutive_successes)) [
        | inl unstable ↦ absurd (cc (rw (free, unstable) at e))
        | inr nothing ↦ absurd (cc (rw (free, nothing) at e))
      ]
    ]

    -- A pass that fails returns nothing.
    failing_rest :
        (fuel : ℕ) (p : WaitProgress A) (f : Failure) (v : A)
        → (w.pass p.attempts).probe ≡ Probe.fails f
        → wait_loop o delay w (suc fuel) p ≡ some (WaitOutcome.returned v)
        → wait_loop o delay w fuel (after_failure p f) ≡ some (WaitOutcome.returned v)
    unfolding wait_loop after_failure
    failing_rest fuel p f v e done =
        let now = w.pass p.attempts in
        let next = after_failure p f in
        let waiting = waits_for_login f in
        elim (Bool-cases (going_on p)) [
          | inr over ↦ absurd (give_up-other p v (cc (rw (e, wait_loop, over) at done)))
          | inl going ↦ elim (Bool-cases now.aborted) [
            | inl aborted ↦ absurd (cc (rw (e, wait_loop, going, aborted) at done))
            | inr free ↦ elim (Bool-cases (is_cancelled f || not (is_retryable_access_error f))) [
              | inl fatal ↦ absurd (cc (rw (e, wait_loop, going, free, fatal) at done))
              | inr passing ↦
                  elim (Bool-cases
                    (not waiting && ltb o.max_transient_failures next.transient_failures)) [
                      | inl exhausted ↦
                          absurd (cc (rw (e, wait_loop, going, free, passing, exhausted) at done))
                      | inr left ↦
                          elim (Bool-cases (
                            leb (deadline o delay w)
                              (now.clock_after + delay next.transient_failures waiting))) [
                                | inl late ↦ absurd (
                                    give_up-other next v (
                                      cc (
                                        rw (e, wait_loop, going, free, passing, left, late) at
                                          done)))
                                | inr timely ↦ elim (Bool-cases now.slept) [
                                  | inr woken ↦ absurd (
                                      cc (
                                        rw (e, wait_loop, going, free, passing, left, timely, woken)
                                          at done))
                                  | inl slept ↦
                                      rw (e, wait_loop, going, free, passing, left, timely, slept)
                                        at done
                                ]
                              ]
                    ]
            ]
          ]
        ]

    loop-IsStable :
        (fuel : ℕ) (p : WaitProgress A) (v : A)
        → succeeded w p.consecutive_successes p.attempts ≡ true
        → wait_loop o delay w fuel p ≡ some (WaitOutcome.returned v)
        → IsStable v
    unfolding wait_loop after_success after_failure
    loop-IsStable zero p v s done = absurd (cc)
    loop-IsStable (suc fuel) p v s done =
        let now = w.pass p.attempts in
        elim (Probe-cases now.probe) [
          | inl (u, e) ↦
              let good : succeeds now.probe ≡ true = rw e refl in
              let more : (succeeds now.probe && succeeded w p.consecutive_successes p.attempts)
                  ≡ true =
                ground (arith, good, s) in
              elim (Bool-cases (going_on p)) [
                | inr over ↦ absurd (give_up-other p v (cc (rw (e, wait_loop, over) at done)))
                | inl going ↦ elim (Bool-cases now.aborted) [
                  | inl aborted ↦ absurd (cc (rw (e, wait_loop, going, aborted) at done))
                  | inr free ↦
                      elim (Bool-cases (leb o.required_successes (suc p.consecutive_successes))) [
                        | inl enough ↦
                            let one : u ≡ v = cc (rw (e, wait_loop, going, free, enough) at done) in
                            (
                              p.attempts,
                              ground (arith, going),
                              e ∙ ap Probe.value one,
                              succeeded-fewer (max 1 o.required_successes)
                                  (suc p.consecutive_successes) (suc p.attempts)
                                  (ground (arith, enough)) more,
                            )
                        | inr few ↦ elim (Bool-cases now.slept) [
                          | inr woken ↦
                              absurd (cc (rw (e, wait_loop, going, free, few, woken) at done))
                          | inl slept ↦
                              loop-IsStable fuel (after_success p u) v more
                                (rw (e, wait_loop, going, free, few, slept) at done)
                        ]
                      ]
                ]
              ]
          | inr (f, e) ↦
              loop-IsStable fuel (after_failure p f) v refl (failing_rest fuel p f v e done)
        ]

    -- A value that is returned within the largest number of attempts is that of a probe that
    -- succeeded, and so did, right before it, as many as the options require, and at least itself.
    pub wait_for_stable_access-IsStable :
        (v : A) → wait_for_stable_access o delay w ≡ some (WaitOutcome.returned v) → IsStable v
    unfolding wait_for_stable_access
    wait_for_stable_access-IsStable v done =
        loop-IsStable (suc o.max_attempts) new_progress v refl done
