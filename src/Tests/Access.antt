-- ===== src/Tests/Access.antt =====
-- The wait for a login at concrete passes.
use cursor_gateway.Base.{ℕ, zero, suc, Bool, true, false, some, ◌≡◌, refl, arith}
use cursor_gateway.Text.{codes}
use cursor_gateway.Access.{
  Failure, Probe, Pass, World, WaitOutcome, WaitProgress, new_progress, default_options, wait_loop,
  wait_for_stable_access,
}
use cursor_gateway.Access.Stable.{
  wait_for_stable_access-ends, wait_for_stable_access-IsStable, IsStable,
}
use cursor_gateway.Access.Calm.{wait_loop-returns}

abbrev pass_of : Probe ℕ → Pass ℕ
pass_of probe = record {
  clock = 10;
  aborted = false;
  probe = probe;
  clock_after = 20;
  slept = true;
}

-- One failure of the network, then answers.
abbrev passes : ℕ → Pass ℕ
passes zero = pass_of (Probe.fails (Failure.gateway_error (codes "request_timeout")))
passes (suc n) = pass_of (Probe.value n)

abbrev world : World ℕ
world = record { started = 5; pass = passes; aborted_at_end = false }

abbrev half_second : ℕ → Bool → ℕ
half_second failures waiting = 500

wait_for_stable_access-ends_example :
    (out : WaitOutcome ℕ) × (wait_for_stable_access default_options half_second world ≡ some out)
wait_for_stable_access-ends_example = wait_for_stable_access-ends default_options half_second world

second_answer :
    wait_for_stable_access default_options half_second world ≡ some (WaitOutcome.returned 1)
unfolding wait_for_stable_access
second_answer = refl

wait_for_stable_access-IsStable_example : IsStable default_options half_second world 1
wait_for_stable_access-IsStable_example =
    wait_for_stable_access-IsStable default_options half_second world 1 second_answer

-- After the failure.
abbrev failed_once : WaitProgress ℕ
failed_once = record new_progress { attempts = 1; transient_failures = 1 }

wait_loop-returns_example :
    (v : ℕ) × (wait_loop default_options half_second world 9 failed_once
      ≡ some (WaitOutcome.returned v))
wait_loop-returns_example =
    wait_loop-returns default_options half_second world 1 9 failed_once refl refl (omega arith)
      (omega arith)

-- A failure that the client does not know ends the wait.
unknown_failure :
    wait_for_stable_access default_options half_second
      (record world { pass = λ n. pass_of (Probe.fails (Failure.error (codes "denied: user"))) })
    ≡ some (WaitOutcome.rethrown (Failure.error (codes "denied: user")))
unfolding wait_for_stable_access
unknown_failure = refl
