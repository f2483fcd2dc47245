-- ===== src/Access.antt =====
-- The wait for a stable login of the secure web client: apps/secure-web/src/accessRetry.ts. What the
-- loop meets (the clock, the signal, the probe and the sleep) is a function of the number of the
-- pass. The delay of `accessRetryDelay`, which is random, is a parameter.
pub mod Stable
pub mod Calm
use cursor_gateway.Base.{
  ℕ, zero, suc, ◌+◌, Bool, true, false, not, ◌&&◌, ◌||◌, Option, none, some, List, [], ◌∷◌, any,
  ltb, leb, ◌==◌, is_some, if◌then◌else◌,
}
use cursor_gateway.Text.{Text, codes, trim, is_empty, same_units}

-- What is thrown: a `GatewayApiError` by its code, an `Error` by its message, a string, or any other
-- value.
pub data Failure : Type 0 where
  gateway_error : (code : Text) → Failure
  error : (message : Text) → Failure
  thrown_text : Text → Failure
  other_value : Failure

-- `split(":")[0]`
unfoldable pub before_colon : Text → Text
before_colon [] = []
before_colon (c ∷ cs) = let rest = before_colon cs in if c == 58 then [] else c ∷ rest

abbrev unknown_error : Text
unknown_error = codes "access_unknown_error"

abbrev code_in : Text → Text
unfolding trim before_colon
code_in t = if is_empty (trim t) then unknown_error else before_colon (trim t)

-- `accessErrorCode`
unfoldable pub access_error_code : Failure → Text
unfolding trim before_colon
access_error_code (Failure.gateway_error code) = code
access_error_code (Failure.error message) = code_in message
access_error_code (Failure.thrown_text t) = code_in t
access_error_code Failure.other_value = unknown_error

abbrev pub transient_codes : List Text
transient_codes =
    codes "network_unreachable"
    ∷ codes "request_timeout"
    ∷ codes "access_bridge_fetch_timeout"
    ∷ codes "access_bridge_fetch_channel_closed"
    ∷ codes "access_bridge_not_ready"
    ∷ codes "access_bridge_ready_channel_closed"
    ∷ []

unfoldable pub waits_for_login : Failure → Bool
unfolding access_error_code same_units
waits_for_login f = same_units (access_error_code f) (codes "cloudflare_login_required")

-- `isRetryableAccessError`
unfoldable pub is_retryable_access_error : Failure → Bool
unfolding access_error_code same_units waits_for_login
is_retryable_access_error f =
    waits_for_login f || any (same_units (access_error_code f)) transient_codes

unfoldable pub is_cancelled : Failure → Bool
unfolding access_error_code same_units
is_cancelled f = same_units (access_error_code f) (codes "access_login_cancelled")

-- The options, with the defaults of those that are left out.
pub record Options : Type 0 where
  pub total_timeout_ms : ℕ
  pub max_attempts : ℕ
  pub max_transient_failures : ℕ
  pub required_successes : ℕ

abbrev pub default_options : Options
default_options = record {
  total_timeout_ms = 300000;
  max_attempts = 120;
  max_transient_failures = 8;
  required_successes = 2;
}

pub data Probe {ℓ} (A : Type ℓ) : Type ℓ where
  value : A → Probe A
  fails : Failure → Probe A

-- One pass: the clock and the signal at its start, the probe, the clock after a failure, and whether
-- the sleep ends, or is cancelled by the signal.
pub record Pass {ℓ} (A : Type ℓ) : Type ℓ where
  pub clock : ℕ
  pub aborted : Bool
  pub probe : Probe A
  pub clock_after : ℕ
  pub slept : Bool

pub record World {ℓ} (A : Type ℓ) : Type ℓ where
  pub started : ℕ
  pub pass : ℕ → Pass A
  pub aborted_at_end : Bool

pub data WaitOutcome {ℓ} (A : Type ℓ) : Type ℓ where
  returned : A → WaitOutcome A
  rethrown : Failure → WaitOutcome A
  login_cancelled network_retry_exhausted stability_not_confirmed login_timeout : WaitOutcome A

pub record WaitProgress {ℓ} (A : Type ℓ) : Type ℓ where
  pub attempts : ℕ
  pub transient_failures : ℕ
  pub consecutive_successes : ℕ
  pub last_value : Option A

module _ {ℓ} {A : Type ℓ} where
  abbrev pub new_progress : WaitProgress A
  new_progress = record {
    attempts = 0;
    transient_failures = 0;
    consecutive_successes = 0;
    last_value = none;
  }

  -- What a probe that succeeds, and one that fails, leaves of the counters.
  unfoldable pub after_success : WaitProgress A → A → WaitProgress A
  after_success p v = record {
    attempts = suc p.attempts;
    transient_failures = 0;
    consecutive_successes = suc p.consecutive_successes;
    last_value = some v;
  }

  unfoldable pub after_failure : WaitProgress A → Failure → WaitProgress A
  unfolding waits_for_login
  after_failure p f = record {
    attempts = suc p.attempts;
    transient_failures =
        if waits_for_login f then p.transient_failures else suc p.transient_failures;
    consecutive_successes = 0;
    last_value = p.last_value;
  }

  module _ (o : Options) (delay : (transient_failures : ℕ) → (waiting : Bool) → ℕ)
      (w : World A) where
    abbrev pub deadline : ℕ
    deadline = w.started + o.total_timeout_ms

    -- The code behind the loop.
    unfoldable pub give_up : WaitProgress A → WaitOutcome A
    give_up p =
        if w.aborted_at_end
        then WaitOutcome.login_cancelled
        else if is_some p.last_value && ltb 0 p.consecutive_successes
        then WaitOutcome.stability_not_confirmed
        else WaitOutcome.login_timeout

    -- The loop; `none` where the fuel is out.
    unfoldable pub wait_loop : (fuel : ℕ) → WaitProgress A → Option (WaitOutcome A)
    unfolding give_up is_cancelled is_retryable_access_error waits_for_login after_success
        after_failure
    wait_loop zero p = none
    wait_loop (suc fuel) p =
        let now = w.pass p.attempts in
        elim now.probe [
          | Probe.value v ↦
              let next = after_success p v in
              let rest = wait_loop fuel next in
              if not (ltb p.attempts o.max_attempts && ltb now.clock deadline)
              then some (give_up p)
              else if now.aborted
              then some WaitOutcome.login_cancelled
              else if leb o.required_successes next.consecutive_successes
              then some (WaitOutcome.returned v)
              else if not now.slept
              then some WaitOutcome.login_cancelled
              else rest
          | Probe.fails f ↦
              let waiting = waits_for_login f in
              let next = after_failure p f in
              let rest = wait_loop fuel next in
              if not (ltb p.attempts o.max_attempts && ltb now.clock deadline)
              then some (give_up p)
              else if now.aborted
              then some WaitOutcome.login_cancelled
              else if is_cancelled f || not (is_retryable_access_error f)
              then some (WaitOutcome.rethrown f)
              else if not waiting && ltb o.max_transient_failures next.transient_failures
              then some WaitOutcome.network_retry_exhausted
              else if leb deadline (now.clock_after + delay next.transient_failures waiting)
              then some (give_up next)
              else if not now.slept
              then some WaitOutcome.login_cancelled
              else rest
        ]

    -- `waitForStableAccess`
    unfoldable pub wait_for_stable_access : Option (WaitOutcome A)
    unfolding wait_loop
    wait_for_stable_access = wait_loop (suc o.max_attempts) new_progress
