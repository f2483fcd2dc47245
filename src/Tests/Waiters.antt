-- ===== src/Tests/Waiters.antt =====
-- Waiters at concrete events.
use cursor_gateway.Base.{true, false, some, List, [], ◌∷◌, ◌≡◌, refl}
use cursor_gateway.Text.{codes}
use cursor_gateway.Waiters.{Channel, no_waiters, WaiterEvent, wait_for_plaintext_job, waiter_events}
use cursor_gateway.Waiters.Woken.{was_notified, waiter_events-notified}

-- A job is queued between the poll and the wait.
abbrev early_job : List WaiterEvent
early_job = WaiterEvent.job_queued ∷ []

waiter_events-notified_example :
    was_notified 4 (
      waiter_events []
        (wait_for_plaintext_job 4 false (some 0) (waiter_events early_job no_waiters)))
    ≡ true
waiter_events-notified_example = waiter_events-notified 4 early_job [] no_waiters refl refl

-- A runner that waits for a pairing is not woken by the notice for the runner with the empty id.
runner_not_woken :
    (waiter_events
      (WaiterEvent.waits_for (Channel.pairings (codes "runner")) 5 false
        ∷ WaiterEvent.pairing_queued (codes "")
        ∷ [])
      no_waiters).settled
    ≡ []
unfolding waiter_events
runner_not_woken = refl

-- An encrypted job that is queued before the wait wakes no one.
e2ee_job_missed :
    (waiter_events
      (WaiterEvent.e2ee_job_queued (codes "runner")
        ∷ WaiterEvent.waits_for (Channel.e2ee_jobs (codes "runner")) 6 false
        ∷ [])
      no_waiters).settled
    ≡ []
unfolding waiter_events
e2ee_job_missed = refl
