-- ===== src/Waiters.antt =====
-- The waiters of long polls: apps/server/src/runWaiter.ts. A waiter is its number; the sets of the
-- four maps are one function of the channel, which is empty where a map has no set. A timer or a
-- signal that settles a waiter is an event.
pub mod Woken
use cursor_gateway.Base.{
  ℕ, suc, ◌+◌, Bool, true, false, not, ◌&&◌, Option, none, some, List, [], ◌∷◌, ◌++◌, any, ◌==◌,
  holds, if◌then◌else◌,
}
use cursor_gateway.Text.{Text, same_units}

pub data Channel : Type 0 where
  plaintext_jobs : Channel
  e2ee_jobs pairings run_updates : Text → Channel

unfoldable pub same_channel : Channel → Channel → Bool
unfolding same_units
same_channel Channel.plaintext_jobs Channel.plaintext_jobs = true
same_channel Channel.plaintext_jobs (Channel.e2ee_jobs k) = false
same_channel Channel.plaintext_jobs (Channel.pairings k) = false
same_channel Channel.plaintext_jobs (Channel.run_updates k) = false
same_channel (Channel.e2ee_jobs k) Channel.plaintext_jobs = false
same_channel (Channel.e2ee_jobs k) (Channel.e2ee_jobs l) = same_units k l
same_channel (Channel.e2ee_jobs k) (Channel.pairings l) = false
same_channel (Channel.e2ee_jobs k) (Channel.run_updates l) = false
same_channel (Channel.pairings k) Channel.plaintext_jobs = false
same_channel (Channel.pairings k) (Channel.e2ee_jobs l) = false
same_channel (Channel.pairings k) (Channel.pairings l) = same_units k l
same_channel (Channel.pairings k) (Channel.run_updates l) = false
same_channel (Channel.run_updates k) Channel.plaintext_jobs = false
same_channel (Channel.run_updates k) (Channel.e2ee_jobs l) = false
same_channel (Channel.run_updates k) (Channel.pairings l) = false
same_channel (Channel.run_updates k) (Channel.run_updates l) = same_units k l

pub data Settlement : Type 0 where
  notified timeout aborted : Settlement

-- The sets, the version of the plaintext queue, and what each settled waiter was told.
pub record Waiters : Type 0 where
  pub waiting : Channel → List ℕ
  pub queue_version : ℕ
  pub settled : List (ℕ × Settlement)

abbrev pub no_waiters : Waiters
no_waiters = record { waiting = λ c. []; queue_version = 0; settled = [] }

abbrev put_set : Channel → List ℕ → (Channel → List ℕ) → Channel → List ℕ
unfolding same_channel
put_set c set sets d = if same_channel c d then set else sets d

-- The loop of `wakeSet`.
unfoldable pub wake_all : List ℕ → List (ℕ × Settlement) → List (ℕ × Settlement)
wake_all [] settled = settled
wake_all (x ∷ xs) settled = wake_all xs ((x, Settlement.notified) ∷ settled)

-- `wakeSet`
unfoldable pub wake_set : Channel → Waiters → Waiters
unfolding wake_all same_channel
wake_set c w = record w {
  waiting = put_set c [] w.waiting;
  settled = wake_all (w.waiting c) w.settled;
}

-- `notifyPlaintextJobQueued`
unfoldable pub notify_plaintext_job_queued : Waiters → Waiters
unfolding wake_set
notify_plaintext_job_queued w =
    wake_set Channel.plaintext_jobs (record w { queue_version = suc w.queue_version })

-- `notifyE2eeJobQueued`, `notifyPairingQueued` and `notifyRunUpdated`
unfoldable pub notify_e2ee_job_queued : Text → Waiters → Waiters
unfolding wake_set
notify_e2ee_job_queued runner_id w = wake_set (Channel.e2ee_jobs runner_id) w

unfoldable pub notify_pairing_queued : Text → Waiters → Waiters
unfolding wake_set
notify_pairing_queued runner_id w = wake_set (Channel.pairings runner_id) w

unfoldable pub notify_run_updated : Text → Waiters → Waiters
unfolding wake_set
notify_run_updated run_id w = wake_set (Channel.run_updates run_id) w

-- `waitOn`, up to where it waits: a signal that has fired, or a test that holds, settles it at once.
unfoldable pub wait_on : Channel → (waiter : ℕ) → (signal_aborted ready : Bool) → Waiters → Waiters
unfolding same_channel
wait_on c x signal_aborted ready w =
    if signal_aborted
    then record w { settled = (x, Settlement.aborted) ∷ w.settled }
    else if ready
    then record w { settled = (x, Settlement.notified) ∷ w.settled }
    else record w { waiting = put_set c (w.waiting c ++ (x ∷ [])) w.waiting }

-- `waitForPlaintextJob`
unfoldable pub wait_for_plaintext_job :
    (waiter : ℕ) → (signal_aborted : Bool) → (observed_queue_version : Option ℕ) → Waiters → Waiters
unfolding wait_on
wait_for_plaintext_job x signal_aborted observed w =
    wait_on Channel.plaintext_jobs x signal_aborted
      (holds (λ v. not (w.queue_version == v)) observed) w

-- `waitForE2eeJob`, `waitForPairing` and `waitForRunUpdate`, by their channel.
unfoldable pub wait_for : Channel → (waiter : ℕ) → (signal_aborted : Bool) → Waiters → Waiters
unfolding wait_on
wait_for c x signal_aborted w = wait_on c x signal_aborted false w

unfoldable pub without : ℕ → List ℕ → List ℕ
without x [] = []
without x (y ∷ ys) = let rest = without x ys in if y == x then rest else y ∷ rest

-- `finish`, by the timer or the signal of a waiter; one that has settled ignores it.
unfoldable pub finish : Channel → (waiter : ℕ) → Settlement → Waiters → Waiters
unfolding without same_channel
finish c x outcome w =
    if any (λ y. y == x) (w.waiting c)
    then record w {
      waiting = put_set c (without x (w.waiting c)) w.waiting;
      settled = (x, outcome) ∷ w.settled;
    }
    else w

pub data WaiterEvent : Type 0 where
  job_queued : WaiterEvent
  e2ee_job_queued pairing_queued run_updated : Text → WaiterEvent
  waits_for_job : (waiter : ℕ) → (signal_aborted : Bool) → (observed : Option ℕ) → WaiterEvent
  waits_for : Channel → (waiter : ℕ) → (signal_aborted : Bool) → WaiterEvent
  finishes : Channel → (waiter : ℕ) → Settlement → WaiterEvent

unfoldable pub waiter_event : WaiterEvent → Waiters → Waiters
unfolding notify_plaintext_job_queued notify_e2ee_job_queued notify_pairing_queued
    notify_run_updated wait_for_plaintext_job wait_for finish
waiter_event WaiterEvent.job_queued w = notify_plaintext_job_queued w
waiter_event (WaiterEvent.e2ee_job_queued k) w = notify_e2ee_job_queued k w
waiter_event (WaiterEvent.pairing_queued k) w = notify_pairing_queued k w
waiter_event (WaiterEvent.run_updated k) w = notify_run_updated k w
waiter_event (WaiterEvent.waits_for_job x signal_aborted observed) w =
    wait_for_plaintext_job x signal_aborted observed w
waiter_event (WaiterEvent.waits_for c x signal_aborted) w = wait_for c x signal_aborted w
waiter_event (WaiterEvent.finishes c x outcome) w = finish c x outcome w

unfoldable pub waiter_events : List WaiterEvent → Waiters → Waiters
unfolding waiter_event
waiter_events [] w = w
waiter_events (e ∷ es) w = waiter_events es (waiter_event e w)
