-- ===== src/Waiters/Woken.antt =====
-- No notice of a job is lost on a poller that has observed the version of the queue.
use cursor_gateway.Base.{
  ℕ, suc, ◌≤◌, Bool, true, false, not, ◌&&◌, ◌||◌, some, List, [], ◌∷◌, ◌++◌, ◌≡◌, refl, any, ◌==◌,
  ==_iff, arith, inl, inr, Bool-cases,
}
use cursor_gateway.Waiters.{
  Channel, same_channel, Settlement, Waiters, wake_all, wake_set, notify_plaintext_job_queued,
  notify_e2ee_job_queued, notify_pairing_queued, notify_run_updated, wait_on,
  wait_for_plaintext_job, wait_for, without, finish, WaiterEvent, waiter_event, waiter_events,
}

abbrev is_notified : Settlement → Bool
is_notified Settlement.notified = true
is_notified Settlement.timeout = false
is_notified Settlement.aborted = false

-- The waiter was told of a notice.
abbrev told : ℕ → List (ℕ × Settlement) → Bool
told x [] = false
told x ((y, o) ∷ rest) = (y == x && is_notified o) || told x rest

abbrev pub was_notified : ℕ → Waiters → Bool
was_notified x w = told x w.settled

abbrev pub is_waiting : ℕ → Waiters → Bool
is_waiting x w = any (λ y. y == x) (w.waiting Channel.plaintext_jobs)

wake_all-told :
    (x : ℕ) (set : List ℕ) (settled : List (ℕ × Settlement))
    → told x (wake_all set settled) ≡ (any (λ y. y == x) set || told x settled)
unfolding wake_all
wake_all-told x [] settled = refl
wake_all-told x (y ∷ ys) settled =
    ground (arith, wake_all-told x ys ((y, Settlement.notified) ∷ settled))

any-append :
    (x : ℕ) (xs ys : List ℕ)
    → any (λ y. y == x) (xs ++ ys) ≡ (any (λ y. y == x) xs || any (λ y. y == x) ys)
any-append x [] ys = refl
any-append x (z ∷ xs) ys = ground (arith, any-append x xs ys)

any-without :
    (x z : ℕ) (xs : List ℕ)
    → (z == x) ≡ false
    → any (λ y. y == x) (without z xs) ≡ any (λ y. y == x) xs
unfolding without
any-without x z [] e = refl
any-without x z (y ∷ ys) e = ground (arith, e, any-without x z ys e)

-- The event is not the timer or the signal of the waiter.
abbrev pub spares : ℕ → WaiterEvent → Bool
spares x WaiterEvent.job_queued = true
spares x (WaiterEvent.e2ee_job_queued k) = true
spares x (WaiterEvent.pairing_queued k) = true
spares x (WaiterEvent.run_updated k) = true
spares x (WaiterEvent.waits_for_job y a o) = true
spares x (WaiterEvent.waits_for c y a) = true
spares x (WaiterEvent.finishes c y o) = not (y == x)

abbrev pub is_job : WaiterEvent → Bool
is_job WaiterEvent.job_queued = true
is_job (WaiterEvent.e2ee_job_queued k) = false
is_job (WaiterEvent.pairing_queued k) = false
is_job (WaiterEvent.run_updated k) = false
is_job (WaiterEvent.waits_for_job y a o) = false
is_job (WaiterEvent.waits_for c y a) = false
is_job (WaiterEvent.finishes c y o) = false

-- What was told stays told.
event-told :
    (x : ℕ) (e : WaiterEvent) (w : Waiters)
    → was_notified x w ≡ true
    → was_notified x (waiter_event e w) ≡ true
unfolding waiter_event notify_plaintext_job_queued notify_e2ee_job_queued notify_pairing_queued
    notify_run_updated wake_set wait_for_plaintext_job wait_for wait_on finish
event-told x WaiterEvent.job_queued w h =
    ground (arith, h, wake_all-told x (w.waiting Channel.plaintext_jobs) w.settled)
event-told x (WaiterEvent.e2ee_job_queued k) w h =
    ground (arith, h, wake_all-told x (w.waiting (Channel.e2ee_jobs k)) w.settled)
event-told x (WaiterEvent.pairing_queued k) w h =
    ground (arith, h, wake_all-told x (w.waiting (Channel.pairings k)) w.settled)
event-told x (WaiterEvent.run_updated k) w h =
    ground (arith, h, wake_all-told x (w.waiting (Channel.run_updates k)) w.settled)
event-told x (WaiterEvent.waits_for_job y a o) w h = ground (arith, h)
event-told x (WaiterEvent.waits_for c y a) w h = ground (arith, h)
event-told x (WaiterEvent.finishes c y o) w h = ground (arith, h)

events-told :
    (x : ℕ) (es : List WaiterEvent) (w : Waiters)
    → was_notified x w ≡ true
    → was_notified x (waiter_events es w) ≡ true
unfolding waiter_events
events-told x [] w h = h
events-told x (e ∷ es) w h = events-told x es (waiter_event e w) (event-told x e w h)

-- A poller that waits is told by a notice of a job, and goes on waiting through any other event but
-- its own timer or signal.
event-waits :
    (x : ℕ) (e : WaiterEvent) (w : Waiters)
    → is_waiting x w ≡ true
    → spares x e ≡ true
    → (was_notified x (waiter_event e w) || (not (is_job e) && is_waiting x (waiter_event e w)))
      ≡ true
unfolding waiter_event notify_plaintext_job_queued notify_e2ee_job_queued notify_pairing_queued
    notify_run_updated wake_set wait_for_plaintext_job wait_for wait_on finish same_channel
event-waits x WaiterEvent.job_queued w h ok =
    ground (arith, h, wake_all-told x (w.waiting Channel.plaintext_jobs) w.settled)
event-waits x (WaiterEvent.e2ee_job_queued k) w h ok = ground (arith, h)
event-waits x (WaiterEvent.pairing_queued k) w h ok = ground (arith, h)
event-waits x (WaiterEvent.run_updated k) w h ok = ground (arith, h)
event-waits x (WaiterEvent.waits_for_job y a o) w h ok =
    ground (arith, h, any-append x (w.waiting Channel.plaintext_jobs) (y ∷ []))
event-waits x (WaiterEvent.waits_for Channel.plaintext_jobs y a) w h ok =
    ground (arith, h, any-append x (w.waiting Channel.plaintext_jobs) (y ∷ []))
event-waits x (WaiterEvent.waits_for (Channel.e2ee_jobs k) y a) w h ok = ground (arith, h)
event-waits x (WaiterEvent.waits_for (Channel.pairings k) y a) w h ok = ground (arith, h)
event-waits x (WaiterEvent.waits_for (Channel.run_updates k) y a) w h ok = ground (arith, h)
event-waits x (WaiterEvent.finishes Channel.plaintext_jobs y o) w h ok =
    ground (arith, h, ok, any-without x y (w.waiting Channel.plaintext_jobs) (ground (arith, ok)))
event-waits x (WaiterEvent.finishes (Channel.e2ee_jobs k) y o) w h ok = ground (arith, h)
event-waits x (WaiterEvent.finishes (Channel.pairings k) y o) w h ok = ground (arith, h)
event-waits x (WaiterEvent.finishes (Channel.run_updates k) y o) w h ok = ground (arith, h)

-- Every event of the list leaves the waiter its timer and its signal.
abbrev pub all_spare : ℕ → List WaiterEvent → Bool
all_spare x [] = true
all_spare x (e ∷ es) = spares x e && all_spare x es

waiting-told :
    (x : ℕ) (es : List WaiterEvent) (w : Waiters)
    → is_waiting x w ≡ true
    → all_spare x es ≡ true
    → any is_job es ≡ true
    → was_notified x (waiter_events es w) ≡ true
unfolding waiter_events
waiting-told x [] w h ok job = absurd (cc)
waiting-told x (e ∷ es) w h ok job =
    let step = event-waits x e w h (ground (arith, ok)) in
    elim (Bool-cases (was_notified x (waiter_event e w))) [
      | inl told_now ↦ events-told x es (waiter_event e w) told_now
      | inr not_yet ↦
          waiting-told x es (waiter_event e w) (ground (arith, step, not_yet)) (ground (arith, ok))
            (ground (arith, job, step, not_yet))
    ]

-- The version of the queue counts the notices.
event-version :
    (e : WaiterEvent) (w : Waiters)
    → (w.queue_version ≤ (waiter_event e w).queue_version)
      × (is_job e ≡ true → suc w.queue_version ≤ (waiter_event e w).queue_version)
unfolding waiter_event notify_plaintext_job_queued notify_e2ee_job_queued notify_pairing_queued
    notify_run_updated wake_set wait_for_plaintext_job wait_for wait_on finish
event-version WaiterEvent.job_queued w = (omega arith, λ e. omega arith)
event-version (WaiterEvent.e2ee_job_queued k) w = (omega arith, λ e. absurd (cc))
event-version (WaiterEvent.pairing_queued k) w = (omega arith, λ e. absurd (cc))
event-version (WaiterEvent.run_updated k) w = (omega arith, λ e. absurd (cc))
event-version (WaiterEvent.waits_for_job y a o) w = (ground arith, λ e. absurd (cc))
event-version (WaiterEvent.waits_for c y a) w = (ground arith, λ e. absurd (cc))
event-version (WaiterEvent.finishes c y o) w = (ground arith, λ e. absurd (cc))

events-version :
    (es : List WaiterEvent) (w : Waiters)
    → (w.queue_version ≤ (waiter_events es w).queue_version)
      × (any is_job es ≡ true → suc w.queue_version ≤ (waiter_events es w).queue_version)
unfolding waiter_events
events-version [] w = (omega arith, λ e. absurd (cc))
events-version (e ∷ es) w =
    let (stays, grows) = event-version e w in
    let (later, more) = events-version es (waiter_event e w) in
    (
      omega (arith, stays, later),
      λ job. elim (Bool-cases (is_job e)) [
        | inl now ↦ omega (arith, grows now, later)
        | inr other ↦ omega (arith, stays, more (ground (arith, job, other)))
      ],
    )

-- A poller that has observed the version of the queue, and then waits, is told of a job that is
-- queued at any time after its observation, before its wait or during it, when its signal has not
-- fired at the wait and no timer or signal settles it.
pub waiter_events-notified :
    (x : ℕ) (before during : List WaiterEvent) (w : Waiters)
    → all_spare x during ≡ true
    → (any is_job before || any is_job during) ≡ true
    → was_notified x (
        waiter_events during
          (wait_for_plaintext_job x false (some w.queue_version) (waiter_events before w)))
      ≡ true
unfolding wait_for_plaintext_job wait_on same_channel
waiter_events-notified x before during w ok job =
    let now = waiter_events before w in
    elim (Bool-cases (now.queue_version == w.queue_version)) [
      | inr missed ↦
          events-told x during (wait_for_plaintext_job x false (some w.queue_version) now)
            (ground (arith, missed))
      | inl same ↦
          let none_before : any is_job before ≡ false = elim (Bool-cases (any is_job before)) [
            | inl some_before ↦
                absurd (omega (arith, (events-version before w).1 some_before, (==_iff _ _).0 same))
            | inr e ↦ e
          ] in
          waiting-told x during (wait_for_plaintext_job x false (some w.queue_version) now)
            (ground (arith, same, any-append x (now.waiting Channel.plaintext_jobs) (x ∷ []))) ok
            (ground (arith, job, none_before))
    ]
