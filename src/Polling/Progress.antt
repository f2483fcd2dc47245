-- ===== src/Polling/Progress.antt =====
-- The poller never runs two loads at once, never stalls, and applies nothing that was stopped.
use mathlib.Core.List.{append_assoc}
use cursor_gateway.Base.{
  ℕ, ◌+◌, ◌≤◌, Bool, true, false, not, ◌||◌, Option, none, some, List, [], ◌∷◌, ◌++◌, ◌≡◌, refl,
  arith, ◌==◌, if◌then◌else◌, any, is_some, length, All, ◌⊎◌, inl, inr, Bool-cases, All-append, ◌∙◌,
  ap, sym,
}
use cursor_gateway.Polling.{
  Intervals, Loop, Outcome, Event, step, steps, start_loop, stop_loop, wake_loop, fire, take_in,
  wind_up, poll, schedule_next, forget, clear_scheduled, loaded, failed, start, stop, wake,
  timer_fires, settles,
}

-- The load in flight was started by the current generation.
abbrev current_load : Loop → Bool
current_load s = any (λ g. g == s.generation) s.loads

abbrev stale_timer : ℕ → Option (ℕ × ℕ) → Bool
stale_timer n none = false
stale_timer n (some (g, d)) = not (g == n)

-- Between two events.
pub record IsPolling (s : Loop) : Type 0 where
  pub one_load : length s.loads ≡ (if s.in_flight then 1 else 0)
  pub busy : s.active ≡ true → (s.in_flight || is_some s.timer) ≡ true
  pub one_wait : s.in_flight ≡ true → s.timer ≡ none
  pub restarted : s.active ≡ true → s.in_flight ≡ true → (current_load s || s.wake_requested) ≡ true
  pub timely : stale_timer s.generation s.timer ≡ false
  pub timer_active : is_some s.timer ≡ true → s.active ≡ true

module _ (s : Loop) (h : IsPolling s) where
  start-IsPolling : IsPolling (start_loop s)
  unfolding start_loop poll
  start-IsPolling = ground arith

  stop-IsPolling : IsPolling (stop_loop s)
  unfolding stop_loop clear_scheduled
  stop-IsPolling = ground arith

  wake-IsPolling : IsPolling (wake_loop s)
  unfolding wake_loop poll clear_scheduled
  wake-IsPolling = ground arith

  fire-IsPolling : (t : Option (ℕ × ℕ)) → s.timer ≡ t → IsPolling (fire t s)
  unfolding fire poll
  fire-IsPolling none e = h
  fire-IsPolling (some (g, d)) e = ground arith

-- The only load there is.
only_load :
    (g : ℕ) (gs : List ℕ) (flying : Bool)
    → length gs ≡ (if flying then 1 else 0)
    → any (λ k. k == g) gs ≡ true
    → (flying ≡ true) × (gs ≡ g ∷ [])
only_load g [] flying n m = absurd (cc)
only_load g (k ∷ []) flying n m = ground arith
only_load g (k ∷ l ∷ gs) flying n m = ground arith

forget-last : (g : ℕ) → forget g (g ∷ []) ≡ []
unfolding forget
forget-last g = ground arith

module _ (i : Intervals) (s : Loop) (h : IsPolling s) where
  settles-IsPolling :
      (g : ℕ) (o : Outcome) (background : Bool)
      → s.in_flight ≡ true
      → s.loads ≡ g ∷ []
      → forget g s.loads ≡ []
      → IsPolling (wind_up i background g (take_in g o s))
  unfolding wind_up take_in poll schedule_next clear_scheduled
  settles-IsPolling g (loaded statuses) background flying one gone =
      ground (arith, h, flying, one, gone)
  settles-IsPolling g failed background flying one gone = ground (arith, h, flying, one, gone)

  pub step-IsPolling : (e : Event) → IsPolling (step i e s)
  unfolding step
  step-IsPolling start = start-IsPolling s h
  step-IsPolling stop = stop-IsPolling s h
  step-IsPolling wake = wake-IsPolling s h
  step-IsPolling timer_fires = fire-IsPolling s h s.timer refl
  step-IsPolling (settles g o background) = elim (Bool-cases (any (λ k. k == g) s.loads)) [
    | inr absent ↦ rw absent h
    | inl there ↦
        let (flying, one) = only_load g s.loads s.in_flight h.one_load there in
        rw there (settles-IsPolling g o background flying one (rw one (forget-last g)))
  ]

-- Whatever happens to a poller from a state in order on, in whatever order: at most one load is in flight at a time; while
-- the poller is active, a load is in flight or the next poll is scheduled for the current
-- generation, never both; and a load of an earlier generation that is still in flight is followed
-- by a poll of the current one.
pub steps-IsPolling :
    (i : Intervals) (events : List Event) (s : Loop) → IsPolling s → IsPolling (steps i events s)
unfolding steps
steps-IsPolling i [] s h = h
steps-IsPolling i (e ∷ es) s h = steps-IsPolling i es (step i e s) (step-IsPolling i s h e)

-- The later log: newer generations only, on top of the log that was there.
abbrev pub Later : ℕ → Loop → Loop → Type 0
Later n s t = (new : List ℕ) × (t.applied ≡ new ++ s.applied) × All (λ g. n ≤ g) new

-- One event applies one snapshot at most, and that of the current generation.
abbrev Logged : Loop → Loop → Type 0
Logged s t = (t.applied ≡ s.applied) ⊎ (t.applied ≡ s.generation ∷ s.applied)

module _ (s : Loop) where
  fire-Logged :
      (t : Option (ℕ × ℕ))
      → ((fire t s).applied ≡ s.applied) × ((fire t s).generation ≡ s.generation)
  unfolding fire poll
  fire-Logged none = (refl, refl)
  fire-Logged (some (g, d)) = ground arith

  settles-Logged :
      (i : Intervals) (g : ℕ) (o : Outcome) (background : Bool)
      → Logged s (wind_up i background g (take_in g o s))
        × ((wind_up i background g (take_in g o s)).generation ≡ s.generation)
  unfolding wind_up take_in poll schedule_next clear_scheduled
  settles-Logged i g (loaded statuses) background = ground arith
  settles-Logged i g failed background = ground arith

  step-Logged :
      (i : Intervals) (e : Event) → Logged s (step i e s) × (s.generation ≤ (step i e s).generation)
  unfolding step start_loop stop_loop wake_loop poll clear_scheduled
  step-Logged i start = ground arith
  step-Logged i stop = ground arith
  step-Logged i wake = ground arith
  step-Logged i timer_fires =
      let (same, fixed) = fire-Logged s.timer in (inl same, omega (arith, fixed))
  step-Logged i (settles g o background) = elim (Bool-cases (any (λ k. k == g) s.loads)) [
    | inr absent ↦ rw absent (inl refl, omega arith)
    | inl there ↦
        let (log, fixed) = settles-Logged i g o background in rw there (log, omega (arith, fixed))
  ]

Later-trans : (n : ℕ) (s t u : Loop) → n ≤ s.generation → Logged s t → Later n t u → Later n s u
Later-trans n s t u h (inl same) (new, e, fresh) = (new, rw (e, same), fresh)
Later-trans n s t u h (inr one) (new, e, fresh) = (
  new ++ s.generation ∷ [],
  e ∙ ap (λ l. new ++ l) one ∙ sym (append_assoc new (s.generation ∷ []) s.applied),
  All-append (λ g. n ≤ g) new (s.generation ∷ []) fresh (h, tt),
)

steps-Later :
    (n : ℕ) (i : Intervals) (events : List Event) (s : Loop)
    → n ≤ s.generation
    → Later n s (steps i events s)
unfolding steps
steps-Later n i [] s h = ([], refl, tt)
steps-Later n i (e ∷ es) s h =
    let (log, on) = step-Logged s i e in
    Later-trans n s (step i e s) (steps i es (step i e s)) h log
      (steps-Later n i es (step i e s) (omega (arith, on)))

-- After `stop`, whatever happens next, every snapshot that is applied is one of a generation that
-- began after the stop: a load that was in flight when the poller was stopped is not applied.
pub stop-suppresses :
    (i : Intervals) (events : List Event) (s : Loop)
    → (new : List ℕ) × ((steps i (stop ∷ events) s).applied ≡ new ++ s.applied)
      × All (λ g. s.generation + 1 ≤ g) new
unfolding steps step stop_loop clear_scheduled
stop-suppresses i events s = steps-Later (s.generation + 1) i events (stop_loop s) (omega arith)
