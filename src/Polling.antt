-- ===== src/Polling.antt =====
-- The run poller of packages/shared/src/runPolling.ts: `createRunPollingLoop` as a state machine.
-- The variables of the closure are the fields of `Loop`. A load that has started and not settled is
-- in `loads` by the generation that its `poll` was called with; the scheduled callback is in `timer`
-- by its generation and delay; `applied` logs the generations whose snapshots were applied, the
-- latest first. The callbacks of the options do not call the loop again.
pub mod Progress
use cursor_gateway.Base.{
  ℕ, ◌+◌, ◌*◌, ◌^◌, Bool, true, false, not, ◌||◌, Option, none, some, List, [], ◌∷◌, min, ◌==◌,
  if◌then◌else◌, any, is_some,
}
use cursor_gateway.Run.{RunStatus, is_active}

pub record Intervals : Type 0 where
  pub interval_ms : ℕ
  pub background_interval_ms : ℕ
  pub max_retry_interval_ms : ℕ

-- `RUN_POLL_INTERVAL_MS`, `RUN_POLL_BACKGROUND_INTERVAL_MS`, `RUN_POLL_MAX_RETRY_INTERVAL_MS`
abbrev pub default_intervals : Intervals
default_intervals = record {
  interval_ms = 2000;
  background_interval_ms = 15000;
  max_retry_interval_ms = 30000;
}

pub record Loop : Type 0 where
  pub active : Bool
  pub in_flight : Bool
  pub wake_requested : Bool
  pub timer : Option (ℕ × ℕ)
  pub consecutive_failures : ℕ
  pub generation : ℕ
  pub loads : List ℕ
  pub applied : List ℕ

abbrev pub new_loop : Loop
new_loop = record {
  active = false;
  in_flight = false;
  wake_requested = false;
  timer = none;
  consecutive_failures = 0;
  generation = 0;
  loads = [];
  applied = [];
}

-- How a load settles: with the statuses of its snapshot, or by throwing.
pub data Outcome : Type 0 where
  loaded : List RunStatus → Outcome
  failed : Outcome

-- `isRunStatusInFlight`
abbrev pub is_status_in_flight : RunStatus → Bool
is_status_in_flight x = is_active x

unfoldable pub clear_scheduled : Loop → Loop
clear_scheduled s = record s { timer = none }

-- `nextDelay`, where `background` is what `isBackground` answers.
unfoldable pub next_delay : Intervals → (background : Bool) → Loop → ℕ
next_delay i background s =
    let base = if background then i.background_interval_ms else i.interval_ms in
    if s.consecutive_failures == 0
    then base
    else min (base * 2 ^ min s.consecutive_failures 4) i.max_retry_interval_ms

unfoldable pub schedule_next : Intervals → Bool → ℕ → Loop → Loop
unfolding next_delay
schedule_next i background current s =
    if not s.active || not (s.generation == current) || is_some s.timer
    then s
    else record s { timer = some (current, next_delay i background s) }

-- `poll`, up to its `await`.
unfoldable pub poll : ℕ → Loop → Loop
poll current s =
    if not s.active || not (s.generation == current)
    then s
    else if s.in_flight
    then record s { wake_requested = true }
    else record s { in_flight = true; loads = current ∷ s.loads }

-- The load of a generation is over.
unfoldable pub forget : ℕ → List ℕ → List ℕ
forget g [] = []
forget g (h ∷ gs) = let rest = forget g gs in if h == g then gs else h ∷ rest

-- The `try` and `catch` of `poll`, once the load has settled.
unfoldable pub take_in : ℕ → Outcome → Loop → Loop
unfolding clear_scheduled
take_in current (loaded statuses) s =
    let next = record s { applied = current ∷ s.applied; consecutive_failures = 0 } in
    if not s.active || not (s.generation == current)
    then s
    else if not (any is_status_in_flight statuses)
    then clear_scheduled (record next { active = false })
    else next
take_in current failed s =
    if not s.active || not (s.generation == current)
    then s
    else record s { consecutive_failures = s.consecutive_failures + 1 }

-- The `finally` of `poll`.
unfoldable pub wind_up : Intervals → Bool → ℕ → Loop → Loop
unfolding poll schedule_next forget
wind_up i background current t =
    let s = record t { in_flight = false; loads = forget current t.loads } in
    let calm = record s { wake_requested = false } in
    if not s.active
    then s
    else if not (s.generation == current)
    then (if s.wake_requested then poll s.generation calm else s)
    else if s.wake_requested
    then poll current calm
    else schedule_next i background current s

-- What happens to the loop: a call of its methods, its timer, or a load that settles.
pub data Event : Type 0 where
  start stop wake timer_fires : Event
  settles : (current : ℕ) → Outcome → (background : Bool) → Event

unfoldable pub start_loop : Loop → Loop
unfolding poll
start_loop s =
    if s.active
    then s
    else poll (s.generation + 1) (record s {
      active = true;
      wake_requested = false;
      consecutive_failures = 0;
      generation = s.generation + 1;
    })

unfoldable pub stop_loop : Loop → Loop
unfolding clear_scheduled
stop_loop s =
    clear_scheduled
      (record s { active = false; wake_requested = false; generation = s.generation + 1 })

unfoldable pub wake_loop : Loop → Loop
unfolding poll clear_scheduled
wake_loop s =
    if not s.active
    then s
    else if s.in_flight
    then clear_scheduled s
    else poll s.generation (clear_scheduled s)

-- The scheduled callback.
unfoldable pub fire : Option (ℕ × ℕ) → Loop → Loop
unfolding poll
fire none s = s
fire (some (g, d)) s = poll g (record s { timer = none })

unfoldable pub step : Intervals → Event → Loop → Loop
unfolding start_loop stop_loop wake_loop fire take_in wind_up
step i start s = start_loop s
step i stop s = stop_loop s
step i wake s = wake_loop s
step i timer_fires s = fire s.timer s
step i (settles current outcome background) s =
    if any (λ g. g == current) s.loads
    then wind_up i background current (take_in current outcome s)
    else s

unfoldable pub steps : Intervals → List Event → Loop → Loop
unfolding step
steps i [] s = s
steps i (e ∷ es) s = steps i es (step i e s)
