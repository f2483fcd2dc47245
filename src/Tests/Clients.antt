-- ===== src/Tests/Clients.antt =====
-- The clients and the csapi facade at concrete inputs.
use cursor_gateway.Base.{
  length, ℕ, ◌+◌, ◌≤◌, true, false, none, some, List, [], ◌∷◌, ◌++◌, ◌≡◌, ◌⊎◌, refl, arith, All,
}
use cursor_gateway.Run.{RunStatus}
use cursor_gateway.Polling.{default_intervals, new_loop, Event, Outcome, steps}
use cursor_gateway.Polling.Progress.{IsPolling, steps-IsPolling, stop-suppresses}
use cursor_gateway.Flow.{
  FlowState, FlowEvent, FlowStep, PairingMethod, transition_flow, transitions, paired_runner,
  is_flow_step_unlocked, access_expired, access, resume_chat, resume_pairing,
}
use cursor_gateway.Flow.Steps.{
  Names, is_flow_step_unlocked-place, transition_flow-rejected, transitions-named,
}
use cursor_gateway.Sessions.{
  depth, Act, new_session, acts, Slots, slot_count, try_acquire, release, requests, Request,
}
use cursor_gateway.History.{
  ConversationTurn, turn_characters, truncate_conversation_history, max_history_turns,
  max_history_characters,
}
use cursor_gateway.History.Bounds.{
  characters_of, truncate_conversation_history-bounded, truncate_conversation_history-whole,
}
use cursor_gateway.Sessions.Serial.{IsSerial, acts-IsSerial}
use cursor_gateway.Sessions.Slots.{requests-bounded, release-reopens}

new_loop-IsPolling : IsPolling new_loop
new_loop-IsPolling = record {
  one_load = refl;
  busy = λ e. absurd (cc);
  one_wait = λ e. refl;
  restarted = λ e f. absurd (cc);
  timely = refl;
  timer_active = λ e. absurd (cc);
}

-- A failure, a retry, a stop with a load in flight, and a new start.
abbrev events : List Event
events =
    Event.start
    ∷ Event.settles 1 Outcome.failed false
    ∷ Event.timer_fires
    ∷ Event.stop
    ∷ Event.start
    ∷ Event.settles 1 (Outcome.loaded (RunStatus.running ∷ [])) false
    ∷ []

steps-IsPolling_example : IsPolling (steps default_intervals events new_loop)
steps-IsPolling_example = steps-IsPolling default_intervals events new_loop new_loop-IsPolling

stop-suppresses_example :
    (new : List ℕ) × ((steps default_intervals (Event.stop ∷ events) new_loop).applied
      ≡ new ++ new_loop.applied)
    × All (λ g. new_loop.generation + 1 ≤ g) new
stop-suppresses_example = stop-suppresses default_intervals events new_loop

is_flow_step_unlocked-place_example :
    is_flow_step_unlocked (FlowState.verification PairingMethod.mail) FlowStep.chat_step ≡ false
is_flow_step_unlocked-place_example =
    is_flow_step_unlocked-place (FlowState.verification PairingMethod.mail) FlowStep.chat_step

-- The event that is not accepted and changes the state all the same.
transition_flow-rejected_example :
    ((transition_flow (access resume_chat) access_expired).0 ≡ access resume_chat)
    ⊎ ((access_expired ≡ access_expired)
        × (access resume_chat ≡ access resume_chat)
        × ((transition_flow (access resume_chat) access_expired).0 ≡ access resume_pairing))
unfolding transition_flow
transition_flow-rejected_example = transition_flow-rejected (access resume_chat) access_expired refl

abbrev onboarding : List FlowEvent
onboarding =
    FlowEvent.access_ready none
    ∷ FlowEvent.select_method PairingMethod.passkey
    ∷ FlowEvent.start_verification
    ∷ FlowEvent.paired "runner"
    ∷ FlowEvent.continue_to_chat
    ∷ []

transitions-named_example : Names "runner" onboarding
unfolding paired_runner transitions
transitions-named_example = transitions-named onboarding "runner" refl

new_session-IsSerial : IsSerial new_session
unfolding depth
new_session-IsSerial = record { one = refl; counted = refl; kept = refl; idle = λ e. refl }

abbrev session_acts : List Act
session_acts = Act.runs 1 ∷ Act.runs 2 ∷ Act.runs 3 ∷ Act.aborts 2 ∷ Act.settles 1 ∷ []

acts-IsSerial_example : IsSerial (acts session_acts new_session)
acts-IsSerial_example = acts-IsSerial session_acts new_session new_session-IsSerial

abbrev no_slots : Slots
no_slots key = none

abbrev calls : List Request
calls = Request.acquires 4 ∷ Request.acquires 4 ∷ Request.acquires 4 ∷ []

requests-bounded_example : slot_count 4 (requests 2 calls no_slots) ≤ 2
unfolding slot_count
requests-bounded_example = requests-bounded 2 4 calls no_slots (ground arith)

abbrev two_slots : Slots
two_slots key = some 2

release-reopens_example :
    ((try_acquire 2 4 (release 4 two_slots)).1 ≡ true)
    × (slot_count 9 (try_acquire 2 4 (release 4 two_slots)).0 ≡ slot_count 9 two_slots)
unfolding slot_count
release-reopens_example = release-reopens 2 4 9 two_slots (ground arith) (ground arith)

abbrev turn : ConversationTurn
turn = record { prompt = 104 ∷ 105 ∷ []; response = 111 ∷ [] }

abbrev turns : List ConversationTurn
turns = turn ∷ turn ∷ []

truncate_conversation_history-bounded_example :
    (length (truncate_conversation_history turns) ≤ max_history_turns)
    × (characters_of (truncate_conversation_history turns) ≤ max_history_characters)
truncate_conversation_history-bounded_example = truncate_conversation_history-bounded turns

small_turns : characters_of turns ≤ max_history_characters
unfolding turn_characters
small_turns = ground arith

truncate_conversation_history-whole_example : truncate_conversation_history turns ≡ turns
truncate_conversation_history-whole_example =
    truncate_conversation_history-whole turns (ground arith) small_turns
