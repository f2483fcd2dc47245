-- ===== src/Flow/Steps.antt =====
-- What an event can do to the onboarding.
use cursor_gateway.Base.{
  ℕ, false, Option, none, some, List, [], ◌∷◌, String, ◌≡◌, ◌⊎◌, inl, inr, arith, leb,
}
use cursor_gateway.Flow.{
  FlowState, FlowEvent, FlowStep, access, resume_pairing, resume_chat, boot, access_ready,
  access_expired, paired, phase, is_flow_step_unlocked, visible_flow_steps, up_to, transition_flow,
  transitions, paired_runner, truthy, on_access_ready, on_access_expired, on_select_method,
  on_start_verification, on_cancel_verification, on_paired, on_continue, resumed_runner,
  initial_flow_state,
}

-- The place of a step in the order of the onboarding.
abbrev pub place : FlowStep → ℕ
place FlowStep.access_step = 0
place FlowStep.pairing_step = 1
place FlowStep.verification_step = 2
place FlowStep.complete_step = 3
place FlowStep.chat_step = 4

-- A step is unlocked exactly if it does not come after the phase of the state.
pub is_flow_step_unlocked-place :
    (s : FlowState) (step : FlowStep)
    → is_flow_step_unlocked s step ≡ leb (place step) (place (phase s))
unfolding is_flow_step_unlocked visible_flow_steps up_to
is_flow_step_unlocked-place s step = ground arith

-- An event that is not accepted leaves the state as it is, but for one: an expiry of the access
-- where the access is gone already, which forgets that the chat was to be resumed.
pub transition_flow-rejected :
    (s : FlowState) (e : FlowEvent)
    → (transition_flow s e).1 ≡ false
    → ((transition_flow s e).0 ≡ s)
      ⊎ ((e ≡ access_expired)
          × (s ≡ access resume_chat)
          × ((transition_flow s e).0 ≡ access resume_pairing))
unfolding transition_flow on_access_ready on_access_expired on_select_method on_start_verification
    on_cancel_verification on_paired on_continue
transition_flow-rejected s e h = ground arith

-- The runner that an event names.
abbrev pub named : FlowEvent → Option String
named (boot ready r) = r
named (access_ready r) = r
named (paired r) = some r
named _ = none

pub data Names (r : String) : List FlowEvent → Type 0 where
  here : {e : FlowEvent} {es : List FlowEvent} → named e ≡ some r → Names r (e ∷ es)
  there : {e : FlowEvent} {es : List FlowEvent} → Names r es → Names r (e ∷ es)

-- One event takes the runner of the state before, or the one that it names.
transition_flow-runner :
    (s : FlowState) (e : FlowEvent) (r : String)
    → paired_runner ((transition_flow s e).0) ≡ some r
    → (paired_runner s ≡ some r) ⊎ (named e ≡ some r)
unfolding transition_flow on_access_ready on_access_expired on_select_method on_start_verification
    on_cancel_verification on_paired on_continue paired_runner truthy resumed_runner
transition_flow-runner s e r h = ground arith

transitions-runner :
    (es : List FlowEvent) (s : FlowState) (r : String)
    → paired_runner (transitions s es) ≡ some r
    → (paired_runner s ≡ some r) ⊎ Names r es
unfolding transitions
transitions-runner [] s r h = inl h
transitions-runner (e ∷ es) s r h = elim (transitions-runner es ((transition_flow s e).0) r h) [
  | inr later ↦ inr (Names.there later)
  | inl now ↦ elim (transition_flow-runner s e r now) [
    | inl before ↦ inl before
    | inr this ↦ inr (Names.here this)
  ]
]

-- The chat, or the step before it, is only ever shown with a runner that some event has named: by
-- whatever events the onboarding got there from its initial state.
pub transitions-named :
    (es : List FlowEvent) (r : String)
    → paired_runner (transitions initial_flow_state es) ≡ some r
    → Names r es
unfolding paired_runner
transitions-named es r h = elim (transitions-runner es initial_flow_state r h) [
  | inl e ↦ absurd (cc)
  | inr names ↦ names
]
