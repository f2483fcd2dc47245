-- ===== src/Flow.antt =====
-- The onboarding of the secure web client: apps/secure-web/src/flowMachine.ts. A runner id is a
-- text; the tests of the source take a missing one and an empty one for none.
pub mod Steps
use text.Mathlib.Text.{◌==◌ as str_eq}
use cursor_gateway.Base.{
  ℕ, ◌+◌, Bool, true, false, not, Option, none, some, List, [], ◌∷◌, String, if◌then◌else◌, any,
  ◌==◌, or_else,
}

pub data PairingMethod : Type 0 where
  approval passkey runnercode recovery mail : PairingMethod

pub data Resume : Type 0 where
  resume_pairing resume_chat : Resume

pub data FlowState : Type 0 where
  access : (resume : Resume) → FlowState
  pairing : (method : Option PairingMethod) → FlowState
  verification : (method : PairingMethod) → FlowState
  complete : (runner_id : String) → FlowState
  chat : (runner_id : String) → FlowState

pub data FlowEvent : Type 0 where
  boot : (access_ready : Bool) → (runner_id : Option String) → FlowEvent
  access_ready : (runner_id : Option String) → FlowEvent
  access_expired : FlowEvent
  select_method : PairingMethod → FlowEvent
  start_verification verification_failed cancel_verification : FlowEvent
  paired : (runner_id : String) → FlowEvent
  continue_to_chat logged_out : FlowEvent

-- The state after an event, and whether the event was accepted.
abbrev pub FlowTransition : Type 0
FlowTransition = FlowState × Bool

abbrev pub initial_flow_state : FlowState
initial_flow_state = access resume_pairing

unfoldable pub paired_runner : FlowState → Option String
paired_runner (chat r) = some r
paired_runner (complete r) = some r
paired_runner _ = none

-- A runner id that is there and is not empty.
unfoldable pub truthy : Option String → Option String
truthy none = none
truthy (some r) = if str_eq r "" then none else some r

-- Into the chat with a runner, else to the choice of a method.
abbrev pub enter : Option String → FlowTransition
enter (some r) = (chat r, true)
enter none = (pairing none, true)

abbrev pub resume_with : Option String → Resume
resume_with (some r) = resume_chat
resume_with none = resume_pairing

-- `state.resume === "chat" ? pairedRunner(state) : null`
unfoldable pub resumed_runner : Resume → FlowState → Option String
unfolding paired_runner
resumed_runner resume_chat s = paired_runner s
resumed_runner resume_pairing s = none

unfoldable pub on_access_ready : Option String → FlowState → FlowTransition
unfolding truthy resumed_runner
on_access_ready r (access resume) =
    enter (truthy (or_else r (resumed_runner resume (access resume))))
on_access_ready r s = (s, false)

unfoldable pub on_access_expired : FlowState → FlowTransition
on_access_expired (chat r) = (access resume_chat, true)
on_access_expired (complete r) = (access resume_chat, true)
on_access_expired (access resume) = (access resume_pairing, false)
on_access_expired _ = (access resume_pairing, true)

unfoldable pub on_select_method : PairingMethod → FlowState → FlowTransition
on_select_method method (pairing _) = (pairing (some method), true)
on_select_method method s = (s, false)

unfoldable pub on_start_verification : FlowState → FlowTransition
on_start_verification (pairing (some method)) = (verification method, true)
on_start_verification s = (s, false)

unfoldable pub on_cancel_verification : FlowState → FlowTransition
on_cancel_verification (verification method) = (pairing (some method), true)
on_cancel_verification s = (s, false)

unfoldable pub on_paired : String → FlowState → FlowTransition
on_paired r (verification method) = (complete r, true)
on_paired r (pairing method) = (complete r, true)
on_paired r s = (s, false)

unfoldable pub on_continue : FlowState → FlowTransition
on_continue (complete r) = (chat r, true)
on_continue s = (s, false)

-- `transitionFlow`
unfoldable pub transition_flow : FlowState → FlowEvent → FlowTransition
unfolding truthy on_access_ready on_access_expired on_select_method on_start_verification
    on_cancel_verification on_paired on_continue
transition_flow s (boot false r) = (access (resume_with (truthy r)), true)
transition_flow s (boot true r) = enter (truthy r)
transition_flow s (access_ready r) = on_access_ready r s
transition_flow s access_expired = on_access_expired s
transition_flow s (select_method method) = on_select_method method s
transition_flow s start_verification = on_start_verification s
transition_flow s verification_failed = on_cancel_verification s
transition_flow s cancel_verification = on_cancel_verification s
transition_flow s (paired r) = on_paired r s
transition_flow s continue_to_chat = on_continue s
transition_flow s logged_out = (access resume_pairing, true)

-- The state after a list of events, the first one first.
unfoldable pub transitions : FlowState → List FlowEvent → FlowState
unfolding transition_flow
transitions s [] = s
transitions s (e ∷ es) = transitions ((transition_flow s e).0) es

-- `FlowStep`
pub data FlowStep : Type 0 where
  access_step pairing_step verification_step complete_step chat_step : FlowStep

-- `state.phase`
abbrev pub phase : FlowState → FlowStep
phase (access _) = access_step
phase (pairing _) = pairing_step
phase (verification _) = verification_step
phase (complete _) = complete_step
phase (chat _) = chat_step

abbrev pub flow_order : List FlowStep
flow_order = access_step ∷ pairing_step ∷ verification_step ∷ complete_step ∷ chat_step ∷ []

abbrev pub same_step : FlowStep → FlowStep → Bool
same_step access_step access_step = true
same_step pairing_step pairing_step = true
same_step verification_step verification_step = true
same_step complete_step complete_step = true
same_step chat_step chat_step = true
same_step _ _ = false

-- `steps.slice(0, steps.indexOf(step) + 1)`
unfoldable pub up_to : FlowStep → List FlowStep → List FlowStep
up_to p [] = []
up_to p (q ∷ steps) = let rest = up_to p steps in if same_step q p then q ∷ [] else q ∷ rest

unfoldable pub visible_flow_steps : FlowState → List FlowStep
unfolding up_to
visible_flow_steps s = up_to (phase s) flow_order

unfoldable pub is_flow_step_unlocked : FlowState → FlowStep → Bool
unfolding visible_flow_steps
is_flow_step_unlocked s step = any (λ q. same_step q step) (visible_flow_steps s)
