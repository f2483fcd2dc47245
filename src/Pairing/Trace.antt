-- ===== src/Pairing/Trace.antt =====
-- Sequences of calls.
use cursor_gateway.Base.{ℕ, List, [], ◌∷◌}
use cursor_gateway.Pairing.{PairingStart, PairingOffer, PairingComplete, PairingAck, Directory}
use cursor_gateway.Pairing.Statements.{
  create_pairing_start, get_pairing_for_user, claim_next_pairing_start, Users,
  publish_pairing_offer, submit_pairing_complete,
}
use cursor_gateway.Pairing.Register.{
  claim_next_pairing_complete, publish_pairing_ack, revoke_device_for_user, mark_runner_revoked,
}
use cursor_gateway.Pairing.Advances.{
  IsSound, Advances, Advances-refl, Advances-trans, expire-Advances,
}
use cursor_gateway.Pairing.Calls.{
  create-Advances, claim-Advances, offer-Advances, complete-Advances, ack-Advances,
}

-- One call, with the reading of the clock that it makes.
pub data Call : Type 0 where
  create : (now user_id ttl_seconds : ℕ) → PairingStart → Call
  get : (now pair_id user_id : ℕ) → Call
  claim_start : (now : ℕ) → Users → (runner_id : ℕ) → Call
  publish_offer : (now runner_id : ℕ) → PairingOffer → Call
  submit_complete : (now user_id : ℕ) → PairingComplete → Call
  claim_complete : (now runner_id : ℕ) → Call
  publish_ack : (now runner_id : ℕ) → PairingAck → Call
  revoke_device : (now user_id client_id : ℕ) → Call
  mark_revoked_on_runner : (now runner_id client_id : ℕ) → Call

unfoldable pub call : Call → Directory → Directory
unfolding create_pairing_start get_pairing_for_user claim_next_pairing_start publish_pairing_offer
    submit_pairing_complete claim_next_pairing_complete publish_pairing_ack revoke_device_for_user
    mark_runner_revoked
call (Call.create now user_id ttl start) s = (create_pairing_start now user_id ttl start s).0
call (Call.get now pair_id user_id) s = (get_pairing_for_user now pair_id user_id s).0
call (Call.claim_start now users runner_id) s = (claim_next_pairing_start now users runner_id s).0
call (Call.publish_offer now runner_id offer) s = (publish_pairing_offer now runner_id offer s).0
call (Call.submit_complete now user_id complete) s =
    (submit_pairing_complete now user_id complete s).0
call (Call.claim_complete now runner_id) s = (claim_next_pairing_complete now runner_id s).0
call (Call.publish_ack now runner_id ack) s = (publish_pairing_ack now runner_id ack s).0
call (Call.revoke_device now user_id client_id) s =
    (revoke_device_for_user now user_id client_id s).0
call (Call.mark_revoked_on_runner now runner_id client_id) s =
    mark_runner_revoked now runner_id client_id s

unfoldable pub calls : List Call → Directory → Directory
unfolding call
calls [] s = s
calls (c ∷ cs) s = calls cs (call c s)

pub call-Advances :
    (c : Call) (s : Directory) → IsSound s.pairings → Advances s.pairings (call c s).pairings
unfolding call get_pairing_for_user claim_next_pairing_complete revoke_device_for_user
    mark_runner_revoked
call-Advances (Call.create now user_id ttl start) s h = create-Advances s h now user_id ttl start
call-Advances (Call.get now pair_id user_id) s h = expire-Advances now s h
call-Advances (Call.claim_start now users runner_id) s h = claim-Advances now users runner_id s h
call-Advances (Call.publish_offer now runner_id offer) s h = offer-Advances s h now runner_id offer
call-Advances (Call.submit_complete now user_id complete) s h =
    complete-Advances s h now user_id complete
call-Advances (Call.claim_complete now runner_id) s h = expire-Advances now s h
call-Advances (Call.publish_ack now runner_id ack) s h = ack-Advances s h now runner_id ack
call-Advances (Call.revoke_device now user_id client_id) s h = Advances-refl s.pairings h
call-Advances (Call.mark_revoked_on_runner now runner_id client_id) s h = Advances-refl s.pairings h

-- From a table with distinct ids and consistent rows on, whatever is called, the table stays so and
-- every pairing stays in it, with its user and its start; its status only goes forward, the envelope
-- that completes it never changes, and from its completion on neither does its runner.
pub calls-Advances :
    (cs : List Call) (s : Directory)
    → IsSound s.pairings
    → Advances s.pairings (calls cs s).pairings
unfolding calls
calls-Advances [] s h = Advances-refl s.pairings h
calls-Advances (c ∷ cs) s h =
    let first = call-Advances c s h in
    Advances-trans s.pairings _ _ first (calls-Advances cs (call c s) first.sound)
