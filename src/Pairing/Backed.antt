-- ===== src/Pairing/Backed.antt =====
-- Every device comes from a pairing that its user completed and its runner accepted.
use cursor_gateway.Base.{
  All, ℕ, zero, suc, Bool, List, [], ◌∷◌, Option, none, some, ◌≡◌, refl, inl, inr, Option-cases,
  ◌==◌, ◌&&◌, arith, Result,
}
use cursor_gateway.Text.{Text}
use cursor_gateway.Table.{update_key, first_where, earliest_where, insert_row, update_returning}
use cursor_gateway.Table.Laws.{All-update_where, All-map}
use cursor_gateway.Pairing.{
  PairingOffer, PairingComplete, PairingStart, Pairing, Device, Directory, PairingError,
}
use cursor_gateway.Pairing.Stages.{pairing_key, with_row, expire_stale_pairings}
use cursor_gateway.Pairing.Statements.{
  new_pairing, create_pairing_start, get_pairing_for_user, claimable_start, start_before,
  mark_rejected, claim_attempts, claim_next_pairing_start, recipient_of, offer_row,
  publish_pairing_offer, store_complete, complete_row, submit_pairing_complete,
}
use cursor_gateway.Pairing.Register.{
  claim_next_pairing_complete, mark_revoked, mark_forgotten, revoke_device_for_user,
  mark_runner_revoked,
}
use cursor_gateway.Pairing.Trace.{Call, call, call-Advances}
use cursor_gateway.Pairing.Devices.{Acks, Backs, Backs-same, IsBackedBy, IsBackedBy-Kept, IsBacked}
use cursor_gateway.Pairing.Accepted.{ack-backed}
use cursor_gateway.Table.{update_where}

create-devices :
    (now user_id ttl : ℕ) (start : PairingStart) (s : Directory)
    → (create_pairing_start now user_id ttl start s).0.devices ≡ s.devices
unfolding create_pairing_start
create-devices now user_id ttl start s =
    elim (Option-cases (insert_row pairing_key (new_pairing now user_id ttl start) s.pairings)) [
      | inl clash ↦ rw clash refl
      | inr (rows, e) ↦ rw e refl
    ]

offer_row-devices :
    (now runner_id : ℕ) (offer : PairingOffer) (s : Directory) (p : Pairing)
    → (offer_row now runner_id offer s p).0.devices ≡ s.devices
unfolding offer_row
offer_row-devices now runner_id offer s p = ground arith

store_complete-devices :
    (now : ℕ) (complete : PairingComplete) (s : Directory) (p : Pairing)
    (o : Option PairingComplete)
    → (store_complete now complete s p o).0.devices ≡ s.devices
unfolding store_complete
store_complete-devices now complete s p none = refl
store_complete-devices now complete s p (some existing) = ground arith

complete_row-devices :
    (now : ℕ) (complete : PairingComplete) (s : Directory) (p : Pairing)
    → (complete_row now complete s p).0.devices ≡ s.devices
unfolding complete_row
complete_row-devices now complete s p =
    ground (arith, store_complete-devices now complete s p p.complete)

row-devices :
    (s : Directory) (test : Pairing → Bool)
    (f : Directory → Pairing → Directory × Result PairingError Pairing)
    → ((p : Pairing) → (f s p).0.devices ≡ s.devices)
    → (with_row s (first_where test s.pairings) f).0.devices ≡ s.devices
row-devices s test f same = elim (Option-cases (first_where test s.pairings)) [
  | inl missing ↦ rw missing refl
  | inr (p, found) ↦ rw found (same p)
]

attempts-devices :
    (attempts now : ℕ) (recipient : ℕ → Option Text) (runner_id : ℕ) (s : Directory)
    → (claim_attempts attempts now recipient runner_id s).0.devices ≡ s.devices
unfolding claim_attempts
attempts-devices zero now recipient runner_id s = refl
attempts-devices (suc attempts) now recipient runner_id s =
    elim (Option-cases (earliest_where (claimable_start now runner_id) start_before s.pairings)) [
      | inl idle ↦ rw (idle, claim_attempts) refl
      | inr (p, found) ↦ elim (Option-cases (recipient p.user_id)) [
        | inl invalid ↦
            rw (found, claim_attempts, invalid)
              (attempts-devices attempts now recipient runner_id (record s {
                pairings = update_key pairing_key p.pair_id (mark_rejected now) s.pairings;
              }))
        | inr (email, valid) ↦ rw (found, claim_attempts, valid) refl
      ]
    ]

-- The acknowledgements that the calls send, before those sent already.
unfoldable pub acks_with : Call → Acks → Acks
acks_with (Call.publish_ack now runner_id ack) acks = (runner_id, ack) ∷ acks
acks_with _ acks = acks

unfoldable pub acks_after : List Call → Acks → Acks
unfolding acks_with
acks_after [] acks = acks
acks_after (c ∷ cs) acks = acks_after cs (acks_with c acks)

module _ (acks : Acks) (c : Call) (s : Directory) (h : IsBacked acks s) where
  -- A call that leaves the devices.
  kept-IsBacked : (call c s).devices ≡ s.devices → IsBacked acks (call c s)
  kept-IsBacked same =
      let a = call-Advances c s h.sound in
      record {
        sound = a.sound;
        backed = rw same (
            All-map (IsBackedBy acks s.pairings) (IsBackedBy acks (call c s).pairings)
              (IsBackedBy-Kept acks s.pairings (call c s).pairings a.kept) s.devices h.backed);
      }

  -- A change of devices alone.
  changed-IsBacked :
      (test : Device → Bool) (change : Device → Device)
      → ((p : Pairing) (d : Device) → Backs acks p d → Backs acks p (change d))
      → All (IsBackedBy acks s.pairings) (update_where test change s.devices)
  changed-IsBacked test change step =
      All-update_where (IsBackedBy acks s.pairings) test change s.devices
        (λ d m (p, n, b) e. (p, n, step p d b)) h.backed

pub call-IsBacked :
    (acks : Acks) (c : Call) (s : Directory)
    → IsBacked acks s
    → IsBacked (acks_with c acks) (call c s)
unfolding call get_pairing_for_user claim_next_pairing_start publish_pairing_offer
    submit_pairing_complete claim_next_pairing_complete expire_stale_pairings revoke_device_for_user
    mark_runner_revoked update_returning acks_with
call-IsBacked acks (Call.create now user_id ttl start) s h =
    kept-IsBacked acks (Call.create now user_id ttl start) s h
      (create-devices now user_id ttl start s)
call-IsBacked acks (Call.get now pair_id user_id) s h =
    kept-IsBacked acks (Call.get now pair_id user_id) s h refl
call-IsBacked acks (Call.claim_start now users runner_id) s h =
    kept-IsBacked acks (Call.claim_start now users runner_id) s h
      (attempts-devices 8 now (recipient_of users) runner_id (expire_stale_pairings now s))
call-IsBacked acks (Call.publish_offer now runner_id offer) s h =
    kept-IsBacked acks (Call.publish_offer now runner_id offer) s h
      (row-devices s _ _ (offer_row-devices now runner_id offer s))
call-IsBacked acks (Call.submit_complete now user_id complete) s h =
    kept-IsBacked acks (Call.submit_complete now user_id complete) s h
      (row-devices s _ _ (complete_row-devices now complete s))
call-IsBacked acks (Call.claim_complete now runner_id) s h =
    kept-IsBacked acks (Call.claim_complete now runner_id) s h refl
call-IsBacked acks (Call.publish_ack now runner_id ack) s h = record {
  sound = (call-Advances (Call.publish_ack now runner_id ack) s h.sound).sound;
  backed = ack-backed acks now runner_id ack s h;
}
call-IsBacked acks (Call.revoke_device now user_id client_id) s h = record {
  sound = h.sound;
  backed =
      changed-IsBacked acks (Call.revoke_device now user_id client_id) s h
        (λ d. Device.user_id d == user_id && Device.client_id d == client_id) (mark_revoked now)
        (λ p d b. Backs-same acks p d (mark_revoked now d) b refl refl refl refl refl);
}
call-IsBacked acks (Call.mark_revoked_on_runner now runner_id client_id) s h = record {
  sound = h.sound;
  backed =
      changed-IsBacked acks (Call.mark_revoked_on_runner now runner_id client_id) s h
        (λ d. Device.runner_id d == runner_id && Device.client_id d == client_id)
        (mark_forgotten now)
        (λ p d b. Backs-same acks p d (mark_forgotten now d) b refl refl refl refl refl);
}
