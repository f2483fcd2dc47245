-- ===== src/Pairing/Accepted.antt =====
-- The devices after an acknowledgement (publishPairingAck of apps/server/src/pairingDb.ts).
use mathlib.Core.List.{Memᴰ}
use cursor_gateway.Base.{
  ℕ, Bool, true, false, not, ◌&&◌, List, ◌∷◌, Option, none, some, ◌≡◌, refl, sym, ap, inl, inr, All,
  Bool-cases, Option-cases, ==_iff, ◌==◌, holds, arith,
}
use cursor_gateway.Table.{update_key, first_where}
use cursor_gateway.Table.Laws.{
  All-at, All-map, All-upsert_row, first_where-mem, update_where-mem_changed,
}
use cursor_gateway.Table.Kept.{Kept, Kept-update_key}
use cursor_gateway.Pairing.{AckStatus, PairingAck, Pairing, Device, Directory}
use cursor_gateway.Pairing.Stages.{pairing_key, device_key, is_complete_submitted, is_paired}
use cursor_gateway.Pairing.Register.{
  acked_status, mark_acked, new_device, repaired_device, register_device, ack_row,
  publish_pairing_ack,
}
use cursor_gateway.Pairing.Moves.{Follows, Follows-refl, acked-Follows, IsConsistent}
use cursor_gateway.Pairing.Devices.{
  Acks, Backs, Backs-same, IsBackedBy, IsBackedBy-more, IsBackedBy-Kept, IsBacked,
}

own_runner : (o : Option ℕ) (k : ℕ) → holds (λ r. r == k) o ≡ true → o ≡ some k
own_runner none k e = absurd (cc)
own_runner (some r) k e = ap some ((==_iff r k).0 e)

Backs-repaired :
    (acks : Acks) (p : Pairing) (d e : Device)
    → Backs acks p d
    → e.client_id ≡ d.client_id
    → Backs acks p (repaired_device d e)
unfolding repaired_device
Backs-repaired acks p d e b same =
    Backs-same acks p d (repaired_device d e) b same refl refl refl refl

-- The devices after an acknowledgement, when the new one is backed.
register_device-backed :
    (acks : Acks) (t : List Pairing) (status : AckStatus) (d : Device) (devices : List Device)
    → (status ≡ AckStatus.ack_paired → IsBackedBy acks t d)
    → All (IsBackedBy acks t) devices
    → All (IsBackedBy acks t) (register_device status d devices)
unfolding register_device
register_device-backed acks t AckStatus.ack_paired d devices new old =
    let (p, m, b) = new refl in
    All-upsert_row (IsBackedBy acks t) device_key d (repaired_device d) devices (p, m, b)
      (λ e same. (p, m, Backs-repaired acks p d e b same)) old
register_device-backed acks t AckStatus.ack_rejected d devices new old = old

acked-Backs :
    (acks : Acks) (now runner_id : ℕ) (ack : PairingAck) (p : Pairing)
    → IsConsistent p
    → ack.pair_id ≡ p.pair_id
    → ack.status ≡ AckStatus.ack_paired
    → holds (λ r. r == runner_id) p.runner_id ≡ true
    → (not (is_complete_submitted p.status) && not (is_paired p.status)) ≡ false
    → Backs
        ((runner_id, ack) ∷ acks)
        (mark_acked now ack p)
        (new_device now runner_id ack.client_id p)
unfolding mark_acked new_device acked_status
acked-Backs acks now runner_id ack p c pair ok own due = record {
  completed = c.completed (ground (arith, due));
  acked = ground arith;
  accepted = (ack, Memᴰ.head refl, pair, refl, ok);
  same_user = refl;
  same_runner = own_runner p.runner_id runner_id own;
  same_signing_key = refl;
  same_encryption_key = refl;
}

ack_row-backed :
    (acks : Acks) (now runner_id : ℕ) (ack : PairingAck) (s : Directory) (p : Pairing)
    → IsBacked acks s
    → Memᴰ p s.pairings
    → ack.pair_id ≡ p.pair_id
    → All
        (IsBackedBy ((runner_id, ack) ∷ acks) (ack_row now runner_id ack s p).0.pairings)
        (ack_row now runner_id ack s p).0.devices
unfolding ack_row update_key
ack_row-backed acks now runner_id ack s p h mem pair =
    let sent = (runner_id, ack) ∷ acks in
    let before : All (IsBackedBy sent s.pairings) s.devices =
      All-map (IsBackedBy acks s.pairings) (IsBackedBy sent s.pairings)
        (IsBackedBy-more (runner_id, ack) acks s.pairings) s.devices h.backed in
    elim (Bool-cases (holds (λ r. r == runner_id) p.runner_id)) [
      | inr other ↦ rw other before
      | inl own ↦
          elim (Bool-cases (not (is_complete_submitted p.status) && not (is_paired p.status))) [
            | inl off ↦ rw (own, off) before
            | inr due ↦
                let c = All-at IsConsistent s.pairings h.sound.consistent p mem in
                let table = update_key pairing_key p.pair_id (mark_acked now ack) s.pairings in
                let kept : Kept Follows s.pairings table =
                  Kept-update_key Follows Follows-refl pairing_key s.pairings h.sound.distinct p
                    (mark_acked now ack) mem (acked-Follows now p ack due) in
                let there : Memᴰ (mark_acked now ack p) table =
                  update_where-mem_changed (λ r. pairing_key r == p.pair_id) (mark_acked now ack)
                    s.pairings mem ((==_iff _ _).1 refl) in
                rw (own, due)
                  (register_device-backed sent table ack.status
                    (new_device now runner_id ack.client_id p) s.devices
                    (λ ok. (
                      mark_acked now ack p,
                      there,
                      acked-Backs acks now runner_id ack p c pair ok own due,
                    ))
                    (All-map (IsBackedBy sent s.pairings) (IsBackedBy sent table)
                      (IsBackedBy-Kept sent s.pairings table kept) s.devices before))
          ]
    ]

pub ack-backed :
    (acks : Acks) (now runner_id : ℕ) (ack : PairingAck) (s : Directory)
    → IsBacked acks s
    → All
        (IsBackedBy ((runner_id, ack) ∷ acks) (publish_pairing_ack now runner_id ack s).0.pairings)
        (publish_pairing_ack now runner_id ack s).0.devices
unfolding publish_pairing_ack
ack-backed acks now runner_id ack s h =
    let test : Pairing → Bool = λ p. pairing_key p == ack.pair_id in
    elim (Option-cases (first_where test s.pairings)) [
      | inl missing ↦ rw missing (
          All-map (IsBackedBy acks s.pairings) (IsBackedBy ((runner_id, ack) ∷ acks) s.pairings)
            (IsBackedBy-more (runner_id, ack) acks s.pairings) s.devices h.backed)
      | inr (p, found) ↦
          let (mem, own) = first_where-mem test s.pairings found in
          rw found (ack_row-backed acks now runner_id ack s p h mem (sym ((==_iff _ _).0 own)))
    ]
