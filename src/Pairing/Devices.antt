-- ===== src/Pairing/Devices.antt =====
-- Where the devices come from.
use mathlib.Core.List.{Memᴰ}
use cursor_gateway.Base.{
  ℕ, Bool, true, false, List, ◌∷◌, some, is_some, ◌≡◌, sym, ap, ◌∙◌, All, arith,
}
use cursor_gateway.Table.Kept.{Kept}
use cursor_gateway.Pairing.{PairingStatus, AckStatus, PairingAck, Pairing, Device, Directory}
use cursor_gateway.Pairing.Moves.{may_become, Follows}
use cursor_gateway.Pairing.Advances.{IsSound}

-- A runner has acknowledged the pairing.
abbrev pub is_acked : PairingStatus → Bool
is_acked PairingStatus.pending_start = false
is_acked PairingStatus.offer_ready = false
is_acked PairingStatus.complete_submitted = false
is_acked PairingStatus.paired = true
is_acked PairingStatus.rejected = true
is_acked PairingStatus.expired = false

-- The acknowledgements that runners have sent: each with the runner, the last one first.
abbrev pub Acks : Type 0
Acks = List (ℕ × PairingAck)

-- The runner of the device has sent an acknowledgement that accepts the pairing for the device.
abbrev pub IsAccepted : Acks → Pairing → Device → Type 0
IsAccepted acks p d =
    (ack : PairingAck) × Memᴰ (d.runner_id, ack) acks
    × (ack.pair_id ≡ p.pair_id)
    × (ack.client_id ≡ d.client_id)
    × (ack.status ≡ AckStatus.ack_paired)

-- A device and the pairing that it comes from: its user has completed the pairing, its runner has
-- accepted it, and it has the keys of the pairing's start.
pub record Backs (acks : Acks) (p : Pairing) (d : Device) : Type 0 where
  pub completed : is_some p.complete ≡ true
  pub acked : is_acked p.status ≡ true
  pub accepted : IsAccepted acks p d
  pub same_user : d.user_id ≡ p.user_id
  pub same_runner : p.runner_id ≡ some d.runner_id
  pub same_signing_key : d.signing_key ≡ p.start.signing_key
  pub same_encryption_key : d.encryption_key ≡ p.start.encryption_key

abbrev pub IsBackedBy : Acks → List Pairing → Device → Type 0
IsBackedBy acks t d = (p : Pairing) × Memᴰ p t × Backs acks p d

-- A change of a device that leaves what `Backs` reads.
pub Backs-same :
    (acks : Acks) (p : Pairing) (d e : Device)
    → Backs acks p d
    → e.client_id ≡ d.client_id
    → e.user_id ≡ d.user_id
    → e.runner_id ≡ d.runner_id
    → e.signing_key ≡ d.signing_key
    → e.encryption_key ≡ d.encryption_key
    → Backs acks p e
Backs-same acks p d e b client user runner signing encryption =
    let (ack, sent, pair, same, ok) = b.accepted in
    record {
      completed = b.completed;
      acked = b.acked;
      accepted = (ack, rw runner sent, pair, same ∙ sym client, ok);
      same_user = user ∙ b.same_user;
      same_runner = b.same_runner ∙ ap some (sym runner);
      same_signing_key = signing ∙ b.same_signing_key;
      same_encryption_key = encryption ∙ b.same_encryption_key;
    }

-- One more acknowledgement leaves a device backed.
pub IsBackedBy-more :
    (a : ℕ × PairingAck) (acks : Acks) (t : List Pairing) (d : Device)
    → IsBackedBy acks t d
    → IsBackedBy (a ∷ acks) t d
IsBackedBy-more a acks t d (p, m, b) =
    let (ack, sent, pair, same, ok) = b.accepted in
    (
      p,
      m,
      record {
        completed = b.completed;
        acked = b.acked;
        accepted = (ack, Memᴰ.tail sent, pair, same, ok);
        same_user = b.same_user;
        same_runner = b.same_runner;
        same_signing_key = b.same_signing_key;
        same_encryption_key = b.same_encryption_key;
      },
    )

may_become-acked :
    (a b : PairingStatus) → may_become a b ≡ true → is_acked a ≡ true → is_acked b ≡ true
unfolding may_become
may_become-acked a b h k = ground (arith, h, k)

Backs-Follows :
    (acks : Acks) (p q : Pairing) (d : Device) → Follows p q → Backs acks p d → Backs acks q d
Backs-Follows acks p q d f b =
    let (ack, sent, pair, same, ok) = b.accepted in
    record {
      accepted = (ack, sent, pair ∙ sym f.same_id, same, ok);
      completed = ap is_some (f.same_complete b.completed) ∙ b.completed;
      acked = may_become-acked p.status q.status f.forward b.acked;
      same_user = b.same_user ∙ sym f.same_user;
      same_runner = f.same_runner (ground (arith, b.acked)) ∙ b.same_runner;
      same_signing_key = rw f.same_start b.same_signing_key;
      same_encryption_key = rw f.same_start b.same_encryption_key;
    }

pub IsBackedBy-Kept :
    (acks : Acks) (t u : List Pairing)
    → Kept Follows t u
    → (d : Device) → IsBackedBy acks t d
    → IsBackedBy acks u d
IsBackedBy-Kept acks t u kept d (p, m, b) =
    let (q, n, f) = kept p m in (q, n, Backs-Follows acks p q d f b)

-- A state of which every device comes from a pairing, with the acknowledgements sent so far.
pub record IsBacked (acks : Acks) (s : Directory) : Type 0 where
  pub sound : IsSound s.pairings
  pub backed : All (IsBackedBy acks s.pairings) s.devices
