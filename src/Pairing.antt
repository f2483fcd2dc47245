-- ===== src/Pairing.antt =====
-- Pairings of a browser with a runner by a mail: apps/server/src/pairingDb.ts. The two tables, and
-- the envelopes of packages/shared/src/index.ts by the fields that the server reads; `body` stands
-- for all other fields of an envelope. One call is one transaction, at one reading of the clock.
pub mod Recipient
pub mod Stages
pub mod Statements
pub mod Register
pub mod Moves
pub mod Consistent
pub mod Advances
pub mod Calls
pub mod Trace
pub mod Devices
pub mod Accepted
pub mod Backed
pub mod Complete
pub mod Address
pub mod Trusted
pub mod Served
use cursor_gateway.Base.{ℕ, Option, List}

pub data PairingStatus : Type 0 where
  pending_start offer_ready complete_submitted paired rejected expired : PairingStatus

pub record KeyDescriptor : Type 0 where
  pub key : ℕ
  pub fingerprint : ℕ

pub record PairingStart : Type 0 where
  pub pair_id : ℕ
  pub client_id : ℕ
  pub client_challenge : ℕ
  pub signing_key : KeyDescriptor
  pub encryption_key : KeyDescriptor

pub record PairingOffer : Type 0 where
  pub pair_id : ℕ
  pub client_id : ℕ
  pub client_challenge : ℕ
  pub client_signing_fingerprint : ℕ
  pub client_encryption_fingerprint : ℕ
  pub expires_at : ℕ
  pub body : ℕ

pub record PairingComplete : Type 0 where
  pub pair_id : ℕ
  pub client_id : ℕ
  pub body : ℕ

pub data AckStatus : Type 0 where
  ack_paired ack_rejected : AckStatus

pub record PairingAck : Type 0 where
  pub pair_id : ℕ
  pub client_id : ℕ
  pub status : AckStatus
  pub body : ℕ

-- A row of `e2ee_pairings`.
pub record Pairing : Type 0 where
  pub pair_id : ℕ
  pub user_id : ℕ
  pub status : PairingStatus
  pub start : PairingStart
  pub offer : Option PairingOffer
  pub complete : Option PairingComplete
  pub ack : Option PairingAck
  pub runner_id : Option ℕ
  pub expires_at : ℕ
  pub created_at : ℕ
  pub updated_at : ℕ

-- A row of `e2ee_devices`; its label is the same for all.
pub record Device : Type 0 where
  pub client_id : ℕ
  pub user_id : ℕ
  pub runner_id : ℕ
  pub signing_key : KeyDescriptor
  pub encryption_key : KeyDescriptor
  pub paired_at : ℕ
  pub revoked_at : Option ℕ
  pub runner_revoked_at : Option ℕ
  pub updated_at : ℕ

pub record Directory : Type 0 where
  pub pairings : List Pairing
  pub devices : List Device

-- The codes of a `PairingConflictError`.
pub data PairingError : Type 0 where
  pair_id_conflict pairing_not_found pairing_expired pairing_status_invalid : PairingError
  pairing_runner_mismatch pairing_offer_mismatch pairing_client_mismatch : PairingError
  pairing_complete_conflict : PairingError
