-- ===== src/Pairing/Register.antt =====
-- The acknowledgement of a runner and the devices: apps/server/src/pairingDb.ts.
use cursor_gateway.Base.{
  ℕ, not, ◌&&◌, Option, none, some, List, ltb, ◌==◌, holds, if◌then◌else◌, Result, ok, err, is_none,
  is_some, coalesce,
}
use cursor_gateway.Table.{
  update_where, update_key, first_where, earliest_where, upsert_row, rows_where, update_returning,
}
use cursor_gateway.Pairing.{
  PairingStatus, AckStatus, PairingAck, Pairing, Device, Directory, PairingError,
}
use cursor_gateway.Pairing.Stages.{
  pairing_key, device_key, is_complete_submitted, is_paired, expire_stale_pairings, with_row,
  updated_before,
}

-- `claimNextPairingComplete`
unfoldable pub claim_next_pairing_complete :
    (now runner_id : ℕ) → Directory → Directory × Option Pairing
unfolding expire_stale_pairings earliest_where
claim_next_pairing_complete now runner_id s =
    let t = expire_stale_pairings now s in
    (
      t,
      earliest_where
          (λ p.
            is_complete_submitted (Pairing.status p)
            && holds (λ r. r == runner_id) (Pairing.runner_id p)
            && ltb now (Pairing.expires_at p))
          updated_before t.pairings,
    )

unfoldable pub acked_status : AckStatus → PairingStatus
acked_status AckStatus.ack_paired = PairingStatus.paired
acked_status AckStatus.ack_rejected = PairingStatus.rejected

unfoldable pub mark_acked : (now : ℕ) → PairingAck → Pairing → Pairing
unfolding acked_status
mark_acked now ack p = record p {
  status = acked_status ack.status;
  ack = some ack;
  updated_at = now;
}

-- The row that is inserted for a paired device.
unfoldable pub new_device : (now runner_id client_id : ℕ) → Pairing → Device
new_device now runner_id client_id p = record {
  client_id = client_id;
  user_id = p.user_id;
  runner_id = runner_id;
  signing_key = p.start.signing_key;
  encryption_key = p.start.encryption_key;
  paired_at = now;
  revoked_at = none;
  runner_revoked_at = none;
  updated_at = now;
}

-- `on conflict (client_id) do update`, which leaves `runner_revoked_at`.
unfoldable pub repaired_device : Device → Device → Device
repaired_device excluded d = record d {
  user_id = excluded.user_id;
  runner_id = excluded.runner_id;
  signing_key = excluded.signing_key;
  encryption_key = excluded.encryption_key;
  paired_at = excluded.paired_at;
  revoked_at = none;
  updated_at = excluded.updated_at;
}

unfoldable pub register_device : AckStatus → Device → List Device → List Device
unfolding upsert_row repaired_device
register_device AckStatus.ack_paired d devices = upsert_row device_key d (repaired_device d) devices
register_device AckStatus.ack_rejected d devices = devices

unfoldable pub ack_row :
    (now runner_id : ℕ) → PairingAck → Directory → Pairing → Directory × Result PairingError Pairing
unfolding update_key register_device new_device mark_acked
ack_row now runner_id ack s p =
    if not (holds (λ r. r == runner_id) p.runner_id)
    then (s, err PairingError.pairing_runner_mismatch)
    else if not (is_complete_submitted p.status) && not (is_paired p.status)
    then (s, err PairingError.pairing_status_invalid)
    else (
      record {
        pairings = update_key pairing_key p.pair_id (mark_acked now ack) s.pairings;
        devices = register_device ack.status (new_device now runner_id ack.client_id p) s.devices;
      },
      ok (mark_acked now ack p),
    )

-- `publishPairingAck`
unfoldable pub publish_pairing_ack :
    (now runner_id : ℕ) → PairingAck → Directory → Directory × Result PairingError Pairing
unfolding ack_row first_where
publish_pairing_ack now runner_id ack s =
    with_row s (first_where (λ p. pairing_key p == ack.pair_id) s.pairings)
      (ack_row now runner_id ack)

-- `listDevicesForUser`, without its order.
unfoldable pub list_devices_for_user : (user_id : ℕ) → Directory → List Device
unfolding rows_where
list_devices_for_user user_id s = rows_where (λ d. Device.user_id d == user_id) s.devices

abbrev pub mark_revoked : (now : ℕ) → Device → Device
mark_revoked now d = record d { revoked_at = some (coalesce d.revoked_at now); updated_at = now }

-- `revokeDeviceForUser`
unfoldable pub revoke_device_for_user :
    (now user_id client_id : ℕ) → Directory → Directory × Option Device
unfolding update_returning
revoke_device_for_user now user_id client_id s =
    let (devices, row) =
      update_returning (λ d. Device.user_id d == user_id && Device.client_id d == client_id)
        (mark_revoked now) s.devices in
    (record s { devices = devices }, row)

-- `listPendingRevocations`, without its order.
unfoldable pub list_pending_revocations : (runner_id : ℕ) → Directory → List Device
unfolding rows_where
list_pending_revocations runner_id s =
    rows_where
      (λ d.
        Device.runner_id d == runner_id
        && is_some (Device.revoked_at d)
        && is_none (Device.runner_revoked_at d))
      s.devices

abbrev pub mark_forgotten : (now : ℕ) → Device → Device
mark_forgotten now d = record d { runner_revoked_at = some now; updated_at = now }

-- `markRunnerRevoked`
unfoldable pub mark_runner_revoked : (now runner_id client_id : ℕ) → Directory → Directory
unfolding update_where
mark_runner_revoked now runner_id client_id s = record s {
  devices =
      update_where (λ d. Device.runner_id d == runner_id && Device.client_id d == client_id)
        (mark_forgotten now) s.devices;
}
