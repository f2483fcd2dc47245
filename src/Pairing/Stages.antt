-- ===== src/Pairing/Stages.antt =====
-- The statuses of a pairing, the expiry of stale ones, and the row that a call selects:
-- apps/server/src/pairingDb.ts.
use cursor_gateway.Base.{ℕ, Bool, true, false, ◌&&◌, Option, none, some, ltb, leb, Result, err}
use cursor_gateway.Table.{update_where}
use cursor_gateway.Pairing.{PairingStatus, Pairing, Device, Directory, PairingError}

abbrev pub pairing_key : Pairing → ℕ
pairing_key p = p.pair_id

abbrev pub device_key : Device → ℕ
device_key d = d.client_id

-- `status in ('pending_start', 'offer_ready', 'complete_submitted')`
abbrev pub is_open : PairingStatus → Bool
is_open PairingStatus.pending_start = true
is_open PairingStatus.offer_ready = true
is_open PairingStatus.complete_submitted = true
is_open PairingStatus.paired = false
is_open PairingStatus.rejected = false
is_open PairingStatus.expired = false

abbrev pub is_pending_start : PairingStatus → Bool
is_pending_start PairingStatus.pending_start = true
is_pending_start PairingStatus.offer_ready = false
is_pending_start PairingStatus.complete_submitted = false
is_pending_start PairingStatus.paired = false
is_pending_start PairingStatus.rejected = false
is_pending_start PairingStatus.expired = false

abbrev pub is_offer_ready : PairingStatus → Bool
is_offer_ready PairingStatus.pending_start = false
is_offer_ready PairingStatus.offer_ready = true
is_offer_ready PairingStatus.complete_submitted = false
is_offer_ready PairingStatus.paired = false
is_offer_ready PairingStatus.rejected = false
is_offer_ready PairingStatus.expired = false

abbrev pub is_complete_submitted : PairingStatus → Bool
is_complete_submitted PairingStatus.pending_start = false
is_complete_submitted PairingStatus.offer_ready = false
is_complete_submitted PairingStatus.complete_submitted = true
is_complete_submitted PairingStatus.paired = false
is_complete_submitted PairingStatus.rejected = false
is_complete_submitted PairingStatus.expired = false

abbrev pub is_paired : PairingStatus → Bool
is_paired PairingStatus.pending_start = false
is_paired PairingStatus.offer_ready = false
is_paired PairingStatus.complete_submitted = false
is_paired PairingStatus.paired = true
is_paired PairingStatus.rejected = false
is_paired PairingStatus.expired = false

abbrev pub mark_expired : (now : ℕ) → Pairing → Pairing
mark_expired now p = record p { status = PairingStatus.expired; updated_at = now }

abbrev pub is_stale_pairing : (now : ℕ) → Pairing → Bool
is_stale_pairing now p = is_open p.status && leb p.expires_at now

-- `expireStalePairings`
unfoldable pub expire_stale_pairings : (now : ℕ) → Directory → Directory
unfolding update_where
expire_stale_pairings now s = record s {
  pairings = update_where (is_stale_pairing now) (mark_expired now) s.pairings;
}

abbrev pub updated_before : Pairing → Pairing → Bool
updated_before p q = ltb p.updated_at q.updated_at

-- A row that is selected for an update, or `pairing_not_found`.
abbrev pub with_row :
    Directory
    → Option Pairing
    → (Directory → Pairing → Directory × Result PairingError Pairing)
    → Directory × Result PairingError Pairing
with_row s none f = (s, err PairingError.pairing_not_found)
with_row s (some p) f = f s p
