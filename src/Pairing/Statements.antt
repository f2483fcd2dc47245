-- ===== src/Pairing/Statements.antt =====
-- A pairing up to its completion: apps/server/src/pairingDb.ts. A call that throws is rolled back.
use cursor_gateway.Base.{
  ◌*◌, ℕ, zero, suc, ◌+◌, Bool, not, ◌&&◌, ◌||◌, Option, none, some, List, ltb, leb, ◌==◌, holds,
  if◌then◌else◌, Result, ok, err, is_none,
}
use cursor_gateway.Text.{Text}
use cursor_gateway.Pairing.Recipient.{RecipientError, assert_trusted_recipient_email}
use cursor_gateway.Table.{update_key, first_where, earliest_where, insert_row}
use cursor_gateway.Pairing.{
  PairingStatus, PairingStart, PairingOffer, PairingComplete, Pairing, Directory, PairingError,
}
use cursor_gateway.Pairing.Stages.{
  pairing_key, is_pending_start, is_offer_ready, is_complete_submitted, expire_stale_pairings,
  with_row,
}

-- The row that `createPairingStart` inserts.
unfoldable pub new_pairing : (now user_id ttl_seconds : ℕ) → PairingStart → Pairing
new_pairing now user_id ttl_seconds start = record {
  pair_id = start.pair_id;
  user_id = user_id;
  status = PairingStatus.pending_start;
  start = start;
  offer = none;
  complete = none;
  ack = none;
  runner_id = none;
  expires_at = now + ttl_seconds * 1000;
  created_at = now;
  updated_at = now;
}

abbrev inserted :
    Directory → Pairing → Option (List Pairing) → Directory × Result PairingError Pairing
inserted s p none = (s, err PairingError.pair_id_conflict)
inserted s p (some rows) = (record s { pairings = rows }, ok p)

-- `createPairingStart`
unfoldable pub create_pairing_start :
    (now user_id ttl_seconds : ℕ)
    → PairingStart
    → Directory
    → Directory × Result PairingError Pairing
unfolding insert_row new_pairing
create_pairing_start now user_id ttl_seconds start s =
    let row = new_pairing now user_id ttl_seconds start in
    inserted s row (insert_row pairing_key row s.pairings)

-- `getPairingForUser`
unfoldable pub get_pairing_for_user :
    (now pair_id user_id : ℕ) → Directory → Directory × Option Pairing
unfolding expire_stale_pairings first_where
get_pairing_for_user now pair_id user_id s =
    let t = expire_stale_pairings now s in
    (t, first_where (λ p. Pairing.pair_id p == pair_id && Pairing.user_id p == user_id) t.pairings)

-- Which rows a runner can claim.
unfoldable pub claimable_start : (now runner_id : ℕ) → Pairing → Bool
claimable_start now runner_id p =
    is_pending_start p.status
    && ltb now p.expires_at
    && (is_none p.runner_id || holds (λ r. r == runner_id) p.runner_id)

abbrev pub start_before : Pairing → Pairing → Bool
start_before p q = ltb p.created_at q.created_at

abbrev pub mark_rejected : (now : ℕ) → Pairing → Pairing
mark_rejected now p = record p { status = PairingStatus.rejected; updated_at = now }

abbrev pub mark_start_claimed : (now runner_id : ℕ) → Pairing → Pairing
mark_start_claimed now runner_id p = record p { runner_id = some runner_id; updated_at = now }

-- The loop of `claimNextPairingStart`. `recipient` is the recipient of the mail for a user.
unfoldable pub claim_attempts :
    (attempts : ℕ)
    → (now : ℕ) → (recipient : ℕ → Option Text) → (runner_id : ℕ) → Directory
    → Directory × Option (Pairing × Text)
unfolding claimable_start earliest_where update_key
claim_attempts zero now recipient runner_id s = (s, none)
claim_attempts (suc attempts) now recipient runner_id s =
    elim (earliest_where (claimable_start now runner_id) start_before s.pairings) [
      | none ↦ (s, none)
      | some row ↦ elim (recipient row.user_id) [
        | none ↦ claim_attempts attempts now recipient runner_id (record s {
          pairings = update_key pairing_key row.pair_id (mark_rejected now) s.pairings;
        })
        | some email ↦ (
          record s {
            pairings =
                update_key pairing_key row.pair_id (mark_start_claimed now runner_id) s.pairings;
          },
          some (mark_start_claimed now runner_id row, email),
        )
      ]
    ]

-- The mail addresses of the users (`app_users.email`), and `toLowerCase`.
pub record Users : Type 0 where
  pub email : ℕ → Option Text
  pub lower_case : Text → Text

abbrev pub accepted : Result RecipientError Text → Option Text
accepted (ok email) = some email
accepted (err e) = none

-- The recipient of the mail for a user, `none` where `assertTrustedRecipientEmail` throws.
unfoldable pub recipient_of : Users → (user_id : ℕ) → Option Text
unfolding assert_trusted_recipient_email
recipient_of users user_id =
    accepted (assert_trusted_recipient_email users.lower_case (users.email user_id))

-- `claimNextPairingStart`
unfoldable pub claim_next_pairing_start :
    (now : ℕ) → Users → (runner_id : ℕ) → Directory → Directory × Option (Pairing × Text)
unfolding expire_stale_pairings claim_attempts recipient_of
claim_next_pairing_start now users runner_id s =
    claim_attempts 8 now (recipient_of users) runner_id (expire_stale_pairings now s)

-- What an offer must repeat of the start.
unfoldable pub offer_matches : PairingStart → PairingOffer → Bool
offer_matches start offer =
    start.client_id == offer.client_id
    && start.client_challenge == offer.client_challenge
    && start.signing_key.fingerprint == offer.client_signing_fingerprint
    && start.encryption_key.fingerprint == offer.client_encryption_fingerprint

abbrev pub mark_offered : (now runner_id : ℕ) → PairingOffer → Pairing → Pairing
mark_offered now runner_id offer p = record p {
  status = PairingStatus.offer_ready;
  offer = some offer;
  runner_id = some runner_id;
  expires_at = offer.expires_at;
  updated_at = now;
}

-- The checks of `publishPairingOffer`, and its update.
unfoldable pub offer_row :
    (now runner_id : ℕ)
    → PairingOffer
    → Directory
    → Pairing
    → Directory × Result PairingError Pairing
unfolding offer_matches update_key
offer_row now runner_id offer s p =
    if leb p.expires_at now
    then (s, err PairingError.pairing_expired)
    else if not (is_pending_start p.status) && not (is_offer_ready p.status)
    then (s, err PairingError.pairing_status_invalid)
    else if holds (λ r. not (r == runner_id)) p.runner_id
    then (s, err PairingError.pairing_runner_mismatch)
    else if not (offer_matches p.start offer)
    then (s, err PairingError.pairing_offer_mismatch)
    else (
      record s {
        pairings = update_key pairing_key p.pair_id (mark_offered now runner_id offer) s.pairings;
      },
      ok (mark_offered now runner_id offer p),
    )

-- `publishPairingOffer`
unfoldable pub publish_pairing_offer :
    (now runner_id : ℕ) → PairingOffer → Directory → Directory × Result PairingError Pairing
unfolding offer_row first_where
publish_pairing_offer now runner_id offer s =
    with_row s (first_where (λ p. pairing_key p == offer.pair_id) s.pairings)
      (offer_row now runner_id offer)

-- `JSON.stringify(existing) === JSON.stringify(complete)`
unfoldable pub same_complete : PairingComplete → PairingComplete → Bool
same_complete a b = a.pair_id == b.pair_id && a.client_id == b.client_id && a.body == b.body

abbrev pub mark_completed : (now : ℕ) → PairingComplete → Pairing → Pairing
mark_completed now complete p = record p {
  status = PairingStatus.complete_submitted;
  complete = some complete;
  updated_at = now;
}

-- The end of `submitPairingComplete`, by the envelope that is stored.
unfoldable pub store_complete :
    (now : ℕ)
    → PairingComplete
    → Directory
    → Pairing
    → Option PairingComplete
    → Directory × Result PairingError Pairing
unfolding same_complete update_key
store_complete now complete s p (some existing) =
    if same_complete existing complete
    then (s, ok p)
    else (s, err PairingError.pairing_complete_conflict)
store_complete now complete s p none = (
  record s { pairings = update_key pairing_key p.pair_id (mark_completed now complete) s.pairings },
  ok (mark_completed now complete p),
)

unfoldable pub complete_row :
    (now : ℕ) → PairingComplete → Directory → Pairing → Directory × Result PairingError Pairing
unfolding store_complete
complete_row now complete s p =
    if leb p.expires_at now
    then (s, err PairingError.pairing_expired)
    else if not (is_offer_ready p.status) && not (is_complete_submitted p.status)
    then (s, err PairingError.pairing_status_invalid)
    else if not (p.start.client_id == complete.client_id)
    then (s, err PairingError.pairing_client_mismatch)
    else store_complete now complete s p p.complete

-- `submitPairingComplete`
unfoldable pub submit_pairing_complete :
    (now user_id : ℕ) → PairingComplete → Directory → Directory × Result PairingError Pairing
unfolding complete_row first_where
submit_pairing_complete now user_id complete s =
    with_row s
      (first_where (λ p. pairing_key p == complete.pair_id && Pairing.user_id p == user_id)
        s.pairings)
      (complete_row now complete)
