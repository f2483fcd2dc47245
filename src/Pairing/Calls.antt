-- ===== src/Pairing/Calls.antt =====
-- What each call makes of the pairings.
use mathlib.Core.List.{Memᴰ}
use cursor_gateway.Base.{
  ℕ, zero, suc, Bool, true, not, ◌&&◌, Option, ◌≡◌, refl, inl, inr, Bool-cases, Option-cases, ◌==◌,
  leb, holds, arith, Result,
}
use cursor_gateway.Text.{Text}
use cursor_gateway.Table.{update_key, insert_row, first_where, earliest_where}
use cursor_gateway.Table.Laws.{All-insert_row, first_where-mem, earliest_where-mem}
use cursor_gateway.Table.Keys.{Unique-insert_row}
use cursor_gateway.Table.Kept.{Kept-insert_row}
use cursor_gateway.Pairing.{
  PairingStart, PairingOffer, PairingComplete, PairingAck, Pairing, Directory, PairingError,
}
use cursor_gateway.Pairing.Stages.{
  pairing_key, is_pending_start, is_offer_ready, is_complete_submitted, is_paired,
  expire_stale_pairings, with_row,
}
use cursor_gateway.Pairing.Statements.{
  new_pairing, create_pairing_start, claimable_start, start_before, mark_rejected,
  mark_start_claimed, claim_attempts, claim_next_pairing_start, Users, recipient_of, offer_matches,
  mark_offered, offer_row, publish_pairing_offer, same_complete, mark_completed, store_complete,
  complete_row, submit_pairing_complete,
}
use cursor_gateway.Pairing.Register.{mark_acked, ack_row, publish_pairing_ack}
use cursor_gateway.Pairing.Moves.{Follows, Follows-refl, Follows-trans, IsConsistent}
use cursor_gateway.Pairing.Moves
use cursor_gateway.Pairing.Consistent
use cursor_gateway.Pairing.Advances.{
  IsSound, Advances, Advances-refl, Advances-trans, expire-Advances, key-Advances,
}

module _ (s : Directory) (h : IsSound s.pairings) where
  pub create-Advances :
      (now user_id ttl : ℕ) (start : PairingStart)
      → Advances s.pairings (create_pairing_start now user_id ttl start s).0.pairings
  unfolding create_pairing_start
  create-Advances now user_id ttl start =
      let row = new_pairing now user_id ttl start in
      elim (Option-cases (insert_row pairing_key row s.pairings)) [
        | inl clash ↦ rw clash (Advances-refl s.pairings h)
        | inr (rows, e) ↦ rw e (record {
          sound = record {
            distinct = Unique-insert_row pairing_key row s.pairings rows e h.distinct;
            consistent =
                All-insert_row IsConsistent pairing_key row s.pairings rows e
                  (Consistent.new_pairing-IsConsistent now user_id ttl start) h.consistent;
          };
          kept = Kept-insert_row Follows Follows-refl pairing_key row s.pairings rows e;
        })
      ]

  offer_row-Advances :
      (now runner_id : ℕ) (offer : PairingOffer) (p : Pairing)
      → Memᴰ p s.pairings
      → Advances s.pairings (offer_row now runner_id offer s p).0.pairings
  unfolding offer_row
  offer_row-Advances now runner_id offer p mem = elim (Bool-cases (leb p.expires_at now)) [
    | inl late ↦ rw late (Advances-refl s.pairings h)
    | inr timely ↦
        elim (Bool-cases (not (is_pending_start p.status) && not (is_offer_ready p.status))) [
          | inl past ↦ rw (timely, past) (Advances-refl s.pairings h)
          | inr early ↦ elim (Bool-cases (holds (λ r. not (r == runner_id)) p.runner_id)) [
            | inl other ↦ rw (timely, early, other) (Advances-refl s.pairings h)
            | inr own ↦ elim (Bool-cases (offer_matches p.start offer)) [
              | inr apart ↦ rw (timely, early, own, apart) (Advances-refl s.pairings h)
              | inl match ↦
                  rw (timely, early, own, match)
                    (key-Advances s.pairings p (mark_offered now runner_id offer) h mem (λ r. refl)
                      (Moves.offered-Follows now p runner_id offer early)
                      (λ c. Consistent.offered-IsConsistent now p c runner_id offer early))
            ]
          ]
        ]
  ]

  complete_row-Advances :
      (now : ℕ) (complete : PairingComplete) (p : Pairing)
      → Memᴰ p s.pairings
      → Advances s.pairings (complete_row now complete s p).0.pairings
  unfolding complete_row store_complete
  complete_row-Advances now complete p mem = elim (Bool-cases (leb p.expires_at now)) [
    | inl late ↦ rw late (Advances-refl s.pairings h)
    | inr timely ↦
        elim (Bool-cases (not (is_offer_ready p.status) && not (is_complete_submitted p.status))) [
          | inl off ↦ rw (timely, off) (Advances-refl s.pairings h)
          | inr due ↦ elim (Bool-cases (p.start.client_id == complete.client_id)) [
            | inr other ↦ rw (timely, due, other) (Advances-refl s.pairings h)
            | inl own ↦ elim (Option-cases p.complete) [
              | inr (existing, e) ↦
                  rw (timely, due, own, e)
                    (elim (Bool-cases (same_complete existing complete)) [
                      | inl again ↦ rw again (Advances-refl s.pairings h)
                      | inr clash ↦ rw clash (Advances-refl s.pairings h)
                    ])
              | inl e ↦
                  rw (timely, due, own, e)
                    (key-Advances s.pairings p (mark_completed now complete) h mem (λ r. refl)
                      (Moves.completed-Follows now p complete due e)
                      (λ c. Consistent.completed-IsConsistent now p c complete due))
            ]
          ]
        ]
  ]

  ack_row-Advances :
      (now runner_id : ℕ) (ack : PairingAck) (p : Pairing)
      → Memᴰ p s.pairings
      → Advances s.pairings (ack_row now runner_id ack s p).0.pairings
  unfolding ack_row mark_acked
  ack_row-Advances now runner_id ack p mem =
      elim (Bool-cases (holds (λ r. r == runner_id) p.runner_id)) [
        | inr other ↦ rw other (Advances-refl s.pairings h)
        | inl own ↦
            elim (Bool-cases (not (is_complete_submitted p.status) && not (is_paired p.status))) [
              | inl off ↦ rw (own, off) (Advances-refl s.pairings h)
              | inr due ↦
                  rw (own, due)
                    (key-Advances s.pairings p (mark_acked now ack) h mem (λ r. refl)
                      (Moves.acked-Follows now p ack due)
                      (λ c. Consistent.acked-IsConsistent now p c ack due))
            ]
      ]

  -- A call on a row that it selects.
  row-Advances :
      (test : Pairing → Bool) (f : Directory → Pairing → Directory × Result PairingError Pairing)
      → ((p : Pairing) → Memᴰ p s.pairings → Advances s.pairings (f s p).0.pairings)
      → Advances s.pairings (with_row s (first_where test s.pairings) f).0.pairings
  row-Advances test f step = elim (Option-cases (first_where test s.pairings)) [
    | inl missing ↦ rw missing (Advances-refl s.pairings h)
    | inr (p, found) ↦ rw found (step p (first_where-mem test s.pairings found).0)
  ]

  pub offer-Advances :
      (now runner_id : ℕ) (offer : PairingOffer)
      → Advances s.pairings (publish_pairing_offer now runner_id offer s).0.pairings
  unfolding publish_pairing_offer
  offer-Advances now runner_id offer =
      row-Advances (λ p. pairing_key p == offer.pair_id) (offer_row now runner_id offer)
        (offer_row-Advances now runner_id offer)

  pub complete-Advances :
      (now user_id : ℕ) (complete : PairingComplete)
      → Advances s.pairings (submit_pairing_complete now user_id complete s).0.pairings
  unfolding submit_pairing_complete
  complete-Advances now user_id complete =
      row-Advances (λ p. pairing_key p == complete.pair_id && Pairing.user_id p == user_id)
        (complete_row now complete) (complete_row-Advances now complete)

  pub ack-Advances :
      (now runner_id : ℕ) (ack : PairingAck)
      → Advances s.pairings (publish_pairing_ack now runner_id ack s).0.pairings
  unfolding publish_pairing_ack
  ack-Advances now runner_id ack =
      row-Advances (λ p. pairing_key p == ack.pair_id) (ack_row now runner_id ack)
        (ack_row-Advances now runner_id ack)

claimable_start-pending :
    (now runner_id : ℕ) (p : Pairing)
    → claimable_start now runner_id p ≡ true
    → is_pending_start p.status ≡ true
unfolding claimable_start
claimable_start-pending now runner_id p e = ground arith

attempts-Advances :
    (attempts now : ℕ) (recipient : ℕ → Option Text) (runner_id : ℕ) (s : Directory)
    → IsSound s.pairings
    → Advances s.pairings (claim_attempts attempts now recipient runner_id s).0.pairings
unfolding claim_attempts
attempts-Advances zero now recipient runner_id s h = Advances-refl s.pairings h
attempts-Advances (suc attempts) now recipient runner_id s h =
    let test = claimable_start now runner_id in
    elim (Option-cases (earliest_where test start_before s.pairings)) [
      | inl idle ↦ rw (idle, claim_attempts) (Advances-refl s.pairings h)
      | inr (p, found) ↦
          let (mem, fit) = earliest_where-mem test start_before s.pairings found in
          let pending = claimable_start-pending now runner_id p fit in
          elim (Option-cases (recipient p.user_id)) [
            | inl invalid ↦
                let once =
                  key-Advances s.pairings p (mark_rejected now) h mem (λ r. refl)
                    (Moves.rejected-Follows now p pending)
                    (Consistent.rejected-IsConsistent now p) in
                rw (found, claim_attempts, invalid)
                  (Advances-trans s.pairings _ _ once (
                    attempts-Advances attempts now recipient runner_id
                      (record s {
                        pairings = update_key pairing_key p.pair_id (mark_rejected now) s.pairings;
                      })
                      once.sound))
            | inr (email, valid) ↦
                rw (found, claim_attempts, valid)
                  (key-Advances s.pairings p (mark_start_claimed now runner_id) h mem (λ r. refl)
                    (Moves.claimed-Follows now p runner_id pending)
                    (λ c. Consistent.claimed-IsConsistent now p c runner_id))
          ]
    ]

pub claim-Advances :
    (now : ℕ) (users : Users) (runner_id : ℕ) (s : Directory)
    → IsSound s.pairings
    → Advances s.pairings (claim_next_pairing_start now users runner_id s).0.pairings
unfolding claim_next_pairing_start
claim-Advances now users runner_id s h =
    let first = expire-Advances now s h in
    Advances-trans s.pairings _ _ first (
      attempts-Advances 8 now (recipient_of users) runner_id (expire_stale_pairings now s)
        first.sound)
