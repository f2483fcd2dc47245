-- ===== src/Pairing/Consistent.antt =====
-- What the changes of a pairing leave true of it.
use cursor_gateway.Base.{ℕ, false, not, ◌&&◌, ◌≡◌, refl, arith}
use cursor_gateway.Pairing.{PairingOffer, PairingComplete, PairingAck, Pairing, PairingStart}
use cursor_gateway.Pairing.Stages.{
  is_pending_start, is_offer_ready, is_complete_submitted, is_paired, mark_expired,
}
use cursor_gateway.Pairing.Statements.{
  new_pairing, mark_rejected, mark_start_claimed, mark_offered, mark_completed,
}
use cursor_gateway.Pairing.Register.{acked_status, mark_acked}
use cursor_gateway.Pairing.Moves.{IsConsistent}

pub new_pairing-IsConsistent :
    (now user_id ttl : ℕ) (start : PairingStart) → IsConsistent (new_pairing now user_id ttl start)
unfolding new_pairing
new_pairing-IsConsistent now user_id ttl start = record {
  completed = λ e. absurd (ground (arith, e));
  served = λ e. absurd (ground (arith, e));
  fresh = λ e. absurd (ground (arith, e));
}

module _ (now : ℕ) (p : Pairing) (c : IsConsistent p) where
  pub expired-IsConsistent : IsConsistent (mark_expired now p)
  expired-IsConsistent = record {
    completed = λ e. absurd (ground (arith, e));
    served = λ e. absurd (ground (arith, e));
    fresh = λ e. refl;
  }

  pub rejected-IsConsistent : IsConsistent (mark_rejected now p)
  rejected-IsConsistent = record {
    completed = λ e. absurd (ground (arith, e));
    served = λ e. absurd (ground (arith, e));
    fresh = λ e. refl;
  }

  pub claimed-IsConsistent : (runner_id : ℕ) → IsConsistent (mark_start_claimed now runner_id p)
  claimed-IsConsistent runner_id = record {
    completed = c.completed;
    served = λ e. refl;
    fresh = c.fresh;
  }

  pub offered-IsConsistent :
      (runner_id : ℕ) (offer : PairingOffer)
      → (not (is_pending_start p.status) && not (is_offer_ready p.status)) ≡ false
      → IsConsistent (mark_offered now runner_id offer p)
  offered-IsConsistent runner_id offer h = record {
    completed = λ e. absurd (ground (arith, e));
    served = λ e. refl;
    fresh = λ e. absurd (ground (arith, h, c.fresh e));
  }

  pub completed-IsConsistent :
      (complete : PairingComplete)
      → (not (is_offer_ready p.status) && not (is_complete_submitted p.status)) ≡ false
      → IsConsistent (mark_completed now complete p)
  completed-IsConsistent complete h = record {
    completed = λ e. refl;
    served = λ e. c.served (ground (arith, h));
    fresh = λ e. refl;
  }

  pub acked-IsConsistent :
      (ack : PairingAck)
      → (not (is_complete_submitted p.status) && not (is_paired p.status)) ≡ false
      → IsConsistent (mark_acked now ack p)
  unfolding acked_status mark_acked
  acked-IsConsistent ack h = record {
    completed = λ e. c.completed (ground (arith, h));
    served = λ e. c.served (ground (arith, h));
    fresh = λ e. ground arith;
  }
