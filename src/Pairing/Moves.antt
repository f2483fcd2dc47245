-- ===== src/Pairing/Moves.antt =====
-- What a call can make of a pairing.
use cursor_gateway.Base.{
  ℕ, Bool, true, false, not, ◌&&◌, ◌||◌, none, is_some, ◌≡◌, refl, ◌∙◌, ap, arith,
}
use cursor_gateway.Pairing.{PairingStatus, PairingOffer, PairingComplete, PairingAck, Pairing}
use cursor_gateway.Pairing.Stages.{
  is_open, is_pending_start, is_offer_ready, is_complete_submitted, is_paired, mark_expired,
}
use cursor_gateway.Pairing.Statements.{
  mark_rejected, mark_start_claimed, mark_offered, mark_completed,
}
use cursor_gateway.Pairing.Register.{acked_status, mark_acked}

-- How far a pairing has come.
abbrev pub is_answered : PairingStatus → Bool
is_answered PairingStatus.pending_start = false
is_answered PairingStatus.offer_ready = false
is_answered PairingStatus.complete_submitted = true
is_answered PairingStatus.paired = true
is_answered PairingStatus.rejected = true
is_answered PairingStatus.expired = true

-- The status diagram, closed under steps: each status with those that come after it.
unfoldable pub may_become : PairingStatus → PairingStatus → Bool
may_become PairingStatus.pending_start s = true
may_become PairingStatus.offer_ready s = not (is_pending_start s)
may_become PairingStatus.complete_submitted s = is_answered s
may_become PairingStatus.paired PairingStatus.pending_start = false
may_become PairingStatus.paired PairingStatus.offer_ready = false
may_become PairingStatus.paired PairingStatus.complete_submitted = false
may_become PairingStatus.paired PairingStatus.paired = true
may_become PairingStatus.paired PairingStatus.rejected = true
may_become PairingStatus.paired PairingStatus.expired = false
may_become PairingStatus.rejected PairingStatus.pending_start = false
may_become PairingStatus.rejected PairingStatus.offer_ready = false
may_become PairingStatus.rejected PairingStatus.complete_submitted = false
may_become PairingStatus.rejected PairingStatus.paired = false
may_become PairingStatus.rejected PairingStatus.rejected = true
may_become PairingStatus.rejected PairingStatus.expired = false
may_become PairingStatus.expired PairingStatus.pending_start = false
may_become PairingStatus.expired PairingStatus.offer_ready = false
may_become PairingStatus.expired PairingStatus.complete_submitted = false
may_become PairingStatus.expired PairingStatus.paired = false
may_become PairingStatus.expired PairingStatus.rejected = false
may_become PairingStatus.expired PairingStatus.expired = true

may_become_refl : (s : PairingStatus) → may_become s s ≡ true
unfolding may_become
may_become_refl s = ground arith

may_become_trans :
    (a b c : PairingStatus) → may_become a b ≡ true → may_become b c ≡ true → may_become a c ≡ true
unfolding may_become
may_become_trans a b c h k = ground (arith, h, k)

may_become-answered :
    (a b : PairingStatus) → may_become a b ≡ true → is_answered a ≡ true → is_answered b ≡ true
unfolding may_become
may_become-answered a b h k = ground (arith, h, k)

-- What a pairing keeps: its user, its start, the envelope that completed it, and from then on its
-- runner. Its status only goes forward.
pub record Follows (p q : Pairing) : Type 0 where
  pub same_id : q.pair_id ≡ p.pair_id
  pub same_user : q.user_id ≡ p.user_id
  pub same_start : q.start ≡ p.start
  pub forward : may_become p.status q.status ≡ true
  pub same_complete : is_some p.complete ≡ true → q.complete ≡ p.complete
  pub same_runner : is_answered p.status ≡ true → q.runner_id ≡ p.runner_id

pub Follows-refl : (p : Pairing) → Follows p p
Follows-refl p = record {
  same_id = refl;
  same_user = refl;
  same_start = refl;
  forward = may_become_refl p.status;
  same_complete = λ h. refl;
  same_runner = λ h. refl;
}

pub Follows-trans : (a b c : Pairing) → Follows a b → Follows b c → Follows a c
Follows-trans a b c f g = record {
  same_id = g.same_id ∙ f.same_id;
  same_user = g.same_user ∙ f.same_user;
  same_start = g.same_start ∙ f.same_start;
  forward = may_become_trans a.status b.status c.status f.forward g.forward;
  same_complete = λ h. g.same_complete (ap is_some (f.same_complete h) ∙ h) ∙ f.same_complete h;
  same_runner =
      λ h. g.same_runner (may_become-answered a.status b.status f.forward h) ∙ f.same_runner h;
}

-- A pairing that its user has completed has the envelope and a runner.
pub record IsConsistent (p : Pairing) : Type 0 where
  pub completed :
      (is_complete_submitted p.status || is_paired p.status) ≡ true → is_some p.complete ≡ true
  pub served :
      (is_offer_ready p.status || is_complete_submitted p.status || is_paired p.status) ≡ true
      → is_some p.runner_id ≡ true
  pub fresh : is_some p.complete ≡ true → is_answered p.status ≡ true

module _ (now : ℕ) (p : Pairing) where
  pub expired-Follows : is_open p.status ≡ true → Follows p (mark_expired now p)
  unfolding may_become
  expired-Follows h = record {
    same_id = refl;
    same_user = refl;
    same_start = refl;
    forward = ground (arith, h);
    same_complete = λ e. refl;
    same_runner = λ e. refl;
  }

  pub rejected-Follows : is_pending_start p.status ≡ true → Follows p (mark_rejected now p)
  unfolding may_become
  rejected-Follows h = record {
    same_id = refl;
    same_user = refl;
    same_start = refl;
    forward = ground (arith, h);
    same_complete = λ e. refl;
    same_runner = λ e. refl;
  }

  pub claimed-Follows :
      (runner_id : ℕ)
      → is_pending_start p.status ≡ true
      → Follows p (mark_start_claimed now runner_id p)
  unfolding may_become
  claimed-Follows runner_id h = record {
    same_id = refl;
    same_user = refl;
    same_start = refl;
    forward = ground (arith, h);
    same_complete = λ e. refl;
    same_runner = λ e. absurd (ground (arith, h, e));
  }

  pub offered-Follows :
      (runner_id : ℕ) (offer : PairingOffer)
      → (not (is_pending_start p.status) && not (is_offer_ready p.status)) ≡ false
      → Follows p (mark_offered now runner_id offer p)
  unfolding may_become
  offered-Follows runner_id offer h = record {
    same_id = refl;
    same_user = refl;
    same_start = refl;
    forward = ground (arith, h);
    same_complete = λ e. refl;
    same_runner = λ e. absurd (ground (arith, h, e));
  }

  pub completed-Follows :
      (complete : PairingComplete)
      → (not (is_offer_ready p.status) && not (is_complete_submitted p.status)) ≡ false
      → p.complete ≡ none
      → Follows p (mark_completed now complete p)
  unfolding may_become
  completed-Follows complete h missing = record {
    same_id = refl;
    same_user = refl;
    same_start = refl;
    forward = ground (arith, h);
    same_complete = λ e. absurd (ground (arith, e, missing));
    same_runner = λ e. refl;
  }

  pub acked-Follows :
      (ack : PairingAck)
      → (not (is_complete_submitted p.status) && not (is_paired p.status)) ≡ false
      → Follows p (mark_acked now ack p)
  unfolding may_become acked_status mark_acked
  acked-Follows ack h = record {
    same_id = refl;
    same_user = refl;
    same_start = refl;
    forward = ground (arith, h);
    same_complete = λ e. refl;
    same_runner = λ e. refl;
  }
