-- ===== src/Pairing/Trusted.antt =====
-- Whom a claimed pairing is mailed to.
use cursor_gateway.Base.{
  ℕ, zero, suc, ◌<◌, Bool, true, false, Option, none, some, ◌⊎◌, sym, is_none, holds, ◌||◌, List,
  [], ◌∷◌, ◌≡◌, refl, ap, arith, ◌==◌, ==_iff, inl, inr, Bool-cases, Option-cases, Result, ok, err,
  some-pair_first,
}
use cursor_gateway.Text.{Text}
use mathlib.Core.List.{Memᴰ}
use cursor_gateway.Table.{earliest_where, update_key, update_where}
use cursor_gateway.Table.Laws.{earliest_where-mem}
use cursor_gateway.Pairing.Address.{IsTrusted, assert-IsTrusted}
use cursor_gateway.Pairing.{Pairing, Directory}
use cursor_gateway.Pairing.Stages.{
  pairing_key, is_pending_start, expire_stale_pairings, is_stale_pairing, mark_expired,
}
use cursor_gateway.Pairing.Statements.{
  claimable_start, start_before, mark_rejected, mark_start_claimed, claim_attempts, Users, accepted,
  recipient_of, claim_next_pairing_start,
}
use cursor_gateway.Pairing.Recipient.{RecipientError, assert_trusted_recipient_email}

recipient_of-accepted :
    (users : Users) (user_id : ℕ) (email : Text)
    → recipient_of users user_id ≡ some email
    → accepted (assert_trusted_recipient_email users.lower_case (users.email user_id)) ≡ some email
unfolding recipient_of
recipient_of-accepted users user_id email h = h

accepted_ok :
    (r : Result RecipientError Text) (email : Text) → accepted r ≡ some email → r ≡ ok email
accepted_ok (ok t) email h = let one : t ≡ email = cc in ap ok one
accepted_ok (err e) email h = absurd (cc)

-- The pairings that can still be claimed after an update were there before it, as they were.
update_where-pending :
    (test : Pairing → Bool) (change : Pairing → Pairing)
    → ((r : Pairing) → is_pending_start (change r).status ≡ false)
    → (t : List Pairing) {q : Pairing} → Memᴰ q (update_where test change t)
    → is_pending_start q.status ≡ true
    → Memᴰ q t
unfolding update_where
update_where-pending test change over [] m h = elim m [ ]
update_where-pending test change over (r ∷ t) {q} (Memᴰ.head e) h = elim (Bool-cases (test r)) [
  | inl f ↦ absurd (ground (arith, e, h, f, over r))
  | inr f ↦ Memᴰ.head (rw f at e)
]
update_where-pending test change over (r ∷ t) (Memᴰ.tail m) h =
    Memᴰ.tail (update_where-pending test change over t m h)

claimable_start-parts :
    (now runner_id : ℕ) (p : Pairing)
    → claimable_start now runner_id p ≡ true
    → (is_pending_start p.status ≡ true)
      × (now < p.expires_at)
      × ((p.runner_id ≡ none) ⊎ (p.runner_id ≡ some runner_id))
unfolding claimable_start
claimable_start-parts now runner_id p e =
    (ground arith, ground arith, free_or_own p.runner_id (ground (arith, e)))
  where
    free_or_own :
        (o : Option ℕ)
        → (is_none o || holds (λ r. r == runner_id) o) ≡ true
        → (o ≡ none) ⊎ (o ≡ some runner_id)
    free_or_own none h = inl refl
    free_or_own (some r) h = inr (ap some ((==_iff r runner_id).0 h))

-- The pairing `p` is the claim, by the runner, of the row `q`, which was still to be offered, had not
-- expired, and belonged to no other runner.
pub record IsClaimOf (now runner_id : ℕ) (q p : Pairing) : Type 0 where
  pub claimed : p ≡ mark_start_claimed now runner_id q
  pub pending : is_pending_start q.status ≡ true
  pub timely : now < q.expires_at
  pub free : (q.runner_id ≡ none) ⊎ (q.runner_id ≡ some runner_id)

attempts-trusted :
    (attempts now : ℕ) (users : Users) (runner_id : ℕ) (s : Directory) (p : Pairing) (email : Text)
    → (claim_attempts attempts now (recipient_of users) runner_id s).1 ≡ some (p, email)
    → (q : Pairing) × Memᴰ q s.pairings
      × IsClaimOf now runner_id q p
      × (assert_trusted_recipient_email users.lower_case (users.email q.user_id) ≡ ok email)
unfolding claim_attempts update_key
attempts-trusted zero now users runner_id s p email h = absurd (cc)
attempts-trusted (suc attempts) now users runner_id s p email h =
    let test = claimable_start now runner_id in
    elim (Option-cases (earliest_where test start_before s.pairings)) [
      | inl idle ↦ absurd (cc (rw (idle, claim_attempts) at h))
      | inr (q, found) ↦
          let (mem, fit) = earliest_where-mem test start_before s.pairings found in
          elim (Option-cases (recipient_of users q.user_id)) [
            | inl invalid ↦
                let (r, there, claim, checked) =
                  attempts-trusted attempts now users runner_id
                    (record s {
                      pairings = update_key pairing_key q.pair_id (mark_rejected now) s.pairings;
                    })
                    p email (rw (found, claim_attempts, invalid) at h) in
                (
                  r,
                  update_where-pending (λ u. pairing_key u == q.pair_id) (mark_rejected now)
                      (λ u. refl) s.pairings there claim.pending,
                  claim,
                  checked,
                )
            | inr (mail, valid) ↦
                let same : ◌≡◌ {A = Option (Pairing × Text)}
                    (some (mark_start_claimed now runner_id q, mail)) (some (p, email)) =
                  rw (found, claim_attempts, valid) at h in
                let one : mark_start_claimed now runner_id q ≡ p = some-pair_first same in
                let two : mail ≡ email = cc in
                let (pending, timely, free) = claimable_start-parts now runner_id q fit in
                (
                  q,
                  mem,
                  record { claimed = sym one; pending = pending; timely = timely; free = free },
                  rw (← two)
                      (accepted_ok _ mail (recipient_of-accepted users q.user_id mail valid)),
                )
          ]
    ]

-- A pairing that a runner is given is its own, not yet offered and not expired, and comes with the
-- address of its user that has passed the check: it is not empty, has at most 320 characters, all of
-- them printed ASCII, and the shape of an address. It is the claim of a pairing of the table that
-- was in the same state and belonged to this runner or to none: no runner takes another's.
pub claim_next_pairing_start-IsTrusted :
    (now : ℕ) (users : Users) (runner_id : ℕ) (s : Directory) (p : Pairing) (email : Text)
    → (claim_next_pairing_start now users runner_id s).1 ≡ some (p, email)
    → (p.runner_id ≡ some runner_id)
      × (is_pending_start p.status ≡ true)
      × (now < p.expires_at)
      × (assert_trusted_recipient_email users.lower_case (users.email p.user_id) ≡ ok email)
      × IsTrusted email
      × ((q : Pairing) × Memᴰ q s.pairings × IsClaimOf now runner_id q p)
unfolding claim_next_pairing_start expire_stale_pairings
claim_next_pairing_start-IsTrusted now users runner_id s p email h =
    let (q, there, claim, checked) =
      attempts-trusted 8 now users runner_id (expire_stale_pairings now s) p email h in
    let mem : Memᴰ q s.pairings =
      update_where-pending (is_stale_pairing now) (mark_expired now) (λ u. refl) s.pairings there
        claim.pending in
    (
      rw claim.claimed refl,
      rw claim.claimed claim.pending,
      rw claim.claimed claim.timely,
      rw claim.claimed checked,
      assert-IsTrusted users.lower_case (users.email q.user_id) email checked,
      (q, mem, claim),
    )
