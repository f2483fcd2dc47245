-- ===== src/Pairing/Served.antt =====
-- A pairing that can be mailed is not held up by those that cannot.
use mathlib.Core.List.{Memᴰ}
use cursor_gateway.Base.{
  ℕ, zero, suc, ◌≤◌, ◌<◌, Bool, true, false, ◌&&◌, none, some, List, [], ◌∷◌, ◌≡◌, ◌≢◌, refl, ap,
  arith, ◌==◌, ==_iff, inl, inr, Bool-cases, Option-cases, is_some, is_none,
}
use cursor_gateway.Text.{Text}
use cursor_gateway.Table.{earliest_where, update_key, update_where, count_where}
use cursor_gateway.Table.Laws.{earliest_where-mem, count-update_where-le, update_where-mem}
use cursor_gateway.Table.Keys.{Unique, Unique-at, Unique-update_where}
use cursor_gateway.Table.Order.{earliest_where-ne-none}
use cursor_gateway.Pairing.{Pairing, Directory}
use cursor_gateway.Pairing.Stages.{
  pairing_key, is_stale_pairing, mark_expired, expire_stale_pairings,
}
use cursor_gateway.Pairing.Statements.{
  claimable_start, start_before, mark_rejected, claim_attempts, Users, recipient_of,
  claim_next_pairing_start,
}

module _ {ℓ} {A : Type ℓ} (act test : A → Bool) (change : A → A) where
  -- An update that ends one of the counted rows.
  count-update_where-less :
      (t : List A) {r : A}
      → Memᴰ r t
      → test r ≡ true
      → act r ≡ true
      → act (change r) ≡ false
      → ((s : A) → test s ≡ true → act (change s) ≡ true → act s ≡ true)
      → suc (count_where act (update_where test change t)) ≤ count_where act t
  unfolding count_where update_where
  count-update_where-less [] m h on off same = elim m [ ]
  count-update_where-less (s ∷ t) (Memᴰ.head e) h on off same =
      let rest = count-update_where-le act test change t (λ q m. same q) in
      let hs : test s ≡ true = rw (← e) h in
      let ons : act s ≡ true = rw (← e) on in
      let offs : act (change s) ≡ false = rw (← e) off in rw (hs, offs, ons) (omega (arith, rest))
  count-update_where-less (s ∷ t) (Memᴰ.tail m) h on off same =
      let rest = count-update_where-less t m h on off same in
      elim (Bool-cases (test s)) [
        | inl e ↦ rw e (ground (arith, rest, same s e))
        | inr e ↦ rw e (ground (arith, rest))
      ]

module _ (now : ℕ) (users : Users) (runner_id : ℕ) where
  abbrev fits : Pairing → Bool
  fits p = claimable_start now runner_id p

  -- A row that the runner could claim, and of which the mail has no recipient.
  abbrev pub holds_up : Pairing → Bool
  holds_up p = claimable_start now runner_id p && is_none (recipient_of users p.user_id)

  rejected-released : (p : Pairing) → holds_up (mark_rejected now p) ≡ false
  unfolding claimable_start
  rejected-released p = refl

  served_other :
      (p q : Pairing) (email : Text)
      → p ≡ q
      → recipient_of users p.user_id ≡ some email
      → recipient_of users q.user_id ≢ none
  served_other p q email one mailed invalid =
      let same : recipient_of users p.user_id ≡ recipient_of users q.user_id =
        ap (λ (r : Pairing). recipient_of users r.user_id) one in
      absurd (cc)

  attempts-serve :
      (attempts : ℕ) (s : Directory) (p : Pairing) (email : Text)
      → Unique pairing_key s.pairings
      → Memᴰ p s.pairings
      → fits p ≡ true
      → recipient_of users p.user_id ≡ some email
      → count_where holds_up s.pairings < attempts
      → is_some (claim_attempts attempts now (recipient_of users) runner_id s).1 ≡ true
  unfolding claim_attempts
  attempts-serve zero s p email u mem fit mailed few = absurd (omega (arith, few))
  attempts-serve (suc attempts) s p email u mem fit mailed few =
      elim (Option-cases (earliest_where fits start_before s.pairings)) [
        | inl idle ↦ absurd (earliest_where-ne-none fits start_before s.pairings mem fit idle)
        | inr (q, found) ↦
            let (there, selected) = earliest_where-mem fits start_before s.pairings found in
            elim (Option-cases (recipient_of users q.user_id)) [
              | inr (mail, valid) ↦ rw (found, claim_attempts, valid) refl
              | inl invalid ↦
                  let by_key : Pairing → Bool = λ r. pairing_key r == q.pair_id in
                  let other : by_key p ≡ false = elim (Bool-cases (by_key p)) [
                    | inr e ↦ e
                    | inl e ↦
                        let one : p ≡ q =
                          Unique-at pairing_key s.pairings u p q mem there ((==_iff _ _).0 e) in
                        absurd (served_other p q email one mailed invalid)
                  ] in
                  let held : holds_up q ≡ true = ground (arith, selected, invalid) in
                  let less =
                    count-update_where-less holds_up by_key (mark_rejected now) s.pairings there
                      ((==_iff _ _).1 refl) held (rejected-released q)
                      (λ r e h. absurd (cc (rw (rejected-released r) at h))) in
                  rw (found, claim_attempts, invalid)
                    (attempts-serve attempts
                      (record s {
                        pairings = update_key pairing_key q.pair_id (mark_rejected now) s.pairings;
                      })
                      p email
                      (Unique-update_where pairing_key by_key (mark_rejected now) (λ r. refl)
                        s.pairings u)
                      (update_where-mem by_key (mark_rejected now) s.pairings mem other) fit mailed
                      (omega (arith, less, few)))
            ]
      ]

  expired-released : (p : Pairing) → holds_up (mark_expired now p) ≡ false
  unfolding claimable_start
  expired-released p = refl

  fresh_start : (p : Pairing) → fits p ≡ true → is_stale_pairing now p ≡ false
  unfolding claimable_start
  fresh_start p fit = ground (arith, fit)

  -- A runner is given a pairing whenever one that it can claim has a user with an accepted address,
  -- and fewer than 8 that it could claim have none: those do not hold up the queue. The ids of the
  -- pairings are distinct.
  pub claim_next_pairing_start-serves :
      (s : Directory) (p : Pairing) (email : Text)
      → Unique pairing_key s.pairings
      → Memᴰ p s.pairings
      → claimable_start now runner_id p ≡ true
      → recipient_of users p.user_id ≡ some email
      → count_where holds_up s.pairings < 8
      → is_some (claim_next_pairing_start now users runner_id s).1 ≡ true
  unfolding claim_next_pairing_start expire_stale_pairings
  claim_next_pairing_start-serves s p email u mem fit mailed few =
      let stale = is_stale_pairing now in
      let fewer =
        count-update_where-le holds_up stale (mark_expired now) s.pairings
          (λ r m e h. absurd (cc (rw (expired-released r) at h))) in
      attempts-serve 8 (expire_stale_pairings now s) p email
        (Unique-update_where pairing_key stale (mark_expired now) (λ r. refl) s.pairings u)
        (update_where-mem stale (mark_expired now) s.pairings mem (fresh_start p fit)) fit mailed
        (omega (arith, fewer, few))
