-- ===== src/Pairing/Complete.antt =====
-- A completion that is submitted again.
use cursor_gateway.Base.{
  ◌≢◌, ℕ, ◌<◌, Bool, true, false, not, ◌&&◌, none, some, ◌≡◌, refl, inl, inr, Bool-cases,
  Option-cases, ◌==◌, ==_iff, arith, leb, ok, err, if◌then◌else◌,
}
use cursor_gateway.Table.{update_key, first_where}
use cursor_gateway.Table.Laws.{first_where-mem, update_where-mem_changed}
use cursor_gateway.Table.Keys.{Unique, first_where-at, Unique-update_where}
use cursor_gateway.Pairing.{PairingComplete, Pairing, Directory, PairingError}
use cursor_gateway.Pairing.Stages.{pairing_key, is_offer_ready, is_complete_submitted}
use cursor_gateway.Pairing.Statements.{
  same_complete, mark_completed, store_complete, complete_row, submit_pairing_complete,
}

same_complete_refl : (c : PairingComplete) → same_complete c c ≡ true
unfolding same_complete
same_complete_refl c = ground arith

-- The row that a submission selects.
abbrev own_pairing : (user_id : ℕ) → PairingComplete → Pairing → Bool
own_pairing user_id c p = pairing_key p == c.pair_id && p.user_id == user_id

-- A row that the same envelope has completed answers it again, and any other with a conflict.
replay_row :
    (later user_id : ℕ) (c e : PairingComplete) (t : Directory) (p : Pairing)
    → first_where (own_pairing user_id c) t.pairings ≡ some p
    → leb p.expires_at later ≡ false
    → (not (is_offer_ready p.status) && not (is_complete_submitted p.status)) ≡ false
    → (p.start.client_id == c.client_id) ≡ true
    → p.complete ≡ some e
    → submit_pairing_complete later user_id c t
      ≡ (t, if same_complete e c then ok p else err PairingError.pairing_complete_conflict)
unfolding submit_pairing_complete complete_row store_complete
replay_row later user_id c e t p found timely due own stored =
    rw (found, timely, due, own, stored)
      (elim (Bool-cases (same_complete e c)) [
        | inl again ↦ rw again refl
        | inr clash ↦ rw clash refl
      ])

-- A state in which the pairing is completed by the envelope.
record IsAnswered (user_id : ℕ) (c : PairingComplete) (t : Directory) (p : Pairing) : Type 0 where
  envelope : PairingComplete
  found : first_where (own_pairing user_id c) t.pairings ≡ some p
  stored : p.complete ≡ some envelope
  same : same_complete envelope c ≡ true
  due : (not (is_offer_ready p.status) && not (is_complete_submitted p.status)) ≡ false
  own : (p.start.client_id == c.client_id) ≡ true

same_complete_trans :
    (e c d : PairingComplete) → same_complete e c ≡ true → same_complete e d ≡ same_complete c d
unfolding same_complete
same_complete_trans e c d h = ground (arith, h)

-- A second submission in such a state.
answered_again :
    (later user_id : ℕ) (c d : PairingComplete) (t : Directory) (p : Pairing)
    → IsAnswered user_id c t p
    → d.pair_id ≡ c.pair_id
    → d.client_id ≡ c.client_id
    → later < p.expires_at
    → submit_pairing_complete later user_id d t
      ≡ (t, if same_complete c d then ok p else err PairingError.pairing_complete_conflict)
answered_again later user_id c d t p a pair client timely =
    rw (← same_complete_trans a.envelope c d a.same) (
      replay_row later user_id d a.envelope t p (rw pair a.found) (ground (arith, timely)) a.due
        (rw client a.own) a.stored)

module _ (now user_id : ℕ) (c : PairingComplete) (s : Directory)
    (u : Unique pairing_key s.pairings) where
  -- The row after it is marked is the one that is selected.
  marked_found :
      (p : Pairing)
      → first_where (own_pairing user_id c) s.pairings ≡ some p
      → first_where
          (own_pairing user_id c)
          (update_key pairing_key p.pair_id (mark_completed now c) s.pairings)
        ≡ some (mark_completed now c p)
  unfolding update_key
  marked_found p found =
      let (mem, fit) = first_where-mem (own_pairing user_id c) s.pairings found in
      let by_key : Pairing → Bool = λ r. pairing_key r == p.pair_id in
      let there =
        update_where-mem_changed by_key (mark_completed now c) s.pairings mem
          ((==_iff _ _).1 refl) in
      let kept =
        Unique-update_where pairing_key by_key (mark_completed now c) (λ r. refl) s.pairings u in
      rw
        (first_where-at pairing_key (own_pairing user_id c) (mark_completed now c p)
          (λ q e. ground (arith, e, fit)) _ kept there)
        (rw fit refl)

  missing_row :
      {p : Pairing}
      → first_where (own_pairing user_id c) s.pairings ≡ none
      → (submit_pairing_complete now user_id c s).1 ≢ ok p
  unfolding submit_pairing_complete
  missing_row missing done = absurd (cc (rw missing at done))

  first_row :
      (q p : Pairing)
      → first_where (own_pairing user_id c) s.pairings ≡ some q
      → (submit_pairing_complete now user_id c s).1 ≡ ok p
      → IsAnswered user_id c (submit_pairing_complete now user_id c s).0 p
  unfolding submit_pairing_complete complete_row store_complete
  first_row q p found done = elim (Bool-cases (leb q.expires_at now)) [
    | inl late ↦ absurd (cc (rw (found, late) at done))
    | inr early ↦
        elim (Bool-cases (not (is_offer_ready q.status) && not (is_complete_submitted q.status))) [
          | inl off ↦ absurd (cc (rw (found, early, off) at done))
          | inr due ↦ elim (Bool-cases (q.start.client_id == c.client_id)) [
            | inr other ↦ absurd (cc (rw (found, early, due, other) at done))
            | inl own ↦ elim (Option-cases q.complete) [
              | inl open_yet ↦
                  let one : mark_completed now c q ≡ p =
                    cc (rw (found, early, due, own, open_yet) at done) in
                  rw (found, early, due, own, open_yet)
                    (rw (← one) (record {
                      envelope = c;
                      found = marked_found q found;
                      stored = refl;
                      same = same_complete_refl c;
                      due = refl;
                      own = own;
                    }))
              | inr (e, stored) ↦ elim (Bool-cases (same_complete e c)) [
                | inr clash ↦ absurd (cc (rw (found, early, due, own, stored, clash) at done))
                | inl same ↦
                    let one : q ≡ p = cc (rw (found, early, due, own, stored, same) at done) in
                    rw (found, early, due, own, stored, same)
                      (rw (← one) (record {
                        envelope = e;
                        found = found;
                        stored = stored;
                        same = same;
                        due = due;
                        own = own;
                      }))
              ]
            ]
          ]
        ]
  ]

  -- A submission that succeeds, sent again before the pairing expires with an envelope for the same
  -- pairing and client, changes nothing: the same envelope gets the same answer, and another one a
  -- conflict. The ids of the pairings are distinct.
  pub submit_pairing_complete-repeated :
      (later : ℕ) (d : PairingComplete) (p : Pairing)
      → d.pair_id ≡ c.pair_id
      → d.client_id ≡ c.client_id
      → (submit_pairing_complete now user_id c s).1 ≡ ok p
      → later < p.expires_at
      → submit_pairing_complete later user_id d (submit_pairing_complete now user_id c s).0 ≡ (
        (submit_pairing_complete now user_id c s).0,
        if same_complete c d then ok p else err PairingError.pairing_complete_conflict,
      )
  submit_pairing_complete-repeated later d p pair client done timely =
      elim (Option-cases (first_where (own_pairing user_id c) s.pairings)) [
        | inl missing ↦ absurd (missing_row missing done)
        | inr (q, found) ↦
            answered_again later user_id c d (submit_pairing_complete now user_id c s).0 p
              (first_row q p found done) pair client timely
      ]
