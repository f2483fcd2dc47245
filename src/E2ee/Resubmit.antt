-- ===== src/E2ee/Resubmit.antt =====
-- A client that sends a request again.
use mathlib.Core.List.{Memᴰ}
use text.Mathlib.TextPositions.{eq_refl}
use cursor_gateway.Base.{
  [], ◌∷◌, ◌++◌, ◌==◌, ℕ, Bool, true, false, not, Option, none, some, List, ◌≡◌, refl, arith,
  Result, ok, err, holds, any, inl, inr, Bool-cases, Option-cases, same_text, String,
}
use cursor_gateway.Table.{first_where, insert_row}
use cursor_gateway.Run.{Run, Store, RunRequest, Conversation}
use cursor_gateway.Table.Keys.{Unique, first_where-at, Unique-insert_row}
use cursor_gateway.E2ee.{E2eeError, same_request, same_flag}
use cursor_gateway.E2ee.Submit.{
  create_e2ee_run, valid_identity, own_e2ee_run, submit_found, insert_e2ee_run, insert_joined,
  join_conversation, new_e2ee_run, submitted, collides,
}

abbrev run_id : Run → ℕ
run_id r = r.id

same_text_refl : (o : Option String) → same_text o o ≡ true
same_text_refl none = refl
same_text_refl (some t) = eq_refl t

same_flag_refl : (b : Bool) → same_flag b b ≡ true
same_flag_refl true = refl
same_flag_refl false = refl

same_request_refl : (q : RunRequest) → same_request q q ≡ true
unfolding same_request
same_request_refl q = ground (
  arith,
  eq_refl q.model,
  eq_refl q.workspace_id,
  eq_refl q.payload,
  same_text_refl q.title,
  same_flag_refl q.allow_writes,
  same_flag_refl q.memory_enabled,
)

-- The row that a request has left is found again, with that request.
abbrev Stored : ℕ → RunRequest → Store → Run → Type 0
Stored user_id q after r =
    (first_where (own_e2ee_run q.run_id user_id) after.runs ≡ some r)
    × (holds (same_request q) r.request_envelope ≡ true)

again :
    (later user_id : ℕ) (q : RunRequest) (s : Store) (r : Run)
    → valid_identity q ≡ true
    → Stored user_id q s r
    → create_e2ee_run later user_id q s ≡ ok (s, r, false)
unfolding create_e2ee_run submit_found
again later user_id q s r valid (found, same) = rw (valid, found, same) refl

last-mem : (r : Run) (t : List Run) → Memᴰ r (t ++ r ∷ [])
last-mem r [] = Memᴰ.head refl
last-mem r (q ∷ t) = Memᴰ.tail (last-mem r t)

insert_row-last : (r : Run) (t u : List Run) → insert_row run_id r t ≡ some u → Memᴰ r u
unfolding insert_row
insert_row-last r t u e = elim (Bool-cases (any (λ s. run_id s == run_id r) t)) [
  | inl used ↦ absurd (cc (rw used at e))
  | inr fresh ↦ let same : (t ++ r ∷ []) ≡ u = cc (rw fresh at e) in rw (← same) (last-mem r t)
]

new_e2ee_run-Stored :
    (now user_id : ℕ) (q : RunRequest) (t runs : List Run)
    → Unique run_id t
    → insert_row run_id (new_e2ee_run now user_id q) t ≡ some runs
    → (first_where (own_e2ee_run q.run_id user_id) runs ≡ some (new_e2ee_run now user_id q))
      × (holds (same_request q) (new_e2ee_run now user_id q).request_envelope ≡ true)
unfolding own_e2ee_run new_e2ee_run
new_e2ee_run-Stored now user_id q t runs u put =
    let r = new_e2ee_run now user_id q in
    let mine = own_e2ee_run q.run_id user_id in
    let kept = Unique-insert_row run_id r t runs put u in
    let there = insert_row-last r t runs put in
    let fits : mine r ≡ true = ground arith in
    (
      rw (first_where-at run_id mine r (λ p e. ground arith) runs kept there) (rw fits),
      same_request_refl q,
    )

ok-triple :
    {x y : Store} {p r : Run} {b c : Bool}
    → ◌≡◌ {A = Result E2eeError (Store × Run × Bool)} (ok (x, p, b)) (ok (y, r, c))
    → (x ≡ y) × (p ≡ r)
ok-triple e = (cc, cc)

module _ (now user_id : ℕ) (q : RunRequest) (s : Store) (u : Unique run_id s.runs) {after : Store}
    {r : Run} {created : Bool} where
  insert_e2ee_run-Stored :
      (conversations : List Conversation)
      → insert_e2ee_run now user_id q s conversations ≡ ok (after, r, created)
      → Stored user_id q after r
  unfolding insert_e2ee_run submitted
  insert_e2ee_run-Stored conversations e = elim (Bool-cases (any (collides user_id q) s.runs)) [
    | inl clash ↦ absurd (cc (rw clash at e))
    | inr free ↦ elim (Option-cases (insert_row run_id (new_e2ee_run now user_id q) s.runs)) [
      | inl full ↦ absurd (cc (rw (free, full) at e))
      | inr (runs, put) ↦
          let (store, row) = ok-triple (rw (free, put) at e) in
          rw (← store, ← row) (new_e2ee_run-Stored now user_id q s.runs runs u put)
    ]
  ]

  insert_joined-Stored :
      (joined : Result E2eeError (List Conversation))
      → insert_joined now user_id q s joined ≡ ok (after, r, created)
      → Stored user_id q after r
  unfolding insert_joined
  insert_joined-Stored (err e) f = absurd (cc)
  insert_joined-Stored (ok conversations) f = insert_e2ee_run-Stored conversations f

  submit_found-Stored :
      (found : Option Run)
      → first_where (own_e2ee_run q.run_id user_id) s.runs ≡ found
      → submit_found now user_id q s found ≡ ok (after, r, created)
      → Stored user_id q after r
  unfolding submit_found
  submit_found-Stored (some p) at f =
      elim (Bool-cases (holds (same_request q) p.request_envelope)) [
        | inl same ↦ let (store, row) = ok-triple (rw same at f) in rw (← store, ← row) (at, same)
        | inr other ↦ absurd (cc (rw other at f))
      ]
  submit_found-Stored none at f = elim (Bool-cases (any (λ (p : Run). p.id == q.run_id) s.runs)) [
    | inl used ↦ absurd (cc (rw used at f))
    | inr fresh ↦
        insert_joined-Stored (join_conversation now user_id q s.conversations) (rw fresh at f)
  ]

  -- A client whose request was answered may send it again, at any later time: it gets the same run,
  -- marked as not created, and nothing changes. The ids of the runs are distinct.
  pub create_e2ee_run-again :
      (later : ℕ)
      → create_e2ee_run now user_id q s ≡ ok (after, r, created)
      → create_e2ee_run later user_id q after ≡ ok (after, r, false)
  unfolding create_e2ee_run
  create_e2ee_run-again later f = elim (Bool-cases (not (valid_identity q))) [
    | inl bad ↦ absurd (cc (rw bad at f))
    | inr good ↦ again later user_id q after r (ground (arith, good)) (
        submit_found-Stored (first_where (own_e2ee_run q.run_id user_id) s.runs) refl
          (rw good at f))
  ]
