-- ===== src/Life/Committed.antt =====
-- What a call that may throw has done to the `runs` table once it has returned.
use cursor_gateway.Base.{
  ℕ, Bool, Option, none, some, List, ◌≡◌, sym, arith, inl, inr, ◌⊎◌, any, not, Result, ok, err,
  holds, coalesce, Bool-cases, Option-cases, some-pair_first, ok-pair_first, ok-triple_first, ◌&&◌,
  ◌==◌,
}
use cursor_gateway.Table.{insert_row, update_where, first_where}
use cursor_gateway.Run.{Run, Store, CancelReason, RunRequest, Approval, Conversation}
use cursor_gateway.Run.Queue.{CreateRun, create_run, created, new_run, same_idempotency}
use cursor_gateway.Run.Deadline.{cancel_run, cancellable, mark_cancelled, is_timeout_reason}
use cursor_gateway.E2ee.{E2eeError, same_request}
use cursor_gateway.E2ee.Submit

pub create_run-inserts :
    (now : ℕ) (i : CreateRun) (s : Store) {after : Store} {r : Run}
    → create_run now i s ≡ some (after, r)
    → insert_row (λ r. r.id) (new_run now i) s.runs ≡ some after.runs
unfolding create_run created
create_run-inserts now i s e = elim (Bool-cases (any (same_idempotency i) s.runs)) [
  | inl clash ↦ absurd (cc (rw clash at e))
  | inr free ↦ elim (Option-cases (insert_row (λ r. r.id) (new_run now i) s.runs)) [
    | inl full ↦ absurd (cc (rw (free, full) at e))
    | inr (runs, put) ↦ rw (← some-pair_first (rw (free, put) at e)) put
  ]
]

pub cancel_run-updates :
    (now run_id user_id : ℕ) (reason : CancelReason) (limit : Option ℕ) (s : Store) {after : Store}
    {found : Option Run}
    → cancel_run now run_id user_id reason limit s ≡ some (after, found)
    → after.runs
      ≡ update_where
          (cancellable now run_id user_id reason (coalesce limit 0))
          (mark_cancelled now reason)
          s.runs
unfolding cancel_run
cancel_run-updates now run_id user_id reason limit s e =
    elim (Bool-cases (is_timeout_reason reason && coalesce limit 0 == 0)) [
      | inl refused ↦ absurd (cc (rw refused at e))
      | inr free ↦ rw (← some-pair_first (rw free at e))
    ]

-- The table has the new row, or is as it was.
abbrev pub Inserted : ℕ → Store → ℕ → RunRequest → Store → Type 0
Inserted now s user_id q after =
    (after.runs ≡ s.runs)
    ⊎ (insert_row (λ r. r.id) (Submit.new_e2ee_run now user_id q) s.runs ≡ some after.runs)

-- The store has the approval recorded, or is as it was.
abbrev pub Recorded : ℕ → Store → ℕ → Approval → Store → Type 0
Recorded now s user_id a after = (after ≡ s) ⊎ (after ≡ (Submit.record_approval now user_id a s).0)

module _ (now : ℕ) (s : Store) (user_id : ℕ) (q : RunRequest) {after : Store} {r : Run}
    {created : Bool} where
  insert_e2ee_run-inserts :
      (conversations : List Conversation)
      → Submit.insert_e2ee_run now user_id q s conversations ≡ ok (after, r, created)
      → Inserted now s user_id q after
  unfolding Submit.insert_e2ee_run Submit.submitted
  insert_e2ee_run-inserts conversations e =
      elim (Bool-cases (any (Submit.collides user_id q) s.runs)) [
        | inl clash ↦ absurd (cc (rw clash at e))
        | inr free ↦
            elim (Option-cases
              (insert_row (λ r. r.id) (Submit.new_e2ee_run now user_id q) s.runs)) [
                | inl full ↦ absurd (cc (rw (free, full) at e))
                | inr (runs, put) ↦ inr (rw (← ok-triple_first (rw (free, put) at e)) put)
              ]
      ]

  insert_joined-inserts :
      (joined : Result E2eeError (List Conversation))
      → Submit.insert_joined now user_id q s joined ≡ ok (after, r, created)
      → Inserted now s user_id q after
  unfolding Submit.insert_joined
  insert_joined-inserts (err e) f = absurd (cc)
  insert_joined-inserts (ok conversations) f = insert_e2ee_run-inserts conversations f

  submit_found-inserts :
      (found : Option Run)
      → Submit.submit_found now user_id q s found ≡ ok (after, r, created)
      → Inserted now s user_id q after
  unfolding Submit.submit_found
  submit_found-inserts (some p) f = elim (Bool-cases (holds (same_request q) p.request_envelope)) [
    | inl same ↦ inl (rw (← ok-triple_first (rw same at f)))
    | inr other ↦ absurd (cc (rw other at f))
  ]
  submit_found-inserts none f = elim (Bool-cases (any (λ (p : Run). p.id == q.run_id) s.runs)) [
    | inl used ↦ absurd (cc (rw used at f))
    | inr fresh ↦
        insert_joined-inserts (Submit.join_conversation now user_id q s.conversations)
          (rw fresh at f)
  ]

  pub create_e2ee_run-inserts :
      Submit.create_e2ee_run now user_id q s ≡ ok (after, r, created)
      → Inserted now s user_id q after
  unfolding Submit.create_e2ee_run
  create_e2ee_run-inserts f = elim (Bool-cases (not (Submit.valid_identity q))) [
    | inl bad ↦ absurd (cc (rw bad at f))
    | inr good ↦
        submit_found-inserts (first_where (Submit.own_e2ee_run q.run_id user_id) s.runs)
          (rw good at f)
  ]

module _ (now : ℕ) (s : Store) (user_id : ℕ) (a : Approval) {after : Store}
    {found : Option Run} where
  approve_request-records :
      (r : Run) (q : RunRequest) (stored : Option Approval)
      → Submit.approve_request now user_id a s r q stored ≡ ok (after, found)
      → Recorded now s user_id a after
  unfolding Submit.approve_request Submit.approve_again
  approve_request-records r q (some stored) f = inl (ground arith)
  approve_request-records r q none f = elim (Bool-cases (not (Submit.approval_fits q a))) [
    | inl bad ↦ absurd (cc (rw bad at f))
    | inr good ↦ inr (sym (ok-pair_first (rw good at f)))
  ]

  approve_row-records :
      (r : Run) (request : Option RunRequest)
      → Submit.approve_row now user_id a s r request ≡ ok (after, found)
      → Recorded now s user_id a after
  unfolding Submit.approve_row
  approve_row-records r none f = absurd (cc)
  approve_row-records r (some q) f = approve_request-records r q r.approval_envelope f

  approve_found-records :
      (o : Option Run)
      → Submit.approve_found now user_id a s o ≡ ok (after, found)
      → Recorded now s user_id a after
  unfolding Submit.approve_found
  approve_found-records none f = inl (sym (ok-pair_first f))
  approve_found-records (some r) f = approve_row-records r r.request_envelope f

  pub submit_e2ee_approval-records :
      Submit.submit_e2ee_approval now user_id a s ≡ ok (after, found)
      → Recorded now s user_id a after
  unfolding Submit.submit_e2ee_approval
  submit_e2ee_approval-records f =
      approve_found-records (first_where (Submit.own_e2ee_run a.run_id user_id) s.runs) f
