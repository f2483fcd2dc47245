-- ===== src/Sessions/Serial.antt =====
-- One task of a key at a time, and never a task that waits for nothing.
use cursor_gateway.Base.{
  ◌≢◌, ◌-◌, length-append, Bool-cases, inl, inr, none, some, [], ◌++◌, refl, ℕ, ◌+◌, ◌≤◌, true,
  false, List, ◌∷◌, ◌≡◌, arith, ◌==◌, if◌then◌else◌, length, coalesce,
}
use cursor_gateway.Sessions.{
  Session, listed, splice, one_less, finish_pending, kept_queue, drain_queue, drain, run_task,
  abort_task, settle_task, depth, Act, act, acts, runs, aborts, settles,
}

-- The tasks that wait.
abbrev pub waiting : Session → List ℕ
waiting s = coalesce s.queue []

-- A state that `drain` may be called in.
record IsCounted (s : Session) : Type 0 where
  pub one : length s.running ≡ (if s.active then 1 else 0)
  pub counted : depth s ≡ length (waiting s) + length s.running
  pub listed_once : s.active ≡ true → s.queue ≡ kept_queue (waiting s)

-- Between two operations.
pub record IsSerial (s : Session) : Type 0 where
  pub one : length s.running ≡ (if s.active then 1 else 0)
  pub counted : depth s ≡ length (waiting s) + length s.running
  pub kept : s.queue ≡ kept_queue (waiting s)
  pub idle : s.active ≡ false → s.queue ≡ none

finish_pending-depth : (s : Session) → depth (finish_pending s) ≡ depth s - 1
unfolding depth finish_pending one_less
finish_pending-depth s = ground arith

length-splice : (x : ℕ) (xs : List ℕ) → listed x xs ≡ true → length xs ≡ length (splice x xs) + 1
unfolding splice listed
length-splice x [] m = absurd (cc)
length-splice x (y ∷ ys) m = elim (Bool-cases (y == x)) [
  | inl e ↦ rw e (omega arith)
  | inr e ↦ rw e (omega (arith, length-splice x ys (ground (arith, m, e))))
]

length-waiting : (q : List ℕ) → length (coalesce (kept_queue q) []) ≡ length q
length-waiting [] = refl
length-waiting (x ∷ xs) = refl

kept-waiting : (q : List ℕ) → kept_queue q ≡ kept_queue (coalesce (kept_queue q) [])
kept-waiting [] = refl
kept-waiting (x ∷ xs) = refl

drain_queue-IsSerial :
    (q : List ℕ) (s : Session)
    → s.active ≡ false
    → length s.running ≡ 0
    → depth s ≡ length q
    → IsSerial (drain_queue q s)
unfolding drain_queue finish_pending depth
drain_queue-IsSerial [] s off quiet count = ground arith
drain_queue-IsSerial (x ∷ xs) s off quiet count = elim (Bool-cases (listed x s.aborted)) [
  | inl gone ↦ rw gone (
      drain_queue-IsSerial xs
        (record (finish_pending s) { queue = kept_queue xs; rejected = x ∷ s.rejected }) off quiet
        (omega (arith, finish_pending-depth s)))
  | inr live ↦ rw live (record {
    one = ground arith;
    counted = omega (arith, length-waiting xs);
    kept = kept-waiting xs;
    idle = λ e. absurd (cc);
  })
]

drain_active : (s : Session) → s.active ≡ true → drain s ≡ s
unfolding drain
drain_active s e = ground arith

drain_idle : (s : Session) → s.active ≡ false → drain s ≡ drain_queue (waiting s) s
unfolding drain
drain_idle s e = ground arith

drain-IsSerial : (s : Session) → IsCounted s → IsSerial (drain s)
drain-IsSerial s h = elim (Bool-cases s.active) [
  | inl on ↦ rw (drain_active s on) (record {
    one = h.one;
    counted = h.counted;
    kept = h.listed_once on;
    idle = λ e. absurd (ground (arith, on, e));
  })
  | inr off ↦
      let quiet : length s.running ≡ 0 = ground (arith, h.one, off) in
      rw (drain_idle s off)
        (drain_queue-IsSerial (waiting s) s off quiet (omega (arith, h.counted, quiet)))
]

queued_up : (q : List ℕ) (x : ℕ) → some (q ++ x ∷ []) ≡ kept_queue (q ++ x ∷ [])
queued_up [] x = refl
queued_up (y ∷ ys) x = refl

module _ (s : Session) (x : ℕ) where
  idle-empty : s.queue ≡ none → listed x (waiting s) ≢ true
  unfolding listed
  idle-empty none_waits there = ground (arith, none_waits, there)

  -- A task that waits behind a running one is taken out of the queue.
  aborted_active :
      listed x (waiting s) ≡ true
      → s.active ≡ true
      → abort_task x s ≡ record (finish_pending s) {
        aborted = x ∷ s.aborted;
        rejected = x ∷ s.rejected;
        queue = kept_queue (splice x (waiting s));
      }
  unfolding abort_task finish_pending
  aborted_active there on = rw (there, on) refl

module _ (s : Session) (h : IsSerial s) (x : ℕ) where
  run_task-IsSerial : IsSerial (run_task x s)
  unfolding run_task depth
  run_task-IsSerial = elim (Bool-cases (listed x s.aborted)) [
    | inl gone ↦
        rw (gone, run_task)
          (record { one = h.one; counted = h.counted; kept = h.kept; idle = h.idle })
    | inr live ↦
        rw (live, run_task)
          (drain-IsSerial _ (record {
            one = h.one;
            counted = omega (arith, h.counted, length-append (waiting s) (x ∷ []));
            listed_once = λ e. queued_up (waiting s) x;
          }))
  ]

  settle_task-IsSerial : listed x s.running ≡ true → IsSerial (settle_task x s)
  unfolding settle_task depth
  settle_task-IsSerial m =
      let t = record s { active = false; running = splice x s.running } in
      let lone : length s.running ≤ 1 = ground (arith, h.one) in
      let last = length-splice x s.running m in
      drain_queue-IsSerial (waiting s) (finish_pending t) refl (omega (arith, lone, last))
        (omega (arith, finish_pending-depth t, h.counted, lone, last))

  abort_task-IsSerial : IsSerial (abort_task x s)
  unfolding abort_task depth
  abort_task-IsSerial = elim (Bool-cases (listed x (waiting s))) [
    | inr absent ↦
        rw (absent, abort_task)
          (record { one = h.one; counted = h.counted; kept = h.kept; idle = h.idle })
    | inl there ↦ elim (Bool-cases s.active) [
      | inr off ↦ absurd (idle-empty s x (h.idle off) there)
      | inl on ↦ rw (aborted_active s x there on) (record {
        one = h.one;
        counted = omega (
          arith,
          finish_pending-depth s,
          h.counted,
          length-splice x (waiting s) there,
          length-waiting (splice x (waiting s)),
        );
        kept = kept-waiting (splice x (waiting s));
        idle = λ e. absurd (ground (arith, on, e));
      })
    ]
  ]

act-IsSerial : (a : Act) (s : Session) → IsSerial s → IsSerial (act a s)
unfolding act
act-IsSerial (runs x) s h = run_task-IsSerial s h x
act-IsSerial (aborts x) s h = abort_task-IsSerial s h x
act-IsSerial (settles x) s h = elim (Bool-cases (listed x s.running)) [
  | inl on ↦ rw on (settle_task-IsSerial s h x on)
  | inr off ↦ rw off h
]

-- Whatever is submitted, aborted and settled under one key from a state in order on: one task of the key
-- runs at most; tasks wait only while one runs; `depth` is the number of the tasks that wait or run;
-- and the entry of an empty queue is deleted.
pub acts-IsSerial : (rest : List Act) (s : Session) → IsSerial s → IsSerial (acts rest s)
unfolding acts
acts-IsSerial [] s h = h
acts-IsSerial (a ∷ rest) s h = acts-IsSerial rest (act a s) (act-IsSerial a s h)
