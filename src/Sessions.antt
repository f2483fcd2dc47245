-- ===== src/Sessions.antt =====
-- The concurrency primitives of the csapi facade: apps/server/src/csapi/concurrency.ts. Every
-- operation of a `SessionSerializer` works on one key, so the model is of one key: its entries of
-- the three maps, each `none` where the key is missing. A task is its number; a task is in `running`
-- from its start until its promise settles, and `aborted` lists the tasks whose signal has fired.
pub mod Serial
pub mod Slots
use cursor_gateway.Base.{
  ℕ, ◌+◌, ◌-◌, Bool, true, false, not, ◌&&◌, Option, none, some, List, [], ◌∷◌, ◌++◌, ltb, leb,
  ◌==◌, if◌then◌else◌, any, coalesce,
}

pub record Session : Type 0 where
  pub queue : Option (List ℕ)
  pub active : Bool
  pub pending : Option ℕ
  pub running : List ℕ
  pub aborted : List ℕ
  pub rejected : List ℕ

abbrev pub new_session : Session
new_session = record {
  queue = none;
  active = false;
  pending = none;
  running = [];
  aborted = [];
  rejected = [];
}

unfoldable pub listed : ℕ → List ℕ → Bool
listed x xs = any (λ y. y == x) xs

-- `queue.splice(queue.indexOf(task), 1)`
unfoldable pub splice : ℕ → List ℕ → List ℕ
splice x [] = []
splice x (y ∷ ys) = let rest = splice x ys in if y == x then ys else y ∷ rest

-- What `finishPending` leaves of the counter.
unfoldable pub one_less : ℕ → Option ℕ
one_less n = if leb n 1 then none else some (n - 1)

unfoldable pub finish_pending : Session → Session
unfolding one_less
finish_pending s = record s { pending = one_less (coalesce s.pending 1) }

-- The entry of a queue: an empty one is deleted.
abbrev pub kept_queue : List ℕ → Option (List ℕ)
kept_queue [] = none
kept_queue (x ∷ xs) = some (x ∷ xs)

-- `drain` of an idle key, by the tasks that wait.
unfoldable pub drain_queue : List ℕ → Session → Session
unfolding listed finish_pending
drain_queue [] s = record s { queue = none }
drain_queue (x ∷ xs) s =
    let rest =
      drain_queue xs
        (record (finish_pending s) { queue = kept_queue xs; rejected = x ∷ s.rejected }) in
    if listed x s.aborted
    then rest
    else record s { queue = kept_queue xs; active = true; running = x ∷ s.running }

unfoldable pub drain : Session → Session
unfolding drain_queue
drain s = if s.active then s else drain_queue (coalesce s.queue []) s

-- `run`, up to its first `await`.
unfoldable pub run_task : ℕ → Session → Session
unfolding listed drain
run_task x s =
    if listed x s.aborted
    then record s { rejected = x ∷ s.rejected }
    else drain (record s {
      pending = some (coalesce s.pending 0 + 1);
      queue = some (coalesce s.queue [] ++ x ∷ []);
    })

-- `onAbort` of a task that waits; a task that has started has no listener left.
unfoldable pub abort_task : ℕ → Session → Session
unfolding listed splice finish_pending drain
abort_task x t =
    let s = record t { aborted = x ∷ t.aborted } in
    let left = splice x (coalesce s.queue []) in
    let out = record (finish_pending s) { queue = some left; rejected = x ∷ s.rejected } in
    if not (listed x (coalesce s.queue []))
    then s
    else if not s.active
    then drain out
    else record out { queue = kept_queue left }

-- The promise of the running task settles.
unfoldable pub settle_task : ℕ → Session → Session
unfolding splice finish_pending drain
settle_task x s = drain (finish_pending (record s { active = false; running = splice x s.running }))

-- `depth`
unfoldable pub depth : Session → ℕ
depth s = coalesce s.pending 0

-- The number of each task that is submitted is fresh, and only a running task settles.
pub data Act : Type 0 where
  runs aborts settles : ℕ → Act

unfoldable pub act : Act → Session → Session
unfolding listed run_task abort_task settle_task
act (runs x) s = run_task x s
act (aborts x) s = abort_task x s
act (settles x) s = if listed x s.running then settle_task x s else s

unfoldable pub acts : List Act → Session → Session
unfolding act
acts [] s = s
acts (a ∷ rest) s = acts rest (act a s)

-- `KeyConcurrencyLimiter`: its `active` map.
abbrev pub Slots : Type 0
Slots = ℕ → Option ℕ

abbrev put : ℕ → Option ℕ → Slots → Slots
put key v m k = if k == key then v else m k

-- `count`
unfoldable pub slot_count : ℕ → Slots → ℕ
slot_count key m = coalesce (m key) 0

unfoldable pub try_acquire : (max key : ℕ) → Slots → Slots × Bool
unfolding slot_count
try_acquire max key m =
    if leb max (slot_count key m)
    then (m, false)
    else (put key (some (slot_count key m + 1)) m, true)

unfoldable pub release : (key : ℕ) → Slots → Slots
unfolding slot_count
release key m =
    if leb (slot_count key m) 1 then put key none m else put key (some (slot_count key m - 1)) m

pub data Request : Type 0 where
  acquires releases : (key : ℕ) → Request

unfoldable pub request : (max : ℕ) → Request → Slots → Slots
unfolding try_acquire release
request max (acquires key) m = (try_acquire max key m).0
request max (releases key) m = release key m

unfoldable pub requests : (max : ℕ) → List Request → Slots → Slots
unfolding request
requests max [] m = m
requests max (r ∷ rest) m = requests max rest (request max r m)
