-- ===== src/Life/Tables.antt =====
-- The invariant of the `runs` table across an update, an insertion and a claim.
use mathlib.Core.List.{Memᴰ}
use cursor_gateway.Base.{ℕ, ◌<◌, Bool, true, false, some, List, ◌≡◌, arith, ◌==◌, ==_iff}
use cursor_gateway.Table.{update_where, update_key, update_returning, count_where, insert_row}
use cursor_gateway.Table.Laws.{
  All-at, All-update_where, All-insert_row, count-update_where-le, count-insert_row,
}
use cursor_gateway.Table.Keys.{
  Unique-at, Unique-update_where, Unique-insert_row, count-update_key-le,
}
use cursor_gateway.Run.{Run}
use cursor_gateway.Run.Queue.{occupies_slot}
use cursor_gateway.Life.{RowOk, IsSound}
use cursor_gateway.Life.Rows.{SafeAt}

abbrev run_id : Run → ℕ
run_id r = r.id

module _ (n m : ℕ) (runs : List Run) (s : IsSound n m runs) where
  pub update_where-IsSound_at :
      (test : Run → Bool) (change : Run → Run)
      → ((r : Run) → (change r).id ≡ r.id)
      → ((r : Run) → Memᴰ r runs → RowOk m r → test r ≡ true → SafeAt m change r)
      → IsSound n m (update_where test change runs)
  update_where-IsSound_at test change same safe = record {
    unique = Unique-update_where run_id test change same runs s.unique;
    rows = All-update_where (RowOk m) test change runs (λ r mem o h. (safe r mem o h).0) s.rows;
    budget = omega (
      arith,
      count-update_where-le occupies_slot test change runs
          (λ r mem h. (safe r mem (All-at (RowOk m) runs s.rows r mem) h).1),
    );
  }

  pub update_where-IsSound :
      (test : Run → Bool) (change : Run → Run)
      → ((r : Run) → (change r).id ≡ r.id)
      → ((r : Run) → RowOk m r → test r ≡ true → SafeAt m change r)
      → IsSound n m (update_where test change runs)
  update_where-IsSound test change same safe =
      update_where-IsSound_at test change same (λ r mem. safe r)

  pub update_returning-IsSound :
      (test : Run → Bool) (change : Run → Run)
      → ((r : Run) → (change r).id ≡ r.id)
      → ((r : Run) → RowOk m r → test r ≡ true → SafeAt m change r)
      → IsSound n m (update_returning test change runs).0
  unfolding update_returning
  update_returning-IsSound test change same safe = update_where-IsSound test change same safe

  pub insert_row-IsSound :
      (r : Run) (after : List Run)
      → insert_row run_id r runs ≡ some after
      → RowOk m r
      → occupies_slot r ≡ false
      → IsSound n m after
  insert_row-IsSound r after e o free = record {
    unique = Unique-insert_row run_id r runs after e s.unique;
    rows = All-insert_row (RowOk m) run_id r runs after e o s.rows;
    budget = omega (arith, count-insert_row occupies_slot run_id r runs after e free);
  }

  -- One row is claimed while the budget has room.
  pub claim-IsSound :
      (c : Run) (change : Run → Run)
      → ((r : Run) → (change r).id ≡ r.id)
      → Memᴰ c runs
      → RowOk m (change c)
      → count_where occupies_slot runs < n
      → IsSound n m (update_key run_id c.id change runs)
  unfolding update_key
  claim-IsSound c change same mem o room = record {
    unique = Unique-update_where run_id (λ r. run_id r == c.id) change same runs s.unique;
    rows =
        All-update_where (RowOk m) (λ r. run_id r == c.id) change runs
          (λ r at ok h.
            let e : r ≡ c = Unique-at run_id runs s.unique r c at mem ((==_iff _ _).0 h) in rw e o)
          s.rows;
    budget = omega (arith, count-update_key-le run_id occupies_slot c.id change runs s.unique);
  }
