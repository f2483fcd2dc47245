-- ===== src/Table.antt =====
-- The statements of PostgreSQL that the server's repository functions are made of, over a table as
-- a list of rows: `update ... where`, `select ... where`, `select ... order by ... limit 1`,
-- `count(*)`, `exists`, and `insert` under a primary key.
pub mod Laws
pub mod Keys
pub mod Order
pub mod Kept
use cursor_gateway.Base.{
  ℕ, suc, Bool, Option, none, some, List, [], ◌∷◌, ◌++◌, if◌then◌else◌, any, ◌==◌,
}

module _ {ℓ} {A : Type ℓ} where
  -- `update t set change where test`
  unfoldable pub update_where : (A → Bool) → (A → A) → List A → List A
  update_where test change [] = []
  update_where test change (r ∷ rs) = (if test r then change r else r) ∷ update_where test change rs

  -- `select * from t where test`
  unfoldable pub rows_where : (A → Bool) → List A → List A
  rows_where test [] = []
  rows_where test (r ∷ rs) = let rest = rows_where test rs in if test r then r ∷ rest else rest

  -- `select count(*) from t where test`
  unfoldable pub count_where : (A → Bool) → List A → ℕ
  count_where test [] = 0
  count_where test (r ∷ rs) = let rest = count_where test rs in if test r then suc rest else rest

  -- `select * from t where test`, of which the code reads the first row.
  unfoldable pub first_where : (A → Bool) → List A → Option A
  first_where test [] = none
  first_where test (r ∷ rs) = if test r then some r else first_where test rs

  -- The row that stands first in the order `before`, and of two equal ones the former.
  better : (A → A → Bool) → A → Option A → Option A
  better before r none = some r
  better before r (some s) = if before s r then some s else some r

  -- `select * from t where test order by ... limit 1`; `before s r` says that `s` sorts strictly
  -- ahead of `r`.
  unfoldable pub earliest_where : (A → Bool) → (A → A → Bool) → List A → Option A
  unfolding better
  earliest_where test before [] = none
  earliest_where test before (r ∷ rs) =
      let rest = earliest_where test before rs in if test r then better before r rest else rest

  -- `update t set change where key = k`, and its `returning *`.
  unfoldable pub update_key : (A → ℕ) → ℕ → (A → A) → List A → List A
  unfolding update_where
  update_key key k change = update_where (λ r. key r == k) change

  -- `insert` under the primary key `key`; `none` is the unique violation (SQLSTATE 23505).
  unfoldable pub insert_row : (A → ℕ) → A → List A → Option (List A)
  insert_row key r t = if any (λ s. key s == key r) t then none else some (t ++ r ∷ [])

  -- `insert ... on conflict (key) do update set ...`: `merge old` is the row that replaces `old`.
  unfoldable pub upsert_row : (A → ℕ) → A → (A → A) → List A → List A
  upsert_row key r merge [] = r ∷ []
  upsert_row key r merge (s ∷ t) =
      if key s == key r then merge s ∷ t else s ∷ upsert_row key r merge t

  abbrev returned : (A → A) → Option A → Option A
  returned change none = none
  returned change (some r) = some (change r)

  -- `update t set change where test returning *`, of which the code reads the first row.
  unfoldable pub update_returning : (A → Bool) → (A → A) → List A → List A × Option A
  unfolding update_where first_where
  update_returning test change t =
      (update_where test change t, returned change (first_where test t))
