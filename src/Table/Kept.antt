-- ===== src/Table/Kept.antt =====
-- What becomes of each row of a table: every row stays, in a relation to what it was.
use mathlib.Core.List.{Memᴰ}
use cursor_gateway.Base.{
  ℕ, Bool, true, some, List, ◌≡◌, inl, inr, Bool-cases, ◌==◌, ==_iff, if◌then◌else◌,
}
use cursor_gateway.Table.{update_where, update_key, insert_row}
use cursor_gateway.Table.Laws.{update_where-mem_at, insert_row-mem}
use cursor_gateway.Table.Keys.{Unique, Unique-at}

module _ {ℓ} {A : Type 0} (Follows : A → A → Type ℓ) where
  -- Every row of the first table is in the second, as one that follows it.
  abbrev pub Kept : List A → List A → Type ℓ
  Kept t u = (r : A) → Memᴰ r t → (q : A) × Memᴰ q u × Follows r q

  pub Kept-trans :
      ((a b c : A) → Follows a b → Follows b c → Follows a c)
      → (t u v : List A) → Kept t u
      → Kept u v
      → Kept t v
  Kept-trans trans t u v f g r m =
      let (q, n, a) = f r m in let (p, o, b) = g q n in (p, o, trans r q p a b)

  module _ (same : (r : A) → Follows r r) where
    pub Kept-refl : (t : List A) → Kept t t
    Kept-refl t r m = (r, m, same r)

    pub Kept-update_where :
        (test : A → Bool) (change : A → A) (t : List A)
        → ((r : A) → Memᴰ r t → test r ≡ true → Follows r (change r))
        → Kept t (update_where test change t)
    Kept-update_where test change t step r m = (
      if test r then change r else r,
      update_where-mem_at test change t m,
      elim (Bool-cases (test r)) [ inl e ↦ rw e (step r m e) | inr e ↦ rw e (same r) ],
    )

    pub Kept-insert_row :
        (key : A → ℕ) (r : A) (t u : List A) → insert_row key r t ≡ some u → Kept t u
    Kept-insert_row key r t u e q m = (q, insert_row-mem key r t u e m, same q)

    -- A row of the table that is changed by its key.
    pub Kept-update_key :
        (key : A → ℕ) (t : List A) (u : Unique key t) (c : A) (change : A → A)
        → Memᴰ c t
        → Follows c (change c)
        → Kept t (update_key key (key c) change t)
    unfolding update_key
    Kept-update_key key t u c change mem step =
        Kept-update_where (λ r. key r == key c) change t
          (λ r m e. let one : r ≡ c = Unique-at key t u r c m mem ((==_iff _ _).0 e) in rw one step)
