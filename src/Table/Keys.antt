-- ===== src/Table/Keys.antt =====
-- Tables with a primary key: the key stays unique, and an update by key reaches one row.
use mathlib.Core.List.{Memᴰ}
use cursor_gateway.Base.{
  if◌then◌else◌, some, none, true, ℕ, ◌+◌, ◌≤◌, Bool, false, List, [], ◌∷◌, ◌++◌, ◌≡◌, ◌≢◌, refl,
  sym, ◌∙◌, arith, inl, inr, All, Bool-cases, ◌==◌, ==_iff, any,
}
use cursor_gateway.Table.{first_where, update_where, update_key, count_where, insert_row}
use cursor_gateway.Table.Laws.{first_where-none, All-at, update_where-none}

module _ {ℓ} {A : Type ℓ} (key : A → ℕ) where
  -- No two rows have the same key.
  abbrev pub Unique : List A → Type 0
  Unique [] = Unit
  Unique (r ∷ rs) = All (λ s. key s ≢ key r) rs × Unique rs

  -- Two rows of a table with one key are one row.
  pub Unique-at : (t : List A) → Unique t → (r s : A) → Memᴰ r t → Memᴰ s t → key r ≡ key s → r ≡ s
  Unique-at [] u r s m n e = elim m [ ]
  Unique-at (q ∷ t) (apart, u) r s (Memᴰ.head e) (Memᴰ.head f) same = e ∙ sym f
  Unique-at (q ∷ t) (apart, u) r s (Memᴰ.head e) (Memᴰ.tail n) same =
      absurd (All-at (λ s. key s ≢ key q) t apart s n (rw (← e) (sym same)))
  Unique-at (q ∷ t) (apart, u) r s (Memᴰ.tail m) (Memᴰ.head f) same =
      absurd (All-at (λ s. key s ≢ key q) t apart r m (rw (← f) same))
  Unique-at (q ∷ t) (apart, u) r s (Memᴰ.tail m) (Memᴰ.tail n) same = Unique-at t u r s m n same

  module _ (test : A → Bool) (change : A → A) (same_key : (r : A) → key (change r) ≡ key r) where
    apart-update_where :
        (k : ℕ) (t : List A)
        → All (λ s. key s ≢ k) t
        → All (λ s. key s ≢ k) (update_where test change t)
    unfolding update_where
    apart-update_where k [] h = tt
    apart-update_where k (r ∷ t) (p, h) = elim (Bool-cases (test r)) [
      | inl e ↦ rw e ((λ same. p (sym (same_key r) ∙ same)), apart-update_where k t h)
      | inr e ↦ rw e (p, apart-update_where k t h)
    ]

    pub Unique-update_where : (t : List A) → Unique t → Unique (update_where test change t)
    unfolding update_where
    Unique-update_where [] u = tt
    Unique-update_where (r ∷ t) (apart, u) = elim (Bool-cases (test r)) [
      | inl e ↦ rw e (rw (same_key r) (apart-update_where (key r) t apart), Unique-update_where t u)
      | inr e ↦ rw e (apart-update_where (key r) t apart, Unique-update_where t u)
    ]

  apart-append :
      (k : ℕ) (t : List A) (r : A)
      → All (λ s. key s ≢ k) t
      → key r ≢ k
      → All (λ s. key s ≢ k) (t ++ r ∷ [])
  apart-append k [] r h p = (p, tt)
  apart-append k (s ∷ t) r (q, h) p = (q, apart-append k t r h p)

  Unique-append :
      (t : List A) (r : A) → any (λ s. key s == key r) t ≡ false → Unique t → Unique (t ++ r ∷ [])
  Unique-append [] r h u = (tt, tt)
  Unique-append (s ∷ t) r h (apart, u) =
      (apart-append (key s) t r apart (λ e. ground arith), Unique-append t r (ground arith) u)

  -- An insertion that the key allows leaves the key unique.
  pub Unique-insert_row : (r : A) (t u : List A) → insert_row key r t ≡ some u → Unique t → Unique u
  unfolding insert_row
  Unique-insert_row r t u e h = elim (Bool-cases (any (λ s. key s == key r) t)) [
    | inl used ↦ absurd (cc (rw used at e))
    | inr fresh ↦
        let same : (t ++ r ∷ []) ≡ u = cc (rw fresh at e) in rw (← same) (Unique-append t r fresh h)
  ]

  none_with_key : (k : ℕ) (t : List A) → All (λ s. key s ≢ k) t → any (λ s. key s == k) t ≡ false
  none_with_key k [] h = refl
  none_with_key k (s ∷ t) (p, h) = ground (arith, none_with_key k t h)

  -- An update by key raises a count by one row at most.
  pub count-update_key-le :
      (act : A → Bool) (k : ℕ) (change : A → A) (t : List A)
      → Unique t
      → count_where act (update_key key k change t) ≤ count_where act t + 1
  unfolding count_where update_key
  count-update_key-le act k change [] u = omega arith
  count-update_key-le act k change (r ∷ t) (apart, u) = elim (Bool-cases (key r == k)) [
    | inl here ↦
        let at : key r ≡ k = (==_iff _ _).0 here in
        let rest =
          update_where-none (λ s. key s == k) change t (none_with_key k t (rw at at apart)) in
        rw (here, rest) (ground arith)
    | inr other ↦ rw other (ground (arith, count-update_key-le act k change t u))
  ]

-- A test that only the row with one key can pass, at the row that has it.
module _ {ℓ} {A : Type ℓ} (key : A → ℕ) (test : A → Bool) (r : A)
    (at_key : (s : A) → test s ≡ true → key s ≡ key r) where
  off_key : (t : List A) → All (λ s. key s ≢ key r) t → any test t ≡ false
  off_key [] h = refl
  off_key (s ∷ t) (p, h) = elim (Bool-cases (test s)) [
    | inl e ↦ absurd (p (at_key s e))
    | inr e ↦ rw e (off_key t h)
  ]

  pub any-at : (t : List A) → Unique key t → Memᴰ r t → any test t ≡ test r
  any-at [] u m = elim m [ ]
  any-at (s ∷ t) (apart, u) (Memᴰ.head e) =
      let rest = off_key t (rw e apart) in rw (← e) (ground (arith, rest))
  any-at (s ∷ t) (apart, u) (Memᴰ.tail m) = elim (Bool-cases (test s)) [
    | inl e ↦ absurd (All-at (λ q. key q ≢ key s) t apart r m (sym (at_key s e)))
    | inr e ↦ rw e (any-at t u m)
  ]

  pub first_where-at :
      (t : List A)
      → Unique key t
      → Memᴰ r t
      → first_where test t ≡ (if test r then some r else none)
  unfolding first_where
  first_where-at [] u m = elim m [ ]
  first_where-at (s ∷ t) (apart, u) (Memᴰ.head e) =
      let rest = first_where-none test t (off_key t (rw e apart)) in rw e (ground (arith, rest))
  first_where-at (s ∷ t) (apart, u) (Memᴰ.tail m) = elim (Bool-cases (test s)) [
    | inl e ↦ absurd (All-at (λ q. key q ≢ key s) t apart r m (sym (at_key s e)))
    | inr e ↦ rw e (first_where-at t u m)
  ]
