-- ===== src/Table/Laws.antt =====
-- What the statements of the parent module keep: predicates on rows, and counts.
use mathlib.Core.List.{Memᴰ}
use cursor_gateway.Base.{
  ==_iff, if◌then◌else◌, ap, ℕ, ◌+◌, ◌≤◌, Bool, true, false, Option, none, some, List, [], ◌∷◌,
  ◌++◌, ◌≡◌, refl, arith, ◌⊎◌, inl, inr, All, All-append, Bool-cases, ◌==◌, any,
}
use cursor_gateway.Table.{
  upsert_row, update_returning, update_where, rows_where, count_where, first_where, earliest_where,
  better, insert_row,
}

module _ {ℓ κ} {A : Type ℓ} (P : A → Type κ) where
  pub All-at : (t : List A) → All P t → (r : A) → Memᴰ r t → P r
  All-at [] h r m = elim m [ ]
  All-at (s ∷ t) (p, h) r (Memᴰ.head e) = rw e p
  All-at (s ∷ t) (p, h) r (Memᴰ.tail m) = All-at t h r m

  -- An update keeps a predicate that it keeps at the rows of the table that it changes.
  pub All-update_where :
      (test : A → Bool) (change : A → A) (t : List A)
      → ((r : A) → Memᴰ r t → P r → test r ≡ true → P (change r))
      → All P t
      → All P (update_where test change t)
  unfolding update_where
  All-update_where test change [] keep h = tt
  All-update_where test change (r ∷ rs) keep (p, h) =
      let later = All-update_where test change rs (λ s m. keep s (Memᴰ.tail m)) h in
      elim (Bool-cases (test r)) [
        | inl e ↦ rw e (keep r (Memᴰ.head refl) p e, later)
        | inr e ↦ rw e (p, later)
      ]

  pub All-rows_where : (test : A → Bool) (t : List A) → All P t → All P (rows_where test t)
  unfolding rows_where
  All-rows_where test [] h = tt
  All-rows_where test (r ∷ rs) (p, h) = elim (Bool-cases (test r)) [
    | inl e ↦ rw e (p, All-rows_where test rs h)
    | inr e ↦ rw e (All-rows_where test rs h)
  ]

  pub All-insert_row :
      (key : A → ℕ) (r : A) (t u : List A) → insert_row key r t ≡ some u → P r → All P t → All P u
  unfolding insert_row
  All-insert_row key r t u e p h = elim (Bool-cases (any (λ s. key s == key r) t)) [
    | inl used ↦ absurd (cc (rw used at e))
    | inr fresh ↦
        let same : (t ++ r ∷ []) ≡ u = cc (rw fresh at e) in
        rw (← same) (All-append P t (r ∷ []) h (p, tt))
  ]

module _ {ℓ} {A : Type ℓ} where
  pub first_where-mem :
      (test : A → Bool) (t : List A) {r : A}
      → first_where test t ≡ some r
      → Memᴰ r t × (test r ≡ true)
  unfolding first_where
  first_where-mem test [] e = cc
  first_where-mem test (s ∷ t) {r} e = elim (Bool-cases (test s)) [
    | inl h ↦ let same : s ≡ r = cc (rw h at e) in rw (← same) (Memᴰ.head refl, h)
    | inr h ↦ let (m, p) = first_where-mem test t (rw h at e) in (Memᴰ.tail m, p)
  ]

  better-cases :
      (before : A → A → Bool) (r : A) (o : Option A) {s : A}
      → better before r o ≡ some s
      → ((s ≡ r) ⊎ (o ≡ some s))
  unfolding better
  better-cases before r none e = inl cc
  better-cases before r (some q) e = elim (Bool-cases (before q r)) [
    | inl h ↦ inr (rw h at e)
    | inr h ↦ inl (cc (rw h at e))
  ]

  -- The row that `order by ... limit 1` selects is a row of the table that passes the test.
  pub earliest_where-mem :
      (test : A → Bool) (before : A → A → Bool) (t : List A) {r : A}
      → earliest_where test before t ≡ some r
      → Memᴰ r t × (test r ≡ true)
  unfolding earliest_where
  earliest_where-mem test before [] e = cc
  earliest_where-mem test before (s ∷ t) {r} e = elim (Bool-cases (test s)) [
    | inl h ↦ elim (better-cases before s (earliest_where test before t) (rw h at e)) [
      | inl same ↦ (Memᴰ.head same, rw same h)
      | inr later ↦ let (m, p) = earliest_where-mem test before t later in (Memᴰ.tail m, p)
    ]
    | inr h ↦ let (m, p) = earliest_where-mem test before t (rw h at e) in (Memᴰ.tail m, p)
  ]

-- Counting rows across an update.
module _ {ℓ} {A : Type ℓ} (act test : A → Bool) (change : A → A) where
  pub count-update_where-le :
      (t : List A)
      → ((r : A) → Memᴰ r t → test r ≡ true → act (change r) ≡ true → act r ≡ true)
      → count_where act (update_where test change t) ≤ count_where act t
  unfolding count_where update_where
  count-update_where-le [] keep = omega arith
  count-update_where-le (r ∷ rs) keep =
      ground
        (arith, count-update_where-le rs (λ s m. keep s (Memᴰ.tail m)), keep r (Memᴰ.head refl))

module _ {ℓ} {A : Type ℓ} (act : A → Bool) where
  pub count-append :
      (t u : List A) → count_where act (t ++ u) ≡ count_where act t + count_where act u
  unfolding count_where
  count-append [] u = omega arith
  count-append (r ∷ t) u = ground (arith, count-append t u)

  pub count-insert_row :
      (key : A → ℕ) (r : A) (t u : List A)
      → insert_row key r t ≡ some u
      → act r ≡ false
      → count_where act u ≡ count_where act t
  unfolding insert_row count_where
  count-insert_row key r t u e h = elim (Bool-cases (any (λ s. key s == key r) t)) [
    | inl used ↦ absurd (cc (rw used at e))
    | inr fresh ↦
        let same : (t ++ r ∷ []) ≡ u = cc (rw fresh at e) in
        ground (arith, same, count-append t (r ∷ []))
  ]

module _ {ℓ} {A : Type ℓ} (p test : A → Bool) where
  -- What no selected row has, no row of the table that would be selected has.
  pub none_selected :
      (t : List A) {r : A}
      → any p (rows_where test t) ≡ false
      → Memᴰ r t
      → test r ≡ true
      → p r ≡ false
  unfolding rows_where
  none_selected [] h m e = elim m [ ]
  none_selected (s ∷ t) {r} h (Memᴰ.head same) e =
      let at : test s ≡ true = rw same at e in let top : p s ≡ false = ground arith in rw same top
  none_selected (s ∷ t) {r} h (Memᴰ.tail m) e = elim (Bool-cases (test s)) [
    | inl at ↦ none_selected t (ground arith) m e
    | inr at ↦ none_selected t (rw at at h) m e
  ]

module _ {ℓ} {A : Type ℓ} (test : A → Bool) where
  -- Where no row passes the test, nothing changes.
  pub update_where-none :
      (change : A → A) (t : List A) → any test t ≡ false → update_where test change t ≡ t
  unfolding update_where
  update_where-none change [] h = refl
  update_where-none change (r ∷ rs) h = ground (arith, update_where-none change rs)

  -- An update leaves the rows that it does not select.
  pub update_where-mem :
      (change : A → A) (t : List A) {r : A}
      → Memᴰ r t
      → test r ≡ false
      → Memᴰ r (update_where test change t)
  unfolding update_where
  update_where-mem change [] m e = elim m [ ]
  update_where-mem change (s ∷ t) {r} (Memᴰ.head same) e =
      let at : test s ≡ false = rw (← same) e in rw at (Memᴰ.head same)
  update_where-mem change (s ∷ t) {r} (Memᴰ.tail m) e = Memᴰ.tail (update_where-mem change t m e)

  pub first_where-none : (t : List A) → any test t ≡ false → first_where test t ≡ none
  unfolding first_where
  first_where-none [] h = refl
  first_where-none (r ∷ t) h = ground (arith, first_where-none t)

  pub update_where-mem_changed :
      (change : A → A) (t : List A) {r : A}
      → Memᴰ r t
      → test r ≡ true
      → Memᴰ (change r) (update_where test change t)
  unfolding update_where
  update_where-mem_changed change [] m e = elim m [ ]
  update_where-mem_changed change (s ∷ t) {r} (Memᴰ.head same) e =
      let at : test s ≡ true = rw (← same) e in rw at (Memᴰ.head (ap change same))
  update_where-mem_changed change (s ∷ t) {r} (Memᴰ.tail m) e =
      Memᴰ.tail (update_where-mem_changed change t m e)

  -- A statement that selects nothing changes nothing and returns nothing.
  pub update_returning-none :
      (change : A → A) (t : List A)
      → any test t ≡ false
      → update_returning test change t ≡ (t, none)
  unfolding update_returning
  update_returning-none change t h = rw (update_where-none change t h, first_where-none t h)

  -- Where a row of the table is after an update.
  pub update_where-mem_at :
      (change : A → A) (t : List A) {r : A}
      → Memᴰ r t
      → Memᴰ (if test r then change r else r) (update_where test change t)
  update_where-mem_at change t {r} m = elim (Bool-cases (test r)) [
    | inl e ↦ rw e (update_where-mem_changed change t m e)
    | inr e ↦ rw e (update_where-mem change t m e)
  ]

module _ {ℓ} {A : Type ℓ} where
  append-mem : (t u : List A) {r : A} → Memᴰ r t → Memᴰ r (t ++ u)
  append-mem [] u m = elim m [ ]
  append-mem (s ∷ t) u (Memᴰ.head e) = Memᴰ.head e
  append-mem (s ∷ t) u (Memᴰ.tail m) = Memᴰ.tail (append-mem t u m)

  pub insert_row-mem :
      (key : A → ℕ) (r : A) (t u : List A) {q : A}
      → insert_row key r t ≡ some u
      → Memᴰ q t
      → Memᴰ q u
  unfolding insert_row
  insert_row-mem key r t u e m = elim (Bool-cases (any (λ s. key s == key r) t)) [
    | inl used ↦ absurd (cc (rw used at e))
    | inr fresh ↦
        let same : (t ++ r ∷ []) ≡ u = cc (rw fresh at e) in rw (← same) (append-mem t (r ∷ []) m)
  ]

module _ {ℓ κ} {A : Type ℓ} (P : A → Type κ) where
  pub All-upsert_row :
      (key : A → ℕ) (r : A) (merge : A → A) (t : List A)
      → P r
      → ((s : A) → key s ≡ key r → P (merge s))
      → All P t
      → All P (upsert_row key r merge t)
  unfolding upsert_row
  All-upsert_row key r merge [] p m h = (p, tt)
  All-upsert_row key r merge (s ∷ t) p m (q, h) = elim (Bool-cases (key s == key r)) [
    | inl e ↦ rw e (m s ((==_iff _ _).0 e), h)
    | inr e ↦ rw e (q, All-upsert_row key r merge t p m h)
  ]

module _ {ℓ κ μ} {A : Type ℓ} (P : A → Type κ) (Q : A → Type μ) where
  pub All-map : ((a : A) → P a → Q a) → (t : List A) → All P t → All Q t
  All-map f [] h = tt
  All-map f (a ∷ t) (p, h) = (f a p, All-map f t h)
