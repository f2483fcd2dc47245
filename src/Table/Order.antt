-- ===== src/Table/Order.antt =====
-- `order by ... limit 1` selects a row that no admitted row sorts ahead of, and selects one wherever
-- a row is admitted.
use mathlib.Core.List.{Memᴰ}
use cursor_gateway.Base.{
  Bool, true, false, Option, none, some, List, [], ◌∷◌, ◌≡◌, ◌≢◌, inl, inr, arith, Bool-cases,
  Option-cases,
}
use cursor_gateway.Table.{earliest_where, better}

module _ {ℓ} {A : Type ℓ} (test : A → Bool) (before : A → A → Bool) where
  pub earliest_where-ne-none :
      (t : List A) {r : A} → Memᴰ r t → test r ≡ true → earliest_where test before t ≢ none
  unfolding earliest_where better
  earliest_where-ne-none [] m h e = elim m [ ]
  earliest_where-ne-none (s ∷ t) {r} (Memᴰ.head same) h e =
      let at : test s ≡ true = rw same at h in ground arith
  earliest_where-ne-none (s ∷ t) (Memᴰ.tail m) h e = ground (arith, earliest_where-ne-none t m h)

  none_admitted :
      (t : List A) {q : A} → earliest_where test before t ≡ none → Memᴰ q t → test q ≡ false
  none_admitted t {q} e m = elim (Bool-cases (test q)) [
    | inl h ↦ absurd (earliest_where-ne-none t m h e)
    | inr h ↦ h
  ]

  module _ (asym : (a b : A) → before a b ≡ true → before b a ≡ false)
      (chain : (a b c : A) → before a b ≡ false → before b c ≡ false → before a c ≡ false) where
    irrefl : (a : A) → before a a ≡ false
    irrefl a = elim (Bool-cases (before a a)) [ inl h ↦ absurd (cc (asym a a h)) | inr h ↦ h ]

    better_least :
        (s : A) (o : Option A) {r : A}
        → better before s o ≡ some r
        → (before s r ≡ false) × ((x : A) → o ≡ some x → before x r ≡ false)
    unfolding better
    better_least s none {r} e =
        let same : s ≡ r = cc in (rw (← same) (irrefl s), λ x n. absurd (cc))
    better_least s (some x) {r} e = elim (Bool-cases (before x s)) [
      | inl h ↦
          let same : x ≡ r = cc (rw h at e) in
          (rw (← same) (asym x s h), λ y n. let z : y ≡ r = cc in rw z (irrefl r))
      | inr h ↦
          let same : s ≡ r = cc (rw h at e) in
          (rw (← same) (irrefl s), λ y n. let z : y ≡ x = cc in rw (z, ← same) h)
    ]

    pub earliest_where-least :
        (t : List A) {r q : A}
        → earliest_where test before t ≡ some r
        → Memᴰ q t
        → test q ≡ true
        → before q r ≡ false
    unfolding earliest_where
    earliest_where-least [] e m h = elim m [ ]
    earliest_where-least (s ∷ t) {r} {q} e (Memᴰ.head same) h =
        let at : test s ≡ true = rw same at h in
        let (top, rest) = better_least s (earliest_where test before t) (rw at at e) in rw same top
    earliest_where-least (s ∷ t) {r} {q} e (Memᴰ.tail m) h = elim (Bool-cases (test s)) [
      | inr off ↦ earliest_where-least t (rw off at e) m h
      | inl at ↦
          let (top, rest) = better_least s (earliest_where test before t) (rw at at e) in
          elim (Option-cases (earliest_where test before t)) [
            | inl idle ↦ absurd (earliest_where-ne-none t m h idle)
            | inr (x, found) ↦ chain q x r (earliest_where-least t found m h) (rest x found)
          ]
    ]
