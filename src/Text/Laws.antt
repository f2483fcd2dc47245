-- ===== src/Text/Laws.antt =====
-- Lengths of slices and of trimmed texts, and slices put together again.
use cursor_gateway.Base.{
  false, ℕ, ◌+◌, ◌-◌, ◌≤◌, true, List, [], ◌∷◌, ◌++◌, ◌&&◌, ◌≡◌, refl, ap, arith, ltb, min, length,
  Bool-cases, inl, inr,
}
use cursor_gateway.Text.{
  is_space, is_empty, Text, take, drop, slice_end, same_units, trim_start, trim_end, trim,
}

module _ {ℓ} {A : Type ℓ} where
  pub length-take : (n : ℕ) (xs : List A) → length (take n xs) ≡ min n (length xs)
  unfolding take
  length-take n [] = ground arith
  length-take n (x ∷ xs) = ground (arith, length-take (n - 1) xs)

  pub length-drop : (n : ℕ) (xs : List A) → length (drop n xs) ≡ length xs - n
  unfolding drop
  length-drop n [] = ground arith
  length-drop n (x ∷ xs) = ground (arith, length-drop (n - 1) xs)

  pub take-drop : (n : ℕ) (xs : List A) → take n xs ++ drop n xs ≡ xs
  unfolding take drop
  take-drop n [] = refl
  take-drop n (x ∷ xs) = elim (Bool-cases (ltb 0 n)) [
    | inl e ↦ rw e (ap (λ (t : List A). x ∷ t) (take-drop (n - 1) xs))
    | inr e ↦ rw e refl
  ]

  pub drop-drop : (m n : ℕ) (xs : List A) → drop n (drop m xs) ≡ drop (m + n) xs
  unfolding drop
  drop-drop m n [] = refl
  drop-drop m n (x ∷ xs) = elim (Bool-cases (ltb 0 m)) [
    | inl e ↦
        let f : ltb 0 (m + n) ≡ true = ground (arith, e) in
        let g : m + n - 1 ≡ m - 1 + n = ground (arith, e) in rw (e, f, g) (drop-drop (m - 1) n xs)
    | inr e ↦ let w : m + n ≡ n = ground (arith, e) in rw (e, w) refl
  ]

  pub take-whole : (n : ℕ) (xs : List A) → length xs ≤ n → take n xs ≡ xs
  unfolding take
  take-whole n [] h = refl
  take-whole n (x ∷ xs) h =
      let more : ltb 0 n ≡ true = ground (arith, h) in
      rw (more, take-whole (n - 1) xs (omega (arith, h))) refl

  pub drop-none : (n : ℕ) (xs : List A) → length xs ≤ n → drop n xs ≡ []
  unfolding drop
  drop-none n [] h = refl
  drop-none n (x ∷ xs) h =
      let e : ltb 0 n ≡ true = ground (arith, h) in rw e (drop-none (n - 1) xs (omega (arith, h)))

pub length-slice_end : (n : ℕ) (xs : Text) → 0 + 1 ≤ n → length (slice_end n xs) ≤ n
unfolding slice_end
length-slice_end n xs h = ground (arith, h, length-drop (length xs - n) xs)

pub same_units-≡ : (xs ys : Text) → same_units xs ys ≡ true → xs ≡ ys
unfolding same_units
same_units-≡ [] [] h = refl
same_units-≡ [] (y ∷ ys) h = absurd (cc)
same_units-≡ (x ∷ xs) [] h = absurd (cc)
same_units-≡ (x ∷ xs) (y ∷ ys) h = ground (arith, h, same_units-≡ xs ys)

pub same_units_refl : (xs : Text) → same_units xs xs ≡ true
unfolding same_units
same_units_refl [] = refl
same_units_refl (x ∷ xs) = ground (arith, same_units_refl xs)

length-trim_start : (xs : Text) → length (trim_start xs) ≤ length xs
unfolding trim_start
length-trim_start [] = omega arith
length-trim_start (x ∷ xs) = ground (arith, length-trim_start xs)

length-trim_end : (xs : Text) → length (trim_end xs) ≤ length xs
unfolding trim_end
length-trim_end [] = omega arith
length-trim_end (x ∷ xs) = ground (arith, length-trim_end xs)

pub length-trim : (xs : Text) → length (trim xs) ≤ length xs
unfolding trim
length-trim xs = omega (arith, length-trim_start (trim_end xs), length-trim_end xs)

-- Texts that end in a letter.
trim_end-idempotent : (xs : Text) → trim_end (trim_end xs) ≡ trim_end xs
unfolding trim_end
trim_end-idempotent [] = refl
trim_end-idempotent (x ∷ xs) = elim (Bool-cases (is_empty (trim_end xs) && is_space x)) [
  | inl e ↦ rw e refl
  | inr e ↦ rw (e, trim_end-idempotent xs, e) refl
]

-- A text that begins with a letter keeps it.
pub trim-letter : (c : ℕ) (xs : Text) → is_space c ≡ false → trim (c ∷ xs) ≡ c ∷ trim_end xs
unfolding trim trim_start trim_end
trim-letter c xs letter =
    let no : (is_empty (trim_end xs) && is_space c) ≡ false = ground (arith, letter) in
    rw (no, letter) refl

is_empty-append : (xs : Text) (c : ℕ) (p : Text) → is_empty (xs ++ c ∷ p) ≡ false
is_empty-append [] c p = refl
is_empty-append (x ∷ xs) c p = refl

trim_end-append :
    (xs : Text) (c : ℕ) (p : Text) → trim_end (c ∷ p) ≡ c ∷ p → trim_end (xs ++ c ∷ p) ≡ xs ++ c ∷ p
unfolding trim_end
trim_end-append [] c p h = h
trim_end-append (x ∷ xs) c p h = rw (trim_end-append xs c p h, is_empty-append xs c p) refl

trim_start-append :
    (xs : Text) (c : ℕ) (p : Text)
    → is_space c ≡ false
    → (y : Text) × (trim_start (xs ++ c ∷ p) ≡ y ++ c ∷ p)
unfolding trim_start
trim_start-append [] c p h = ([], rw h refl)
trim_start-append (x ∷ xs) c p h = elim (Bool-cases (is_space x)) [
  | inl e ↦ rw e (trim_start-append xs c p h)
  | inr e ↦ (x ∷ xs, rw e refl)
]

-- A trimmed text at the end of another stays there when both are trimmed.
pub trim-append :
    (xs : Text) (c : ℕ) (p : Text)
    → is_space c ≡ false
    → (y : Text) × (trim (xs ++ c ∷ trim_end p) ≡ y ++ c ∷ trim_end p)
unfolding trim trim_end
trim-append xs c p letter =
    let no : (is_empty (trim_end p) && is_space c) ≡ false = ground (arith, letter) in
    let same : trim_end (c ∷ trim_end p) ≡ c ∷ trim_end p = rw (trim_end-idempotent p, no) refl in
    rw (trim_end-append xs c (trim_end p) same) (trim_start-append xs c (trim_end p) letter)
