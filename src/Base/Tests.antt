-- ===== src/Base/Tests.antt =====
-- Boolean tests on the native numbers, on options and on texts, and the conditional.
use Prim.Native.Nat.{ℕ, compare, Ordering}
use Prim.Native.String.{String}
use text.Mathlib.Text.{◌==◌ as str_eq}
use mathlib.Core.Path.{◌≡◌, refl}
use mathlib.Core.Logic.{◌↔◌, ◌⊎◌, inl, inr}
use mathlib.Core.Bool.{Bool, true, false, ◌&&◌}
use mathlib.Core.Option.{Option, none, some}
use native.Mathlib.Omega.{arith}

abbrev pub ltb : ℕ → ℕ → Bool
ltb a b = elim (compare a b) [ Ordering.lt ↦ true | _ ↦ false ]

abbrev pub leb : ℕ → ℕ → Bool
leb a b = elim (compare a b) [ Ordering.gt ↦ false | _ ↦ true ]

infix 50 ◌==◌
abbrev pub ◌==◌ : ℕ → ℕ → Bool
a == b = elim (compare a b) [ Ordering.eq ↦ true | _ ↦ false ]

infix 1 if◌then◌else◌
abbrev pub if◌then◌else◌ {ℓ} : {A : Type ℓ} → Bool → A → A → A
if true then x else y = x
if false then x else y = y

pub ==_iff : (a b : ℕ) → ((a == b) ≡ true) ↔ (a ≡ b)
==_iff a b = ground arith

-- To split on a computed value and keep the equation.
pub Bool-cases : (b : Bool) → (b ≡ true) ⊎ (b ≡ false)
Bool-cases true = inl refl
Bool-cases false = inr refl

pub and-left : (a b : Bool) → (a && b) ≡ true → a ≡ true
and-left a b h = ground arith

pub and-right : (a b : Bool) → (a && b) ≡ true → b ≡ true
and-right a b h = ground arith

module _ {ℓ} {A : Type ℓ} where
  pub Option-cases : (o : Option A) → (o ≡ none) ⊎ ((a : A) × (o ≡ some a))
  Option-cases none = inl refl
  Option-cases (some a) = inr (a, refl)

  abbrev pub is_some : Option A → Bool
  is_some none = false
  is_some (some a) = true

  abbrev pub is_none : Option A → Bool
  is_none none = true
  is_none (some a) = false

  -- SQL `coalesce(a, b)`, and the source's `a ?? b`.
  abbrev pub coalesce : Option A → A → A
  coalesce none b = b
  coalesce (some a) b = a

  -- `coalesce` of two columns that may both be null.
  abbrev pub or_else : Option A → Option A → Option A
  or_else none b = b
  or_else (some a) b = some a

  -- A comparison with a column that may be null: SQL's `where` takes null for false.
  abbrev pub holds : (A → Bool) → Option A → Bool
  holds p none = false
  holds p (some a) = p a

-- SQL `is not distinct from`, at numbers and at texts.
abbrev pub same_number : Option ℕ → Option ℕ → Bool
same_number none none = true
same_number none (some b) = false
same_number (some a) none = false
same_number (some a) (some b) = a == b

abbrev pub same_text : Option String → Option String → Bool
same_text none none = true
same_text none (some b) = false
same_text (some a) none = false
same_text (some a) (some b) = str_eq a b

-- A result, or an error of the given kind.
pub data Result {ℓ κ} (E : Type κ) (A : Type ℓ) : Type (ℓ ⊔ κ) where
  ok : A → Result E A
  err : E → Result E A

-- The first parts of two equal results.
pub some-pair_first {ℓ κ} :
    {A : Type ℓ} {B : Type κ} {a c : A} {b d : B}
    → ◌≡◌ {A = Option (A × B)} (some (a, b)) (some (c, d))
    → a ≡ c
some-pair_first e = cc

pub ok-triple_first {ℓ κ μ ν} :
    {E : Type ν} {A : Type ℓ} {B : Type κ} {C : Type μ} {a a' : A} {b b' : B} {c c' : C}
    → ◌≡◌ {A = Result E (A × B × C)} (ok (a, b, c)) (ok (a', b', c'))
    → a ≡ a'
ok-triple_first e = cc

pub ok-pair_first {ℓ κ ν} :
    {E : Type ν} {A : Type ℓ} {B : Type κ} {a a' : A} {b b' : B}
    → ◌≡◌ {A = Result E (A × B)} (ok (a, b)) (ok (a', b'))
    → a ≡ a'
ok-pair_first e = cc
