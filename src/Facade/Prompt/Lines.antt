-- ===== src/Facade/Prompt/Lines.antt =====
-- The lines of a transcript, and texts that end with one.
use mathlib.Core.List.{append_assoc}
use cursor_gateway.Base.{
  ℕ, ◌≤◌, false, ◌≡◌, ◌∙◌, refl, sym, ap, List, [], ◌∷◌, ◌++◌, arith, length, Bool-cases, inl, inr,
}
use cursor_gateway.Table.{rows_where}
use cursor_gateway.Text.{Text, codes, is_space, is_empty, trim, trim_end, join, nonempty_texts}
use cursor_gateway.Text.Laws.{trim-letter, trim-append}
use cursor_gateway.Facade.Messages.{
  ChatRole, NormalizedMessage, is_system, role_label, transcript_line, transcript_parts,
}

-- A line of a transcript begins with a letter and has no white space at its end.
pub IsLine : Text → Type 0
IsLine t = (c : ℕ) × (u : Text) × (is_space c ≡ false) × (t ≡ c ∷ trim_end u)

starts-IsLine : (c : ℕ) (u : Text) → is_space c ≡ false → IsLine (trim (c ∷ u))
unfolding IsLine
starts-IsLine c u letter = (c, u, letter, trim-letter c u letter)

pub transcript_line-IsLine : (m : NormalizedMessage) → IsLine (transcript_line m)
unfolding transcript_line IsLine role_label is_space
transcript_line-IsLine m = labelled m.role m.text
  where
    labelled : (r : ChatRole) (t : Text) → IsLine (trim (role_label r ++ codes ": " ++ t))
    labelled ChatRole.assistant t = starts-IsLine 65 (codes "ssistant" ++ codes ": " ++ t) refl
    labelled ChatRole.system t = starts-IsLine 83 (codes "ystem" ++ codes ": " ++ t) refl
    labelled ChatRole.tool t = starts-IsLine 84 (codes "ool" ++ codes ": " ++ t) refl
    labelled ChatRole.user t = starts-IsLine 85 (codes "ser" ++ codes ": " ++ t) refl
    labelled (ChatRole.unlisted r) t = starts-IsLine 85 (codes "ser" ++ codes ": " ++ t) refl

-- What a text ends with.
pub EndsWith : Text → Text → Type 0
EndsWith p t = (y : Text) × (t ≡ y ++ p)

pub EndsWith-trans : (p q t : Text) → EndsWith p q → EndsWith q t → EndsWith p t
unfolding EndsWith
EndsWith-trans p q t (x, e) (y, f) =
    (y ++ x, f ∙ ap (λ (s : Text). y ++ s) e ∙ sym (append_assoc y x p))

pub trim-EndsWith : (p t : Text) → IsLine p → EndsWith p t → EndsWith p (trim t)
unfolding EndsWith IsLine
trim-EndsWith p t (c, u, letter, e) (y, f) =
    let (z, g) = trim-append y c u letter in
    (z, ap trim (f ∙ ap (λ (s : Text). y ++ s) e) ∙ g ∙ ap (λ (s : Text). z ++ s) (sym e))

pub ends : (x y : Text) → EndsWith y (x ++ y)
unfolding EndsWith
ends x y = (x, refl)

-- The last part of a joined text.
pub join-EndsWith :
    (separator p : Text) (before : List Text) → EndsWith p (join separator (before ++ p ∷ []))
unfolding EndsWith join
join-EndsWith separator p [] = ([], refl)
join-EndsWith separator p (x ∷ []) = (x ++ separator, refl)
join-EndsWith separator p (x ∷ y ∷ rest) =
    let (z, e) = join-EndsWith separator p (y ∷ rest) in
    (
      x ++ separator ++ z,
      ap (λ (s : Text). x ++ separator ++ s) e ∙ sym (append_assoc (x ++ separator) z p),
    )

pub nonempty_texts-last :
    (xs : List Text) (t : Text)
    → is_empty t ≡ false
    → nonempty_texts (xs ++ t ∷ []) ≡ nonempty_texts xs ++ t ∷ []
unfolding nonempty_texts
nonempty_texts-last [] t e = rw e refl
nonempty_texts-last (x ∷ xs) t e = elim (Bool-cases (is_empty x)) [
  | inl f ↦ rw (f, nonempty_texts-last xs t e) refl
  | inr f ↦ rw (f, nonempty_texts-last xs t e) refl
]

IsLine-nonempty : (t : Text) → IsLine t → is_empty t ≡ false
unfolding IsLine
IsLine-nonempty t (c, u, letter, e) = ap is_empty e

pub IsLine-length : (t : Text) → IsLine t → 1 ≤ length t
unfolding IsLine
IsLine-length t (c, u, letter, e) = rw e (omega arith)

pub EndsWith-nonempty : (p t : Text) → IsLine p → EndsWith p t → is_empty t ≡ false
unfolding EndsWith IsLine
EndsWith-nonempty p t (c, u, letter, e) (y, f) =
    ap is_empty (f ∙ ap (λ (s : Text). y ++ s) e) ∙ nonempty y
  where
    nonempty : (xs : Text) → is_empty (xs ++ c ∷ trim_end u) ≡ false
    nonempty [] = refl
    nonempty (x ∷ xs) = refl

-- The last message makes the last part.
pub transcript_parts-last :
    (before : List NormalizedMessage) (m : NormalizedMessage)
    → is_system m.role ≡ false
    → transcript_parts (before ++ m ∷ []) ≡ transcript_parts before ++ transcript_line m ∷ []
unfolding transcript_parts rows_where nonempty_texts
transcript_parts-last [] m shown = rw (shown, IsLine-nonempty _ (transcript_line-IsLine m)) refl
transcript_parts-last (b ∷ before) m shown = elim (Bool-cases (is_system b.role)) [
  | inl e ↦ rw e (transcript_parts-last before m shown)
  | inr e ↦
      rw (e, IsLine-nonempty _ (transcript_line-IsLine b), transcript_parts-last before m shown)
        refl
]
