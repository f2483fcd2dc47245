-- ===== src/Text.antt =====
-- Texts of the source: a text is the list of its UTF-16 code units, which is what `length`, `slice`
-- and `charCodeAt` count. The string methods that the modelled code calls.
pub mod Laws
use Prim.Native.Char.{code}
use cursor_gateway.Base.{
  ℕ, ◌-◌, String, Bool, true, false, ◌&&◌, ◌||◌, List, [], ◌∷◌, ◌++◌, ltb, leb, ◌==◌, if◌then◌else◌,
  length,
}

abbrev pub Text : Type 0
Text = List ℕ

-- The code units of a literal, which is ASCII in every use.
abbrev pub codes : String → Text
codes String.[] = []
codes (String.◌∷◌ c s) = code c ∷ codes s

-- `slice(0, n)`
unfoldable pub take {ℓ} : {A : Type ℓ} → ℕ → List A → List A
take n [] = []
take n (x ∷ xs) = let rest = take (n - 1) xs in if ltb 0 n then x ∷ rest else []

-- `slice(n)`
unfoldable pub drop {ℓ} : {A : Type ℓ} → ℕ → List A → List A
drop n [] = []
drop n (x ∷ xs) = let rest = drop (n - 1) xs in if ltb 0 n then rest else x ∷ xs

-- `slice(from, to)`
unfoldable pub slice : ℕ → ℕ → Text → Text
unfolding take drop
slice from to xs = take (to - from) (drop from xs)

-- `slice(-n)`; of `-0` it is `slice(0)`, the whole text.
unfoldable pub slice_end : ℕ → Text → Text
unfolding drop
slice_end n xs = if n == 0 then xs else drop (length xs - n) xs

-- A test of the text's truth value.
abbrev pub is_empty {ℓ} : {A : Type ℓ} → List A → Bool
is_empty [] = true
is_empty (x ∷ xs) = false

unfoldable pub same_units : Text → Text → Bool
same_units [] [] = true
same_units [] (y ∷ ys) = false
same_units (x ∷ xs) [] = false
same_units (x ∷ xs) (y ∷ ys) = x == y && same_units xs ys

-- The white space and line terminators of `trim`.
unfoldable pub is_space : ℕ → Bool
is_space c =
    (leb 9 c && leb c 13)
    || c == 32
    || c == 160
    || c == 5760
    || (leb 8192 c && leb c 8202)
    || c == 8232
    || c == 8233
    || c == 8239
    || c == 8287
    || c == 12288
    || c == 65279

unfoldable pub trim_start : Text → Text
unfolding is_space
trim_start [] = []
trim_start (x ∷ xs) = let rest = trim_start xs in if is_space x then rest else x ∷ xs

unfoldable pub trim_end : Text → Text
unfolding is_space
trim_end [] = []
trim_end (x ∷ xs) = let rest = trim_end xs in if is_empty rest && is_space x then [] else x ∷ rest

unfoldable pub trim : Text → Text
unfolding trim_start trim_end
trim xs = trim_start (trim_end xs)

-- `parts.join(separator)`
unfoldable pub join : Text → List Text → Text
join separator [] = []
join separator (x ∷ []) = x
join separator (x ∷ y ∷ rest) = x ++ separator ++ join separator (y ∷ rest)

-- `parts.join("")`
unfoldable pub concat : List Text → Text
concat [] = []
concat (x ∷ xs) = x ++ concat xs

-- `parts.filter(Boolean)`
unfoldable pub nonempty_texts : List Text → List Text
nonempty_texts [] = []
nonempty_texts (x ∷ xs) = let rest = nonempty_texts xs in if is_empty x then rest else x ∷ rest
