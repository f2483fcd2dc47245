-- ===== src/Facade/Models/Listing.antt =====
-- Which models are listed.
use cursor_gateway.Base.{
  Bool, true, false, not, List, [], ◌∷◌, ◌≡◌, arith, inl, inr, refl, any, Bool-cases, ◌&&◌,
}
use cursor_gateway.Text.{Text, same_units, codes}
use cursor_gateway.Text.Laws.{same_units-≡, same_units_refl}
use cursor_gateway.Facade.Models.{seen, listed_models, build_models_response}

-- No id stands twice.
abbrev pub distinct : List Text → Bool
distinct [] = true
distinct (x ∷ xs) = not (seen x xs) && distinct xs

-- The loop lists what has not been pushed.
seen-listed_models :
    (id : Text) (pushed ids : List Text)
    → seen id (listed_models pushed ids) ≡ (seen id ids && not (seen id pushed))
unfolding listed_models seen
seen-listed_models id pushed [] = refl
seen-listed_models id pushed (x ∷ ids) = elim (Bool-cases (any (same_units x) pushed)) [
  | inl again ↦ elim (Bool-cases (same_units id x)) [
    | inl same ↦
        let e : id ≡ x = same_units-≡ id x same in
        let seen_id : any (same_units id) pushed ≡ true = rw e again in
        ground (arith, again, same, seen_id, seen-listed_models id pushed ids)
    | inr other ↦ ground (arith, again, other, seen-listed_models id pushed ids)
  ]
  | inr new ↦ elim (Bool-cases (same_units id x)) [
    | inl same ↦
        let e : id ≡ x = same_units-≡ id x same in
        let fresh : any (same_units id) pushed ≡ false = rw e new in
        ground (arith, new, same, fresh)
    | inr other ↦ ground (arith, new, other, seen-listed_models id (x ∷ pushed) ids)
  ]
]

distinct-listed_models : (pushed ids : List Text) → distinct (listed_models pushed ids) ≡ true
unfolding listed_models seen
distinct-listed_models pushed [] = refl
distinct-listed_models pushed (x ∷ ids) = elim (Bool-cases (any (same_units x) pushed)) [
  | inl again ↦ rw again (distinct-listed_models pushed ids)
  | inr new ↦ ground (
    arith,
    new,
    seen-listed_models x (x ∷ pushed) ids,
    same_units_refl x,
    distinct-listed_models (x ∷ pushed) ids,
  )
]

-- The listing has no id twice, and it has exactly `auto` and the ids that it is given.
pub build_models_response-listing :
    (ids : List Text) (id : Text)
    → (distinct (build_models_response ids) ≡ true)
      × (seen id (build_models_response ids) ≡ seen id (codes "auto" ∷ ids))
unfolding build_models_response seen
build_models_response-listing ids id = (
  distinct-listed_models [] (codes "auto" ∷ ids),
  ground (arith, seen-listed_models id [] (codes "auto" ∷ ids)),
)
