-- ===== src/Facade/Keys/Isolation.antt =====
-- Two clients share an id only when they present the same key.
use cursor_gateway.Base.{
  ◌≢◌, true, false, none, some, List, [], ◌∷◌, any, ◌≡◌, sym, ◌∙◌, ap, arith, Bool-cases, inl, inr,
  length, ◌==◌,
}
use cursor_gateway.Text.{Text, is_empty, same_units}
use cursor_gateway.Text.Laws.{same_units-≡, same_units_refl}
use cursor_gateway.Facade.Keys.{
  utf8, timing_safe_equal_str, api_key_id, match_from, match_api_key, unique_from,
  assert_unique_api_key_ids,
}

timing_safe_equal_str-≡ : (a b : Text) → timing_safe_equal_str a b ≡ true → utf8 a ≡ utf8 b
unfolding timing_safe_equal_str
timing_safe_equal_str-≡ a b h = elim (Bool-cases (length (utf8 a) == length (utf8 b))) [
  | inl e ↦ same_units-≡ (utf8 a) (utf8 b) (ground (arith, e, h))
  | inr e ↦ absurd (ground (arith, e, h))
]

-- An id that a scan of the keys returns is the id of none of those seen before.
match_from-fresh :
    (seen keys : List Text) (presented id : Text)
    → unique_from seen keys ≡ none
    → match_from presented keys ≡ some id
    → any (same_units id) seen ≡ false
unfolding unique_from match_from
match_from-fresh seen [] presented id unique found = absurd (cc)
match_from-fresh seen (key ∷ keys) presented id unique found = elim (Bool-cases (is_empty key)) [
  | inl e ↦
      match_from-fresh seen keys presented id (ground (arith, e, unique)) (ground (arith, e, found))
  | inr e ↦ elim (Bool-cases (any (same_units (api_key_id key)) seen)) [
    | inl clash ↦ absurd (ground (arith, e, clash, unique))
    | inr new ↦ elim (Bool-cases (timing_safe_equal_str presented key)) [
      | inl hit ↦
          let same : some (api_key_id key) ≡ some id = ground (arith, e, hit, found) in
          let at : api_key_id key ≡ id = cc in
          ap (λ (t : Text). any (same_units t) seen) (sym at) ∙ new
      | inr miss ↦
          let rest : any (same_units id) (api_key_id key ∷ seen) ≡ false =
            match_from-fresh (api_key_id key ∷ seen) keys presented id
              (ground (arith, e, new, unique)) (ground (arith, e, miss, found)) in
          ground (arith, rest)
    ]
  ]
]

-- A key behind one with the id `own` is not matched under that id.
match_from-other :
    (own : Text) (seen keys : List Text) (presented id : Text)
    → some own ≡ some id
    → unique_from (own ∷ seen) keys ≡ none
    → match_from presented keys ≢ some id
match_from-other own seen keys presented id named unique found =
    let at : id ≡ own = cc in
    let fresh : any (same_units id) (own ∷ seen) ≡ false =
      match_from-fresh (own ∷ seen) keys presented id unique found in
    let hit : same_units id own ≡ true =
      ap (λ (t : Text). same_units t own) at ∙ same_units_refl own in
    absurd (ground (arith, fresh, hit))

-- Two presented texts that the scan gives the same id have the same bytes.
match_from-isolated :
    (seen keys : List Text) (a b id : Text)
    → unique_from seen keys ≡ none
    → match_from a keys ≡ some id
    → match_from b keys ≡ some id
    → utf8 a ≡ utf8 b
unfolding unique_from match_from
match_from-isolated seen [] a b id unique fa fb = absurd (cc)
match_from-isolated seen (key ∷ keys) a b id unique fa fb = elim (Bool-cases (is_empty key)) [
  | inl e ↦
      match_from-isolated seen keys a b id (ground (arith, e, unique)) (ground (arith, e, fa))
        (ground (arith, e, fb))
  | inr e ↦ elim (Bool-cases (any (same_units (api_key_id key)) seen)) [
    | inl clash ↦ absurd (ground (arith, e, clash, unique))
    | inr new ↦
        let later : unique_from (api_key_id key ∷ seen) keys ≡ none =
          ground (arith, e, new, unique) in
        elim (Bool-cases (timing_safe_equal_str a key)) [
          | inl hit_a ↦
              let named : some (api_key_id key) ≡ some id = ground (arith, e, hit_a, fa) in
              elim (Bool-cases (timing_safe_equal_str b key)) [
                | inl hit_b ↦
                    timing_safe_equal_str-≡ a key hit_a ∙ sym (timing_safe_equal_str-≡ b key hit_b)
                | inr miss_b ↦ absurd (
                    match_from-other (api_key_id key) seen keys b id named later
                      (ground (arith, e, miss_b, fb)))
              ]
          | inr miss_a ↦ elim (Bool-cases (timing_safe_equal_str b key)) [
            | inl hit_b ↦
                let named : some (api_key_id key) ≡ some id = ground (arith, e, hit_b, fb) in
                absurd (
                  match_from-other (api_key_id key) seen keys a id named later
                    (ground (arith, e, miss_a, fa)))
            | inr miss_b ↦
                match_from-isolated (api_key_id key ∷ seen) keys a b id later
                  (ground (arith, e, miss_a, fa)) (ground (arith, e, miss_b, fb))
          ]
        ]
  ]
]

-- When the start check has passed, two clients that get the same id presented the same bytes: no
-- two different keys share sessions or idempotency keys.
pub match_api_key-isolated :
    (keys : List Text) (a b id : Text)
    → assert_unique_api_key_ids keys ≡ none
    → match_api_key (some a) keys ≡ some id
    → match_api_key (some b) keys ≡ some id
    → utf8 a ≡ utf8 b
unfolding assert_unique_api_key_ids match_api_key
match_api_key-isolated keys a b id unique fa fb = elim (Bool-cases (is_empty a)) [
  | inl e ↦ absurd (ground (arith, e, fa))
  | inr e ↦ elim (Bool-cases (is_empty b)) [
    | inl f ↦ absurd (ground (arith, f, fb))
    | inr f ↦
        match_from-isolated [] keys a b id unique (ground (arith, e, fa)) (ground (arith, f, fb))
  ]
]
