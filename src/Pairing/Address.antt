-- ===== src/Pairing/Address.antt =====
-- What the check of the address accepts: short texts of printed characters (assertTrustedRecipientEmail
-- of apps/server/src/pairingRecipient.ts).
use cursor_gateway.Base.{
  ℕ, ◌≤◌, Bool, true, false, ◌&&◌, Option, none, some, List, [], ◌∷◌, ◌≡◌, refl, arith, any, ltb,
  ◌==◌, ==_iff, inl, inr, Bool-cases, length, ok,
}
use cursor_gateway.Text.{Text, is_empty, trim}
use cursor_gateway.Pairing.Recipient.{
  all_units, push_unit, injects, split_on, is_alphanumeric, is_local_unit, is_label_unit, is_label,
  all_labels, is_domain, is_address, matches_email, check_email, assert_trusted_recipient_email,
}

-- A character that is printed: no control character, no white space, and ASCII.
abbrev pub is_printed : ℕ → Bool
is_printed c = ltb 32 c && ltb c 127

all_units-weaker :
    (p q : ℕ → Bool) (t : Text)
    → ((c : ℕ) → p c ≡ true → q c ≡ true)
    → all_units p t ≡ true
    → all_units q t ≡ true
unfolding all_units
all_units-weaker p q [] f h = refl
all_units-weaker p q (c ∷ cs) f h =
    ground (arith, f c (ground (arith, h)), all_units-weaker p q cs f (ground (arith, h)))

-- Every part passes.
abbrev all_parts : (ℕ → Bool) → List Text → Bool
all_parts p [] = true
all_parts p (t ∷ ts) = all_units p t && all_parts p ts

push_unit-parts :
    (p : ℕ → Bool) (c : ℕ) (ts : List Text)
    → all_parts p (push_unit c ts) ≡ true
    → (p c && all_parts p ts) ≡ true
unfolding all_units
push_unit-parts p c [] h = ground (arith, h)
push_unit-parts p c (t ∷ ts) h = ground (arith, h)

-- A text of which the parts and the separator pass.
all_units-split_on :
    (p : ℕ → Bool) (s : ℕ) (t : Text)
    → p s ≡ true
    → all_parts p (split_on s t) ≡ true
    → all_units p t ≡ true
unfolding split_on all_units
all_units-split_on p s [] at h = refl
all_units-split_on p s (c ∷ cs) at h = elim (Bool-cases (c == s)) [
  | inl e ↦
      let same : c ≡ s = (==_iff c s).0 e in
      let pc : p c ≡ true = rw same at in
      ground (arith, pc, all_units-split_on p s cs at (rw e at h))
  | inr e ↦
      let both = push_unit-parts p c (split_on s cs) (rw e at h) in
      ground (arith, both, all_units-split_on p s cs at (ground (arith, both)))
]

is_local_unit-printed : (c : ℕ) → is_local_unit c ≡ true → is_printed c ≡ true
unfolding is_local_unit is_alphanumeric
is_local_unit-printed c h = ground (arith, h)

is_label_unit-printed : (c : ℕ) → is_label_unit c ≡ true → is_printed c ≡ true
unfolding is_label_unit is_alphanumeric
is_label_unit-printed c h = ground (arith, h)

all_labels-parts : (ts : List Text) → all_labels ts ≡ true → all_parts is_printed ts ≡ true
unfolding all_labels is_label
all_labels-parts [] h = refl
all_labels-parts (t ∷ ts) h = ground (
  arith,
  all_units-weaker is_label_unit is_printed t is_label_unit-printed (ground (arith, h)),
  all_labels-parts ts (ground (arith, h)),
)

is_domain-parts : (ts : List Text) → is_domain ts ≡ true → all_parts is_printed ts ≡ true
unfolding is_domain
is_domain-parts [] h = refl
is_domain-parts (t ∷ []) h = absurd (cc)
is_domain-parts (t ∷ u ∷ ts) h = all_labels-parts (t ∷ u ∷ ts) (labels t (u ∷ ts) h)
  where
    labels :
        (t : Text) (ts : List Text)
        → (is_label t && all_labels ts) ≡ true
        → all_labels (t ∷ ts) ≡ true
    labels t ts h = h

is_address-parts : (ts : List Text) → is_address ts ≡ true → all_parts is_printed ts ≡ true
unfolding is_address
is_address-parts [] h = refl
is_address-parts (local ∷ []) h = absurd (cc)
is_address-parts (local ∷ domain ∷ []) h = ground (
  arith,
  all_units-weaker is_local_unit is_printed local is_local_unit-printed (ground (arith, h)),
  all_units-split_on is_printed 46 domain refl
      (is_domain-parts (split_on 46 domain) (ground (arith, h))),
)
is_address-parts (local ∷ domain ∷ more ∷ rest) h = absurd (cc)

matches_email-printed : (t : Text) → matches_email t ≡ true → all_units is_printed t ≡ true
unfolding matches_email
matches_email-printed t h =
    all_units-split_on is_printed 64 t refl (is_address-parts (split_on 64 t) h)

-- What an accepted address is: not empty, short enough, and of printed characters only.
pub record IsTrusted (email : Text) : Type 0 where
  pub present : is_empty email ≡ false
  pub short : length email ≤ 320
  pub printed : all_units is_printed email ≡ true
  pub address : matches_email email ≡ true

check_email-IsTrusted : (t email : Text) → check_email t ≡ ok email → IsTrusted email
unfolding check_email
check_email-IsTrusted t email h = elim (Bool-cases (is_empty t)) [
  | inl missing ↦ absurd (cc (rw missing at h))
  | inr present ↦ elim (Bool-cases (ltb 320 (length t))) [
    | inl long ↦ absurd (cc (rw (present, long) at h))
    | inr short ↦ elim (Bool-cases (any injects t)) [
      | inl injected ↦ absurd (cc (rw (present, short, injected) at h))
      | inr clean ↦ elim (Bool-cases (matches_email t)) [
        | inr other ↦ absurd (cc (rw (present, short, clean, other) at h))
        | inl address ↦
            let one : t ≡ email = cc (rw (present, short, clean, address) at h) in
            rw (← one) (record {
              present = present;
              short = ground (arith, short);
              printed = matches_email-printed t address;
              address = address;
            })
      ]
    ]
  ]
]

pub assert-IsTrusted :
    (lower_case : Text → Text) (raw : Option Text) (email : Text)
    → assert_trusted_recipient_email lower_case raw ≡ ok email
    → IsTrusted email
unfolding assert_trusted_recipient_email
assert-IsTrusted lower_case none email h = absurd (cc)
assert-IsTrusted lower_case (some raw) email h =
    check_email-IsTrusted (lower_case (trim raw)) email h
