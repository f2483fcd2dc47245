-- ===== src/Pairing/Recipient.antt =====
-- The recipient of a pairing mail: apps/server/src/pairingRecipient.ts. `toLowerCase` of the
-- language, with its tables of characters, is a parameter.
use cursor_gateway.Base.{
  ℕ, Bool, true, false, not, ◌&&◌, ◌||◌, Option, none, some, List, [], ◌∷◌, any, ltb, leb, ◌==◌,
  if◌then◌else◌, length, Result, ok, err,
}
use cursor_gateway.Text.{Text, is_empty, trim}

pub data RecipientError : Type 0 where
  recipient_email_missing recipient_email_invalid recipient_email_injection : RecipientError

unfoldable pub all_units : (ℕ → Bool) → Text → Bool
all_units p [] = true
all_units p (c ∷ cs) = p c && all_units p cs

abbrev pub push_unit : ℕ → List Text → List Text
push_unit c [] = (c ∷ []) ∷ []
push_unit c (t ∷ ts) = (c ∷ t) ∷ ts

-- The parts between the separators.
unfoldable pub split_on : ℕ → Text → List Text
split_on s [] = [] ∷ []
split_on s (c ∷ cs) = let rest = split_on s cs in if c == s then [] ∷ rest else push_unit c rest

unfoldable pub is_alphanumeric : ℕ → Bool
is_alphanumeric c = (leb 97 c && leb c 122) || (leb 65 c && leb c 90) || (leb 48 c && leb c 57)

-- `[a-z0-9.!#$%&'*+/=?^_\`{|}~-]`
unfoldable pub is_local_unit : ℕ → Bool
unfolding is_alphanumeric
is_local_unit c =
    is_alphanumeric c
    || c == 33
    || (leb 35 c && leb c 39)
    || (leb 42 c && leb c 43)
    || (leb 45 c && leb c 47)
    || c == 61
    || c == 63
    || (leb 94 c && leb c 96)
    || (leb 123 c && leb c 126)

unfoldable pub is_label_unit : ℕ → Bool
unfolding is_alphanumeric
is_label_unit c = is_alphanumeric c || c == 45

unfoldable pub ends_alphanumeric : Text → Bool
unfolding is_alphanumeric
ends_alphanumeric [] = false
ends_alphanumeric (c ∷ []) = is_alphanumeric c
ends_alphanumeric (c ∷ d ∷ cs) = ends_alphanumeric (d ∷ cs)

unfoldable pub starts_alphanumeric : Text → Bool
unfolding is_alphanumeric
starts_alphanumeric [] = false
starts_alphanumeric (c ∷ cs) = is_alphanumeric c

-- `[a-z0-9](?:[a-z0-9-]{0,61}[a-z0-9])?`
unfoldable pub is_label : Text → Bool
unfolding all_units is_label_unit starts_alphanumeric ends_alphanumeric
is_label t =
    leb (length t) 63 && all_units is_label_unit t && starts_alphanumeric t && ends_alphanumeric t

unfoldable pub all_labels : List Text → Bool
unfolding is_label
all_labels [] = true
all_labels (t ∷ ts) = is_label t && all_labels ts

-- At least two labels.
unfoldable pub is_domain : List Text → Bool
unfolding all_labels is_label
is_domain [] = false
is_domain (t ∷ []) = false
is_domain (t ∷ u ∷ ts) = is_label t && all_labels (u ∷ ts)

unfoldable pub is_address : List Text → Bool
unfolding all_units is_local_unit is_domain split_on
is_address [] = false
is_address (local ∷ []) = false
is_address (local ∷ domain ∷ []) =
    not (is_empty local) && all_units is_local_unit local && is_domain (split_on 46 domain)
is_address (local ∷ domain ∷ more ∷ rest) = false

-- `EMAIL_RE.test`
unfoldable pub matches_email : Text → Bool
unfolding is_address split_on
matches_email t = is_address (split_on 64 t)

abbrev pub injects : ℕ → Bool
injects c = c == 13 || c == 10 || c == 0

unfoldable pub check_email : Text → Result RecipientError Text
unfolding matches_email
check_email email =
    if is_empty email
    then err RecipientError.recipient_email_missing
    else if ltb 320 (length email)
    then err RecipientError.recipient_email_invalid
    else if any injects email
    then err RecipientError.recipient_email_injection
    else if not (matches_email email)
    then err RecipientError.recipient_email_invalid
    else ok email

-- `assertTrustedRecipientEmail`; a value that is no string is `none`.
unfoldable pub assert_trusted_recipient_email :
    (lower_case : Text → Text) → (raw : Option Text) → Result RecipientError Text
unfolding check_email trim
assert_trusted_recipient_email lower_case none = err RecipientError.recipient_email_missing
assert_trusted_recipient_email lower_case (some raw) = check_email (lower_case (trim raw))
