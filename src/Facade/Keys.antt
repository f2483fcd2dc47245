-- ===== src/Facade/Keys.antt =====
-- API keys: apps/server/src/csapi/protocol.ts, `extractApiKey` to `assertUniqueApiKeyIds`.
pub mod Isolation
use Prim.Native.Nat.{bit_xor}
use cursor_gateway.Base.{
  ℕ, zero, suc, ◌+◌, ◌-◌, ◌*◌, ◌/◌, ◌%◌, ◌^◌, Bool, true, false, not, ◌&&◌, ◌||◌, Option, none,
  some, List, [], ◌∷◌, ◌++◌, map, any, ltb, leb, ◌==◌, if◌then◌else◌, Result, ok, err, length,
}
use cursor_gateway.Text.{Text, codes, is_empty, same_units, trim, trim_start, is_space, take, drop}

-- What the code finds under a name of the headers. An element of a list that is no string is `none`.
pub data Header : Type 0 where
  missing : Header
  single : Text → Header
  several : List (Option Text) → Header

-- `header(name)`
unfoldable pub header_text : Header → Option Text
header_text Header.missing = none
header_text (Header.single t) = some t
header_text (Header.several []) = none
header_text (Header.several (v ∷ vs)) = v

-- One code unit under a pattern that ignores case.
abbrev lower : ℕ → ℕ
lower c = if leb 65 c && leb c 90 then c + 32 else c

-- The code units that `.` of a pattern does not match.
abbrev ends_line : ℕ → Bool
ends_line c = c == 10 || c == 13 || c == 8232 || c == 8233

abbrev starts_with_space : Text → Bool
starts_with_space [] = false
starts_with_space (c ∷ cs) = is_space c

-- `/^Bearer\s+(.+)$/i`, on a trimmed text, and its group trimmed.
unfoldable pub bearer : Text → Option Text
unfolding take drop same_units is_space trim trim_start
bearer t =
    let rest = drop 6 t in
    let key = trim_start rest in
    if same_units (map lower (take 6 t)) (codes "bearer")
      && starts_with_space rest
      && not (is_empty key)
      && not (any ends_line key)
    then some (trim key)
    else none

abbrev bearer_of : Option Text → Option Text
unfolding bearer trim
bearer_of none = none
bearer_of (some auth) = if is_empty auth then none else bearer (trim auth)

-- `extractApiKey`
unfoldable pub extract_api_key : (x_api_key authorization : Header) → Option Text
unfolding header_text trim bearer
extract_api_key x_api_key authorization = key (header_text x_api_key)
  where
    key : Option Text → Option Text
    key none = bearer_of (header_text authorization)
    key (some t) =
        if is_empty (trim t) then bearer_of (header_text authorization) else some (trim t)

-- The bytes of a text in UTF-8; a surrogate that stands alone is the replacement character.
abbrev replacement : List ℕ
replacement = 239 ∷ 191 ∷ 189 ∷ []

-- The code units from a high surrogate on, and those of any other text.
unfoldable pub utf8_from : (high : Option ℕ) → Text → List ℕ
utf8_from none [] = []
utf8_from (some h) [] = replacement
utf8_from none (c ∷ cs) =
    let after = utf8_from none cs in
    let pair = utf8_from (some c) cs in
    if ltb c 128
    then c ∷ after
    else if ltb c 2048
    then (192 + c / 64) ∷ (128 + c % 64) ∷ after
    else if leb 55296 c && ltb c 56320
    then pair
    else if leb 56320 c && ltb c 57344
    then replacement ++ after
    else (224 + c / 4096) ∷ (128 + c / 64 % 64) ∷ (128 + c % 64) ∷ after
utf8_from (some h) (c ∷ cs) =
    let after = utf8_from none cs in
    let pair = utf8_from (some c) cs in
    let point = 65536 + (h - 55296) * 1024 + (c - 56320) in
    if leb 56320 c && ltb c 57344
    then (240 + point / 262144)
      ∷ (128 + point / 4096 % 64)
      ∷ (128 + point / 64 % 64)
      ∷ (128 + point % 64)
      ∷ after
    else replacement
      ++ (if leb 55296 c && ltb c 56320
          then pair
          else if ltb c 128
          then c ∷ after
          else if ltb c 2048
          then (192 + c / 64) ∷ (128 + c % 64) ∷ after
          else (224 + c / 4096) ∷ (128 + c / 64 % 64) ∷ (128 + c % 64) ∷ after)

-- `Buffer.from(text, "utf8")`
unfoldable pub utf8 : Text → List ℕ
unfolding utf8_from
utf8 t = utf8_from none t

-- `timingSafeEqualStr`: the lengths, then the bytes.
unfoldable pub timing_safe_equal_str : Text → Text → Bool
unfolding utf8 same_units
timing_safe_equal_str a b =
    if not (length (utf8 a) == length (utf8 b)) then false else same_units (utf8 a) (utf8 b)

-- The loop of `apiKeyId`: the hash is a 32-bit word.
unfoldable pub hash_from : (hash : ℕ) → Text → ℕ
hash_from hash [] = hash
hash_from hash (c ∷ cs) = hash_from (bit_xor hash c * 16777619 % 2 ^ 32) cs

abbrev hex_digit : ℕ → ℕ
hex_digit d = if ltb d 10 then 48 + d else 87 + d

-- `toString(16).padStart(8, "0")` of a 32-bit word: its `n` low digits.
unfoldable pub hex : (n : ℕ) → ℕ → Text
hex zero w = []
hex (suc n) w = hex n (w / 16) ++ (hex_digit (w % 16) ∷ [])

-- `apiKeyId`
unfoldable pub api_key_id : Text → Text
unfolding hash_from hex
api_key_id key = codes "k_" ++ hex 8 (hash_from 2166136261 key)

-- The loop of `matchApiKey`.
unfoldable pub match_from : (presented : Text) → (allowed : List Text) → Option Text
unfolding timing_safe_equal_str api_key_id
match_from presented [] = none
match_from presented (key ∷ keys) =
    if not (is_empty key) && timing_safe_equal_str presented key
    then some (api_key_id key)
    else match_from presented keys

-- `matchApiKey`
unfoldable pub match_api_key : (presented : Option Text) → (allowed : List Text) → Option Text
unfolding match_from
match_api_key none allowed = none
match_api_key (some presented) allowed =
    if is_empty presented then none else match_from presented allowed

pub data KeyError : Type 0 where
  colliding_key_identifiers : KeyError

-- The loop of `assertUniqueApiKeyIds`, given the ids that it has seen; `none` where nothing is thrown.
unfoldable pub unique_from : (seen : List Text) → (keys : List Text) → Option KeyError
unfolding api_key_id same_units
unique_from seen [] = none
unique_from seen (key ∷ keys) =
    let again = unique_from seen keys in
    let rest = unique_from (api_key_id key ∷ seen) keys in
    if is_empty key
    then again
    else if any (same_units (api_key_id key)) seen
    then some KeyError.colliding_key_identifiers
    else rest

-- `assertUniqueApiKeyIds`
unfoldable pub assert_unique_api_key_ids : List Text → Option KeyError
unfolding unique_from
assert_unique_api_key_ids keys = unique_from [] keys
