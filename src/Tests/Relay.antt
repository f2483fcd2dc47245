-- ===== src/Tests/Relay.antt =====
-- A history of three messages, and two appends at once.
use cursor_gateway.Base.{
  ℕ, ◌+◌, ◌<◌, max, none, List, [], ◌∷◌, ◌≡◌, refl, arith, length, err, coalesce,
}
use cursor_gateway.Relay.{
  RelayMessage, RelayRole, Append, AppendError, append_relay_message, rows_after,
}
use cursor_gateway.Relay.Sync.{sync}
use cursor_gateway.Relay.Numbers.{AppendCall, appended, sync-appended}

abbrev message : ℕ → RelayMessage
message n = record {
  id = 100 + n;
  conversation_id = 1;
  account_id = 7;
  sequence = n;
  role = RelayRole.user;
  content = 50 + n;
  idempotency_key = none;
  created_at = n;
  deleted_at = none;
}

abbrev history : List RelayMessage
history = message 2 ∷ message 3 ∷ message 1 ∷ []

in_order : sync 9 7 1 0 none 2 history ≡ message 1 ∷ message 2 ∷ message 3 ∷ []
unfolding sync
in_order = refl

abbrev a_message : Append
a_message = record {
  account_id = 7;
  conversation_id = 1;
  role = RelayRole.assistant;
  text = 9;
  idempotency_key = none;
  expected_sequence = none;
}

-- The second of two appends that have read the same number fails on a row that is missing.
two_appends :
    (append_relay_message 9 201
      (λ n. n)
      a_message
      history
      history
      ((append_relay_message 9 200 (λ n. n) a_message history history history).0)).1
    ≡ err AppendError.type_error
unfolding append_relay_message
two_appends = refl

-- Three appends, of which the last has read the number before the second was stored.
abbrev call_of : ℕ → List RelayMessage → AppendCall
call_of id seen = record {
  now = id;
  id = id;
  encrypt = λ n. n;
  append = a_message;
  first = seen;
  second = seen;
}

abbrev first_message : RelayMessage
first_message = record (message 1) {
  id = 300;
  role = RelayRole.assistant;
  content = 1;
  created_at = 300;
}

abbrev three_calls : List AppendCall
three_calls =
    call_of 300 [] ∷ call_of 301 (first_message ∷ []) ∷ call_of 302 (first_message ∷ []) ∷ []

two_stored : length (appended three_calls []) ≡ 2
unfolding appended
two_stored = refl

enough_fuel : length (rows_after 7 1 (max 0 (coalesce none 0)) (appended three_calls [])) < 9
unfolding rows_after appended
enough_fuel = omega arith

sync-appended_example :
    sync 9 7 1 0 none 1 (appended three_calls [])
    ≡ rows_after 7 1 (max 0 (coalesce none 0)) (appended three_calls [])
sync-appended_example = sync-appended three_calls 7 1 0 1 9 none enough_fuel
