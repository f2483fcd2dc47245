-- ===== src/Tests/Pairing.antt =====
-- A pairing from its start to a device, and calls that come again.
use cursor_gateway.Base.{
  ◌==◌, is_some, ◌<◌, true, ◌+◌, leb, ◌&&◌, none, some, List, [], ◌∷◌, ◌++◌, ◌≡◌, refl, arith,
  length, ok, err, if◌then◌else◌,
}
use cursor_gateway.Text.{Text, codes}
use cursor_gateway.Pairing.{
  PairingStatus, PairingStart, PairingOffer, PairingComplete, AckStatus, PairingAck, Pairing,
  Directory, PairingError,
}
use cursor_gateway.Pairing.Recipient.{RecipientError, assert_trusted_recipient_email}
use cursor_gateway.Pairing.Trusted.{IsClaimOf, claim_next_pairing_start-IsTrusted}
use cursor_gateway.Pairing.Address.{IsTrusted}
use cursor_gateway.Pairing.Stages.{is_pending_start}
use mathlib.Core.List.{Memᴰ}
use cursor_gateway.Table.{count_where}
use cursor_gateway.Pairing.Served.{holds_up, claim_next_pairing_start-serves}
use cursor_gateway.Pairing.Statements.{
  recipient_of, claimable_start, Users, claim_next_pairing_start, same_complete,
  submit_pairing_complete,
}
use cursor_gateway.Pairing.Register.{list_pending_revocations}
use cursor_gateway.Pairing.Advances.{IsSound, Advances}
use cursor_gateway.Pairing.Trace.{Call, calls, calls-Advances}
use cursor_gateway.Pairing.Complete.{submit_pairing_complete-repeated}

abbrev no_pairings : Directory
no_pairings = record { pairings = []; devices = [] }

no_pairings-IsSound : IsSound []
no_pairings-IsSound = record { distinct = tt; consistent = tt }

abbrev a_start : PairingStart
a_start = record {
  pair_id = 1;
  client_id = 40;
  client_challenge = 5;
  signing_key = record { key = 11; fingerprint = 12 };
  encryption_key = record { key = 21; fingerprint = 22 };
}

abbrev an_offer : PairingOffer
an_offer = record {
  pair_id = 1;
  client_id = 40;
  client_challenge = 5;
  client_signing_fingerprint = 12;
  client_encryption_fingerprint = 22;
  expires_at = 900;
  body = 0;
}

abbrev a_complete : PairingComplete
a_complete = record { pair_id = 1; client_id = 40; body = 77 }

abbrev an_ack : PairingAck
an_ack = record { pair_id = 1; client_id = 40; status = AckStatus.ack_paired; body = 0 }

-- The capital letters of ASCII are made small.
abbrev lowered : Text → Text
lowered [] = []
lowered (c ∷ cs) = (if leb 65 c && leb c 90 then c + 32 else c) ∷ lowered cs

abbrev mail : Users
mail = record { email = λ user. some (codes " A@Example.org "); lower_case = lowered }

-- A user 3 pairs a browser with the runner 8.
abbrev pairing_calls : List Call
pairing_calls =
    Call.create 100 3 600 a_start
    ∷ Call.claim_start 110 mail 8
    ∷ Call.publish_offer 120 8 an_offer
    ∷ Call.submit_complete 130 3 a_complete
    ∷ Call.claim_complete 140 8
    ∷ Call.publish_ack 150 8 an_ack
    ∷ []

calls-Advances_example : Advances [] (calls pairing_calls no_pairings).pairings
calls-Advances_example = calls-Advances pairing_calls no_pairings no_pairings-IsSound

one_device : length (calls pairing_calls no_pairings).devices ≡ 1
unfolding calls
one_device = refl

-- The state in which the offer has been published.
abbrev offered : Directory
offered = record { pairings = offered_row ∷ []; devices = [] }
  where
    offered_row : Pairing
    offered_row = record {
      pair_id = 1;
      user_id = 3;
      status = PairingStatus.offer_ready;
      start = a_start;
      offer = some an_offer;
      complete = none;
      ack = none;
      runner_id = some 8;
      expires_at = 900;
      created_at = 100;
      updated_at = 120;
    }

abbrev completed_row : Pairing
completed_row = record {
  pair_id = 1;
  user_id = 3;
  status = PairingStatus.complete_submitted;
  start = a_start;
  offer = some an_offer;
  complete = some a_complete;
  ack = none;
  runner_id = some 8;
  expires_at = 900;
  created_at = 100;
  updated_at = 130;
}

first_submission : (submit_pairing_complete 130 3 a_complete offered).1 ≡ ok completed_row
unfolding submit_pairing_complete
first_submission = refl

abbrev other_complete : PairingComplete
other_complete = record a_complete { body = 78 }

submit_pairing_complete-repeated_example :
    submit_pairing_complete 200 3 other_complete
      (submit_pairing_complete 130 3 a_complete offered).0
    ≡ (
      (submit_pairing_complete 130 3 a_complete offered).0,
      if same_complete a_complete other_complete
          then ok completed_row
          else err PairingError.pairing_complete_conflict,
    )
submit_pairing_complete-repeated_example =
    submit_pairing_complete-repeated 130 3 a_complete offered (tt, tt) 200 other_complete
      completed_row refl refl first_submission (omega arith)

-- An acknowledgement that is sent again after the user has revoked the device lets it in again.
abbrev replayed_calls : List Call
replayed_calls = pairing_calls ++ (Call.revoke_device 160 3 40 ∷ Call.publish_ack 170 8 an_ack ∷ [])

revocation_undone : list_pending_revocations 8 (calls replayed_calls no_pairings) ≡ []
unfolding calls list_pending_revocations
revocation_undone = refl

abbrev started : Directory
started = record { pairings = started_row ∷ []; devices = [] }
  where
    started_row : Pairing
    started_row = record {
      pair_id = 1;
      user_id = 3;
      status = PairingStatus.pending_start;
      start = a_start;
      offer = none;
      complete = none;
      ack = none;
      runner_id = none;
      expires_at = 600100;
      created_at = 100;
      updated_at = 100;
    }

abbrev claimed_row : Pairing
claimed_row = record {
  pair_id = 1;
  user_id = 3;
  status = PairingStatus.pending_start;
  start = a_start;
  offer = none;
  complete = none;
  ack = none;
  runner_id = some 8;
  expires_at = 600100;
  created_at = 100;
  updated_at = 110;
}

claimed :
    (claim_next_pairing_start 110 mail 8 started).1 ≡ some (claimed_row, codes "a@example.org")
unfolding claim_next_pairing_start
claimed = refl

claim_next_pairing_start-IsTrusted_example :
    (Pairing.runner_id claimed_row ≡ some 8)
    × (is_pending_start claimed_row.status ≡ true)
    × (110 < Pairing.expires_at claimed_row)
    × (assert_trusted_recipient_email lowered (some (codes " A@Example.org "))
        ≡ ok (codes "a@example.org"))
    × IsTrusted (codes "a@example.org")
    × ((q : Pairing) × Memᴰ q (Directory.pairings started) × IsClaimOf 110 8 q claimed_row)
claim_next_pairing_start-IsTrusted_example =
    claim_next_pairing_start-IsTrusted 110 mail 8 started claimed_row (codes "a@example.org")
      claimed

header_injected :
    assert_trusted_recipient_email lowered (some (codes "a@example.org\nBcc: b@c.de"))
    ≡ err RecipientError.recipient_email_injection
unfolding assert_trusted_recipient_email
header_injected = refl

-- An older pairing of a user who has no address.
abbrev nameless_row : Pairing
nameless_row = record claimed_row { pair_id = 2; user_id = 4; runner_id = none; created_at = 50 }

abbrev waiting_row : Pairing
waiting_row = record claimed_row { runner_id = none }

abbrev two_waiting : Directory
two_waiting = record { pairings = nameless_row ∷ waiting_row ∷ []; devices = [] }

abbrev one_mail : Users
one_mail = record {
  email = λ user. if user == 3 then some (codes "a@example.org") else none;
  lower_case = lowered;
}

mailed : recipient_of one_mail 3 ≡ some (codes "a@example.org")
unfolding recipient_of
mailed = refl

claimable : claimable_start 110 8 waiting_row ≡ true
unfolding claimable_start
claimable = refl

one_held : count_where (holds_up 110 one_mail 8) two_waiting.pairings < 8
unfolding count_where claimable_start recipient_of
one_held = omega arith

claim_next_pairing_start-serves_example :
    is_some (claim_next_pairing_start 110 one_mail 8 two_waiting).1 ≡ true
claim_next_pairing_start-serves_example =
    claim_next_pairing_start-serves 110 one_mail 8 two_waiting waiting_row (codes "a@example.org")
      ((omega arith, tt), (tt, tt)) (Memᴰ.tail (Memᴰ.head refl)) claimable mailed one_held
