-- ===== src/Examples/Passkeys.antt =====
-- The theorems on passkeys at a user with one passkey.
use drawback_backend.Prelude.{
  String, true, false, List, [], ◌∷◌, Option, none, some, ◌≡◌, refl, ◌==◌, arith, count, find_one,
  if◌then◌else◌,
}
use drawback_backend.Schema.Entities.{Credential}
use drawback_backend.World.{World, ok, err, bad_request}
use drawback_backend.Users.Queries.{find_by_id}
use drawback_backend.Realtime.Connections.{JwtPayload}
use drawback_backend.Auth.{find_by_email, payload_of, validate}
use drawback_backend.Auth.Sessions.{next_session}
use drawback_backend.Auth.Passkeys.{
  WebAuthn, VerifiedAuthentication, find_credential, rolled_back, start_passkey_login,
  finish_passkey_login,
}
use drawback_backend.Auth.Passkeys.Limit.{
  AtMostFive, PasskeyCall, finish_registration, start_registration, remove, perform_all,
  perform_all-AtMostFive,
}
use drawback_backend.Auth.Passkeys.Assertions.{
  AssertionOutcome, finish_passkey_login-AssertionOutcome, finish_passkey_login-once,
}
use drawback_backend.Auth.Passkeys.Success.{start-finish_passkey_login}
use drawback_backend.Examples.{same_text, ada, no_rows, empty_world}

abbrev sign : Option String → JwtPayload → String
sign o p = p.email

abbrev key : Credential
key = record {
  id = 3;
  user_id = 1;
  credential_id = "key";
  public_key = "public";
  counter = 4;
  transports = none;
  device_id = none;
  platform = none;
  last_used_at = some 10;
  created_at = 10;
}

abbrev answer : VerifiedAuthentication
answer = record { verified = true; new_counter = 5 }

abbrev library : WebAuthn
library = record {
  rp_id = some "example.org";
  rp_name = some "Drawing";
  origin = some "https://example.org";
  verify_registration = λ response challenge. some (record {
    verified = true;
    credential =
        some (record { id = "other"; public_key = "public"; counter = 0; transports = none });
  });
  verify_authentication = λ response challenge c. some answer;
  decode = same_text;
}

abbrev with_key : World
with_key = record empty_world { db = record no_rows { credentials = key ∷ [] } }

abbrev challenged : World
challenged = record with_key { challenges = λ u. if u == 1 then some "challenge" else none }

one_key : AtMostFive with_key.db
unfolding count
one_key u = ground arith

abbrev calls : List PasskeyCall
calls =
    start_registration library "challenge" 1
    ∷ finish_registration library 4 100 1 "response" none none
    ∷ remove 1 3
    ∷ []

perform_all-AtMostFive_example : AtMostFive (perform_all calls with_key).db
perform_all-AtMostFive_example = perform_all-AtMostFive calls with_key one_key

finish_passkey_login-AssertionOutcome_example :
    let r = finish_passkey_login library sign 100 "key" "response" challenged in
    AssertionOutcome library sign 100 "key" "response" challenged r.0 r.1
finish_passkey_login-AssertionOutcome_example =
    finish_passkey_login-AssertionOutcome library sign 100 "key" "response" challenged

by_email : find_by_email same_text "ada@example.org" with_key.db ≡ some ada
unfolding find_by_email find_one
by_email = refl

by_key : find_credential "key" with_key.db ≡ some key
unfolding find_credential find_one
by_key = refl

by_id : find_by_id 1 with_key.db ≡ some ada
unfolding find_by_id find_one
by_id = refl

grown : rolled_back 4 5 ≡ false
unfolding rolled_back
grown = refl

start-finish_passkey_login_example :
    let w' = (start_passkey_login library same_text "challenge" "ada@example.org" with_key).1 in
    let r = finish_passkey_login library sign 100 "key" "response" w' in
    (r.0 ≡ ok (some (sign none (payload_of (next_session ada)))))
    × (validate (payload_of (next_session ada)) r.1 ≡ (ok (next_session ada), r.1))
start-finish_passkey_login_example =
    start-finish_passkey_login library same_text sign 100 "key" "response" "challenge"
      "ada@example.org" with_key ada key answer by_email refl refl by_key by_id refl refl refl refl
      refl grown

first_login :
    (finish_passkey_login library sign 100 "key" "response"
      (start_passkey_login library same_text "challenge" "ada@example.org" with_key).1).0
    ≡ ok (some "ada@example.org")
first_login =
    (start-finish_passkey_login library same_text sign 100 "key" "response" "challenge"
      "ada@example.org" with_key ada key answer by_email refl refl by_key by_id refl refl refl refl
      refl grown).0

finish_passkey_login-once_example :
    let w = (start_passkey_login library same_text "challenge" "ada@example.org" with_key).1 in
    let w' = (finish_passkey_login library sign 100 "key" "response" w).1 in
    finish_passkey_login library sign 200 "key" "again" w'
    ≡ (err (bad_request "No challenge found or challenge expired. Please try again."), w')
finish_passkey_login-once_example =
    finish_passkey_login-once library sign 100 200 "key" "response" "again" "ada@example.org"
      (start_passkey_login library same_text "challenge" "ada@example.org" with_key).1 first_login
