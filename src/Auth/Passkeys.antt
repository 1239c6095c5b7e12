-- ===== src/Auth/Passkeys.antt =====
-- auth/auth.service.ts: passkeys. The library of WebAuthn is a parameter, `none` where it raises; a
-- challenge that it makes is an argument. `decode` reads base64url, and bytes are texts. The challenge
-- of a user is in Redis until it is used or has run out.
pub mod Limit
pub mod Assertions
pub mod Success
use drawback_backend.Prelude.{
  ℕ, String, Bool, true, false, List, [], ◌∷◌, ◌++◌, Option, none, some, ◌+◌, ◌-◌, ◌*◌, ◌==◌, ◌&&◌,
  ◌||◌, not, ltb, leb, find_one, select, count, any, drop, map, remove_where, update_where,
  sort_desc, str_eq, non_empty, is_there,
}
use drawback_backend.Schema.{Database}
use drawback_backend.Schema.Entities.{User, Credential}
use drawback_backend.World.{
  World, Exec, return, gets, modify_db, modify_challenges, if_found, or_throw, throw_if, ◌>>=◌,
  ◌>>◌, bad_request, conflict, error, forbidden, unauthorized,
}
use drawback_backend.World.Realtime.{put, delete}
use drawback_backend.Users.Queries.{find_by_id}
use drawback_backend.Realtime.Connections.{JwtPayload}
use drawback_backend.Auth.{find_by_email, issue_single_session_access_token}

-- The credential of a new authenticator.
pub record NewCredential : Type 0 where
  pub id : String
  pub public_key : String
  pub counter : ℕ
  pub transports : Option (List String)

pub record VerifiedRegistration : Type 0 where
  pub verified : Bool
  pub credential : Option NewCredential

pub record VerifiedAuthentication : Type 0 where
  pub verified : Bool
  pub new_counter : ℕ

-- The configuration, and the library's two checks of a response against a challenge.
pub record WebAuthn : Type 0 where
  pub rp_id : Option String
  pub rp_name : Option String
  pub origin : Option String
  pub verify_registration : String → String → Option VerifiedRegistration
  pub verify_authentication : String → String → Credential → Option VerifiedAuthentication
  pub decode : String → String

unfoldable pub store_challenge : ℕ → String → Exec (Unit {0})
store_challenge user_id challenge = modify_challenges (put user_id challenge)

-- An empty text counts as none.
unfoldable pub get_challenge : ℕ → World → Option String
get_challenge user_id w = non_empty (w.challenges user_id)

unfoldable pub delete_challenge : ℕ → Exec (Unit {0})
delete_challenge user_id = modify_challenges (delete user_id)

abbrev both_set : Option String → Option String → Bool
both_set a b = is_there (non_empty a) && is_there (non_empty b)

-- The challenge of the options, which go to the authenticator.
unfoldable pub start_passkey_registration : WebAuthn → String → ℕ → Exec (Option String)
start_passkey_registration web challenge user_id = do
  found ← gets (λ w. find_by_id user_id w.db)
  if_found found (return none) λ user. do
    throw_if (not user.is_activated)
        (unauthorized "Account must be activated before registering passkeys")
    throw_if user.is_blocked (forbidden "Account has been blocked")
    throw_if (not (both_set web.rp_id web.rp_name))
        (error "WEBAUTHN_RP_ID and WEBAUTHN_RP_NAME must be configured")
    store_challenge user_id challenge
    return (some challenge)

unfoldable pub find_credential : String → Database → Option Credential
find_credential bytes db = find_one (λ c. str_eq c.credential_id bytes) db.credentials

abbrev pub new_credential :
    (String → String) → ℕ → ℕ → ℕ → NewCredential → Option String → Option String → Credential
new_credential decode id now user_id c device_id platform = record {
  id = id;
  user_id = user_id;
  credential_id = decode c.id;
  public_key = c.public_key;
  counter = c.counter;
  transports = c.transports;
  device_id = device_id;
  platform = platform;
  last_used_at = some now;
  created_at = now;
}

unfoldable pub insert_credential : Credential → Database → Database
insert_credential c db = record db { credentials = db.credentials ++ c ∷ [] }

abbrev pub ninety_days : ℕ
ninety_days = 90 * 24 * 60 * 60 * 1000

abbrev pub used_before : ℕ → Option ℕ → Bool
used_before t none = false
used_before t (some u) = ltb u t

-- The credentials of the user that were last used more than 90 days ago, but for the new one.
unfoldable pub delete_unused : ℕ → Credential → Database → Database
delete_unused now new db = record db {
  credentials =
      remove_where
        (λ c.
          c.user_id == new.user_id
          && used_before (now - ninety_days) c.last_used_at
          && not (c.id == new.id))
        db.credentials;
}

abbrev pub is_among : List Credential → Credential → Bool
is_among removed c = any (λ d. d.id == c.id) removed

unfoldable pub credentials_of : ℕ → Database → List Credential
credentials_of user_id db =
    sort_desc (λ c. c.created_at) (select (λ c. c.user_id == user_id) db.credentials)

-- All but the five that were made last.
unfoldable pub enforce_limit : ℕ → Database → Database
enforce_limit user_id db = record db {
  credentials = remove_where (is_among (drop 5 (credentials_of user_id db))) db.credentials;
}

-- The transaction.
unfoldable pub register_credential : ℕ → Credential → Database → Database
register_credential now new db =
    enforce_limit new.user_id (delete_unused now new (insert_credential new db))

-- The challenge goes whatever comes of the check.
unfoldable pub finish_passkey_registration :
    WebAuthn → ℕ → ℕ → ℕ → String → Option String → Option String → Exec (Option (Unit {0}))
finish_passkey_registration web id now user_id response device_id platform = do
  found ← gets (λ w. find_by_id user_id w.db)
  if_found found (return none) λ user. do
    challenge ← gets (get_challenge user_id)
    expected ←
        or_throw challenge
          (bad_request "No challenge found or challenge expired. Please try again.")
    throw_if (not (both_set web.rp_id web.origin))
        (error "WEBAUTHN_RP_ID and WEBAUTHN_ORIGIN must be configured")
    delete_challenge user_id
    answer ←
        or_throw (web.verify_registration response expected)
          (bad_request "Passkey verification failed")
    throw_if (not answer.verified) (bad_request "Passkey verification failed")
    credential ← or_throw answer.credential (bad_request "Passkey verification failed")
    existing ← gets (λ w. find_credential (web.decode credential.id) w.db)
    throw_if (is_there existing) (conflict "This passkey is already registered")
    modify_db (
        register_credential now
          (new_credential web.decode id now user.id credential device_id platform))
    return (some tt)

-- The challenge, and the credentials that the options allow.
pub record LoginOptions : Type 0 where
  pub challenge : String
  pub allow_credentials : List Credential

unfoldable pub may_log_in : User → List Credential → Bool
may_log_in user [] = false
may_log_in user (c ∷ cs) = user.is_activated && not user.is_blocked

unfoldable pub start_passkey_login :
    WebAuthn → (String → String) → String → String → Exec LoginOptions
start_passkey_login web to_lower_case challenge email = do
  found ← gets (λ w. find_by_email to_lower_case email w.db)
  user ←
      or_throw found
        (unauthorized "Invalid credentials or no passkeys registered for this account.")
  credentials ← gets (λ w. select (λ c. c.user_id == user.id) w.db.credentials)
  throw_if (not (may_log_in user credentials))
      (unauthorized "Invalid credentials or no passkeys registered for this account.")
  throw_if (not (is_there (non_empty web.rp_id))) (error "WEBAUTHN_RP_ID must be configured")
  store_challenge user.id challenge
  return (record { challenge = challenge; allow_credentials = credentials })

-- A counter that has not grown, unless the authenticator does not count.
unfoldable pub rolled_back : (old new : ℕ) → Bool
rolled_back old new = (ltb 0 new || ltb 0 old) && leb new old

abbrev pub used : ℕ → ℕ → Credential → Credential
used now counter c = record c { counter = counter; last_used_at = some now }

-- `save` of the loaded row writes the columns that have changed.
unfoldable pub save_credential : ℕ → ℕ → ℕ → Database → Database
save_credential id now counter db = record db {
  credentials = update_where (λ c. c.id == id) (used now counter) db.credentials;
}

-- The part of `finishPasskeyLogin` from the check on.
unfoldable pub accept_assertion :
    WebAuthn
    → (Option String → JwtPayload → String)
    → ℕ
    → String
    → String
    → Credential
    → User
    → Exec (Option String)
accept_assertion web sign now response expected credential user = do
  delete_challenge user.id
  answer ←
      or_throw (web.verify_authentication response expected credential)
        (unauthorized "Passkey verification failed")
  throw_if (not answer.verified) (unauthorized "Passkey verification failed")
  throw_if (rolled_back credential.counter answer.new_counter)
      (unauthorized "Authentication failed. Please contact support.")
  modify_db (save_credential credential.id now answer.new_counter)
  token ← issue_single_session_access_token sign user.id
  return (some token)

-- A credential has a user, by its foreign key; reading a missing one would raise.
unfoldable pub finish_passkey_login :
    WebAuthn → (Option String → JwtPayload → String) → ℕ → String → String → Exec (Option String)
finish_passkey_login web sign now id response = do
  found ← gets (λ w. find_credential (web.decode id) w.db)
  if_found found (return none) λ credential. do
    owner ← gets (λ w. find_by_id credential.user_id w.db)
    user ← or_throw owner (error "Cannot read properties of null")
    throw_if (not user.is_activated)
        (unauthorized "Account not activated. Please check your email.")
    throw_if user.is_blocked (forbidden "Account has been blocked")
    challenge ← gets (get_challenge user.id)
    expected ←
        or_throw challenge
          (bad_request "No challenge found or challenge expired. Please try again.")
    throw_if (not (both_set web.rp_id web.origin))
        (error "WEBAUTHN_RP_ID and WEBAUTHN_ORIGIN must be configured")
    accept_assertion web sign now response expected credential user

-- What the list shows of a credential.
pub record CredentialView : Type 0 where
  pub id : ℕ
  pub created_at : ℕ
  pub last_used_at : Option ℕ
  pub transports : Option (List String)
  pub device_id : Option String
  pub platform : Option String

abbrev pub view_of : Credential → CredentialView
view_of c = record {
  id = c.id;
  created_at = c.created_at;
  last_used_at = c.last_used_at;
  transports = c.transports;
  device_id = c.device_id;
  platform = c.platform;
}

unfoldable pub list_credentials : ℕ → Exec (List CredentialView)
list_credentials user_id = gets (λ w. map view_of (credentials_of user_id w.db))

abbrev pub has_no_password : Option User → Bool
has_no_password none = false
has_no_password (some u) = str_eq u.password_hash ""

unfoldable pub remove_credential : ℕ → Database → Database
remove_credential id db = record db { credentials = remove_where (λ c. c.id == id) db.credentials }

-- Whether there was such a credential of the user.
unfoldable pub delete_credential : ℕ → ℕ → Exec Bool
delete_credential user_id id = do
  found ← gets (λ w. find_one (λ c. c.id == id && c.user_id == user_id) w.db.credentials)
  if_found found (return false) λ credential. do
    number ← gets (λ w. count (λ c. c.user_id == user_id) w.db.credentials)
    user ← gets (λ w. find_by_id user_id w.db)
    throw_if (number == 1 && has_no_password user)
        (bad_request "Cannot delete last passkey. Set a password first to avoid account lockout.")
    modify_db (remove_credential credential.id)
    return true
