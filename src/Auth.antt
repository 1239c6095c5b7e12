-- ===== src/Auth.antt =====
-- auth/auth.service.ts (passkeys in Passkeys) and auth/jwt.strategy.ts. The hash and the comparison of
-- bcrypt, the signing of a token, and `toLowerCase` are parameters; a random token is an argument.
pub mod Sessions
pub mod Tokens
pub mod Passkeys
use drawback_backend.Prelude.{
  ℕ, String, Bool, true, false, List, [], ◌∷◌, ◌++◌, Option, none, some, ◌+◌, ◌*◌, ◌==◌, ◌&&◌, ◌||◌,
  not, ltb, if◌then◌else◌, select, update_where, find_one, any, str_eq, holds,
}
use drawback_backend.Schema.{Database}
use drawback_backend.Schema.Enums.{UserMode, UserRole}
use drawback_backend.Schema.Entities.{User, Credential}
use drawback_backend.World.{
  World, Exec, return, throw, gets, modify_db, send, ◌>>=◌, ◌>>◌, throw_if, or_throw, if_found,
  conflict, unauthorized, forbidden, mail_activation, mail_password_reset, mail_account_deletion,
}
use drawback_backend.Users.Queries.{find_by_id, find_by_display_name}
use drawback_backend.Users.Profile.{save_user}
use drawback_backend.Users.Blocks.{delete_account}
use drawback_backend.Realtime.Connections.{JwtPayload}

unfoldable pub find_by_email : (String → String) → String → Database → Option User
find_by_email to_lower_case email db = find_one (λ u. str_eq u.email (to_lower_case email)) db.users

abbrev pub hours : ℕ → ℕ
hours n = n * 60 * 60 * 1000

abbrev pub activation_token_ttl_hours : ℕ
activation_token_ttl_hours = 24

abbrev pub reset_token_ttl_hours : ℕ
reset_token_ttl_hours = 1

abbrev pub delete_token_ttl_hours : ℕ
delete_token_ttl_hours = 24

-- A new row, with the defaults of users/entities/user.entity.ts.
abbrev pub new_user : ℕ → ℕ → ℕ → String → String → String → User
new_user id now token email password_hash display_name = record {
  id = id;
  email = email;
  password_hash = password_hash;
  display_name = display_name;
  is_activated = false;
  activation_token = some token;
  activation_token_expiry = some (now + hours activation_token_ttl_hours);
  mode = UserMode.private;
  appear_in_searches = true;
  appear_in_discovery_game = false;
  discovery_image_url = none;
  has_discovery_access = false;
  temporary_discovery_access_expires_at = none;
  role = UserRole.user;
  session_version = 0;
  is_blocked = false;
  blocked_at = none;
  blocked_reason = none;
  reset_token = none;
  reset_token_expiry = none;
  delete_token = none;
  delete_token_expiry = none;
  config_overrides = none;
  created_at = now;
}

unfoldable pub insert_user : User → Database → Database
insert_user u db = record db { users = db.users ++ u ∷ [] }

abbrev pub is_found {ℓ} : {A : Type ℓ} → Option A → Bool
is_found none = false
is_found (some a) = true

unfoldable pub register :
    (String → String) → (String → String) → ℕ → ℕ → ℕ → String → String → String → Exec (Unit {0})
register to_lower_case hash id now token email password display_name = do
  email_taken ← gets (λ w. find_by_email to_lower_case email w.db)
  throw_if (is_found email_taken) (conflict "Email is already in use")
  name_taken ← gets (λ w. find_by_display_name to_lower_case display_name w.db)
  throw_if (is_found name_taken) (conflict "Display name is already taken")
  modify_db (
      insert_user
        (new_user id now token (to_lower_case email) (hash password) (to_lower_case display_name)))
  send (mail_activation (to_lower_case email) token (to_lower_case display_name))

-- The answers of the confirmations.
pub record Outcome : Type 0 where
  pub success : Bool
  pub email : Option String
  pub temp_token : Option String
  pub reason : Option String

abbrev pub failed : Option String → String → Outcome
failed email reason = record {
  success = false;
  email = email;
  temp_token = none;
  reason = some reason;
}

abbrev pub succeeded : String → Option String → Outcome
succeeded email temp_token = record {
  success = true;
  email = some email;
  temp_token = temp_token;
  reason = none;
}

-- `expiry && expiry < new Date()`
abbrev pub has_expired : Option ℕ → ℕ → Bool
has_expired none now = false
has_expired (some t) now = ltb t now

abbrev pub payload_of : User → JwtPayload
payload_of u = record {
  sub = u.id;
  email = u.email;
  display_name = u.display_name;
  role = u.role;
  session_version = u.session_version;
}

abbrev pub activated : User → User
activated u = record u {
  is_activated = true;
  activation_token = none;
  activation_token_expiry = none;
}

-- `sign` takes the option `expiresIn`, if it is given, and the payload.
unfoldable pub activate : (Option String → JwtPayload → String) → ℕ → User → Exec Outcome
activate sign now user =
    if user.is_activated
    then return (failed (some user.email) "Account is already activated")
    else if has_expired user.activation_token_expiry now
    then return (failed (some user.email) "Activation token has expired")
    else modify_db (save_user (activated user))
      >> return (succeeded user.email (some (sign (some "24h") (payload_of user))))

unfoldable pub confirm_email : (Option String → JwtPayload → String) → ℕ → ℕ → Exec Outcome
unfolding activate
confirm_email sign now token = do
  user ← gets (λ w. find_one (λ u. holds u.activation_token token) w.db.users)
  if_found user (return (failed none "Invalid or expired activation token")) (activate sign now)

unfoldable pub resend : ℕ → ℕ → User → Exec (Unit {0})
resend now token user =
    if user.is_activated
    then return tt
    else modify_db (
        save_user (record user {
          activation_token = some token;
          activation_token_expiry = some (now + hours activation_token_ttl_hours);
        }))
      >> send (mail_activation user.email token user.display_name)

unfoldable pub resend_confirmation_email : (String → String) → ℕ → ℕ → String → Exec (Unit {0})
unfolding resend
resend_confirmation_email to_lower_case now token email = do
  user ← gets (λ w. find_by_email to_lower_case email w.db)
  if_found user (return tt) (resend now token)

unfoldable pub send_reset : ℕ → ℕ → User → Exec (Unit {0})
send_reset now token user =
    if not user.is_activated
    then return tt
    else modify_db (
        save_user (record user {
          reset_token = some token;
          reset_token_expiry = some (now + hours reset_token_ttl_hours);
        }))
      >> send (mail_password_reset user.email token user.display_name)

unfoldable pub forgot_password : (String → String) → ℕ → ℕ → String → Exec (Unit {0})
unfolding send_reset
forgot_password to_lower_case now token email = do
  user ← gets (λ w. find_by_email to_lower_case email w.db)
  if_found user (return tt) (send_reset now token)

abbrev pub with_password : String → User → User
with_password password_hash u = record u {
  password_hash = password_hash;
  reset_token = none;
  reset_token_expiry = none;
}

unfoldable pub reset : String → ℕ → User → Exec Outcome
reset password_hash now user =
    if_found user.reset_token_expiry (return (failed none "Invalid or expired reset token"))
      λ expiry.
        if ltb expiry now
        then return (failed (some user.email) "Reset token has expired")
        else modify_db (save_user (with_password password_hash user))
          >> return (succeeded user.email none)

-- A row that is found by its token has one.
unfoldable pub reset_password : (String → String) → ℕ → ℕ → String → Exec Outcome
unfolding reset
reset_password hash now token password = do
  user ← gets (λ w. find_one (λ u. holds u.reset_token token) w.db.users)
  if_found user (return (failed none "Invalid or expired reset token")) (reset (hash password) now)

unfoldable pub increment_session_version : ℕ → Database → Database
increment_session_version user_id db = record db {
  users =
      update_where (λ u. u.id == user_id)
        (λ u. record u { session_version = u.session_version + 1 }) db.users;
}

unfoldable pub issue_single_session_access_token :
    (Option String → JwtPayload → String) → ℕ → Exec String
issue_single_session_access_token sign user_id = do
  modify_db (increment_session_version user_id)
  found ← gets (λ w. find_by_id user_id w.db)
  user ← or_throw found (unauthorized "User not found")
  return (sign none (payload_of user))

pub record Login : Type 0 where
  pub access_token : String
  pub can_add_passkey : Bool

abbrev pub is_device : String → Option String → Bool
is_device d none = false
is_device d (some e) = str_eq e d

abbrev pub is_empty : List Credential → Bool
is_empty [] = true
is_empty (c ∷ cs) = false

-- An empty device id counts as none.
unfoldable pub can_add_passkey : Option String → List Credential → Bool
can_add_passkey none cs = is_empty cs
can_add_passkey (some d) cs =
    if str_eq d "" then is_empty cs else not (any (λ c. is_device d c.device_id) cs)

unfoldable pub log_in :
    (String → String → Bool)
    → (Option String → JwtPayload → String)
    → String
    → Option String
    → User
    → Exec (Option Login)
log_in compare sign password device_id user =
    if not (compare password user.password_hash) then return none else do
      throw_if (not user.is_activated)
          (unauthorized "Account not activated. Please check your email.")
      throw_if user.is_blocked (forbidden "Account has been blocked")
      token ← issue_single_session_access_token sign user.id
      credentials ← gets (λ w. select (λ c. c.user_id == user.id) w.db.credentials)
      return (
          some (record {
            access_token = token;
            can_add_passkey = can_add_passkey device_id credentials;
          }))

unfoldable pub login :
    (String → String)
    → (String → String → Bool)
    → (Option String → JwtPayload → String)
    → String
    → String
    → Option String
    → Exec (Option Login)
unfolding log_in
login to_lower_case compare sign email password device_id = do
  user ← gets (λ w. find_by_email to_lower_case email w.db)
  if_found user (return none) (log_in compare sign password device_id)

-- Whether there was such a user.
unfoldable pub request_account_deletion : ℕ → ℕ → ℕ → Exec Bool
request_account_deletion now token user_id = do
  found ← gets (λ w. find_by_id user_id w.db)
  if_found found (return false) λ user. do
    modify_db (
        save_user (record user {
          delete_token = some token;
          delete_token_expiry = some (now + hours delete_token_ttl_hours);
        }))
    send (mail_account_deletion user.email token user.display_name)
    return true

unfoldable pub login_and_delete :
    (String → String) → (String → String → Bool) → ℕ → ℕ → String → String → Exec Bool
login_and_delete to_lower_case compare now token email password = do
  user ← gets (λ w. find_by_email to_lower_case email w.db)
  if_found user (return false) λ u.
      if not (compare password u.password_hash)
      then return false
      else request_account_deletion now token u.id

unfoldable pub delete_confirmed : ℕ → User → Exec Outcome
delete_confirmed now user =
    if_found user.delete_token_expiry (return (failed none "Invalid or expired deletion token"))
      λ expiry.
        if ltb expiry now
        then return (failed (some user.email) "Deletion token has expired")
        else delete_account user.id >> return (succeeded user.email none)

unfoldable pub confirm_delete : ℕ → ℕ → Exec Outcome
confirm_delete now token = do
  user ← gets (λ w. find_one (λ u. holds u.delete_token token) w.db.users)
  if_found user (return (failed none "Invalid or expired deletion token")) (delete_confirmed now)

-- auth/jwt.strategy.ts
unfoldable pub validate : JwtPayload → Exec User
validate payload = do
  found ← gets (λ w. find_by_id payload.sub w.db)
  user ← or_throw found (unauthorized "Invalid or expired token")
  throw_if (not user.is_activated) (unauthorized "Invalid or expired token")
  throw_if user.is_blocked (unauthorized "Account has been blocked")
  throw_if (not (payload.session_version == user.session_version))
      (unauthorized "Session expired. Please log in again.")
  return user
