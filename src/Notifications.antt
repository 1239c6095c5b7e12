-- ===== src/Notifications.antt =====
-- notifications/notifications.service.ts: the tokens of devices, and the messages of Firebase. What
-- Firebase answers to the attempts to send is a parameter: nothing, or the code of an error. The ids
-- of a message's data are the numbers that stand for them.
pub mod Current
pub mod Tokens
pub mod Delivery
use drawback_backend.Prelude.{
  ℕ, String, Bool, true, false, List, [], ◌∷◌, ◌++◌, Option, none, some, ◌==◌, ◌&&◌, ◌||◌, not,
  find_one, remove_where, update_where, select, sort_desc, str_eq, head_of, is_there,
}
use Prim.Native.String.{◌++◌ as append}
use drawback_backend.Schema.{Database}
use drawback_backend.Schema.Enums.{PushProvider, PushPlatform}
use drawback_backend.Schema.Entities.{PushToken}
use drawback_backend.World.{World, Exec, return, gets, modify_db, choose, if_found, ◌>>=◌, ◌>>◌}

-- There is one provider.
abbrev pub same_provider : PushProvider → PushProvider → Bool
same_provider PushProvider.fcm PushProvider.fcm = true

abbrev pub has_token : PushProvider → String → PushToken → Bool
has_token provider token t = same_provider t.provider provider && str_eq t.token token

abbrev pub belongs_to : PushProvider → ℕ → PushToken → Bool
belongs_to provider user_id t = t.user_id == user_id && same_provider t.provider provider

unfoldable pub delete_token : ℕ → Database → Database
delete_token id db = record db { push_tokens = remove_where (λ t. t.id == id) db.push_tokens }

unfoldable pub change_token : ℕ → (PushToken → PushToken) → Database → Database
change_token id change db = record db {
  push_tokens = update_where (λ t. t.id == id) change db.push_tokens;
}

unfoldable pub insert_token : PushToken → Database → Database
insert_token t db = record db { push_tokens = db.push_tokens ++ t ∷ [] }

-- What a device registers.
pub record Registration : Type 0 where
  pub provider : PushProvider
  pub token : String
  pub platform : PushPlatform
  pub device_id : String

-- The token's row, now of the user.
abbrev pub taken_over : ℕ → ℕ → Registration → PushToken → PushToken
taken_over now user_id r t = record t {
  user_id = user_id;
  platform = r.platform;
  device_id = r.device_id;
  active = true;
  deactivation_reason = none;
  last_seen_at = some now;
  updated_at = now;
}

-- The user's row, now with the token.
abbrev pub with_token : ℕ → Registration → PushToken → PushToken
with_token now r t = record t {
  token = r.token;
  platform = r.platform;
  device_id = r.device_id;
  active = true;
  deactivation_reason = none;
  last_seen_at = some now;
  updated_at = now;
}

abbrev pub new_token : ℕ → ℕ → ℕ → Registration → PushToken
new_token id now user_id r = record {
  id = id;
  user_id = user_id;
  provider = r.provider;
  token = r.token;
  platform = r.platform;
  device_id = r.device_id;
  active = true;
  deactivation_reason = none;
  last_seen_at = some now;
  created_at = now;
  updated_at = now;
}

-- Another row of the user goes.
abbrev delete_other : PushToken → Option PushToken → Exec (Unit {0})
delete_other existing none = return tt
delete_other existing (some mine) =
    choose (mine.id == existing.id) (return tt) (modify_db (delete_token mine.id))

unfoldable pub reuse : ℕ → ℕ → Registration → Option PushToken → PushToken → Exec (Unit {0})
reuse now user_id r mine existing = do
  delete_other existing mine
  modify_db (change_token existing.id (taken_over now user_id r))

unfoldable pub register_token : ℕ → ℕ → ℕ → Registration → Exec (Unit {0})
register_token id now user_id r = do
  by_token ← gets (λ w. find_one (has_token r.provider r.token) w.db.push_tokens)
  mine ← gets (λ w. find_one (belongs_to r.provider user_id) w.db.push_tokens)
  if_found by_token
      (if_found mine (modify_db (insert_token (new_token id now user_id r)))
        (λ t. modify_db (change_token t.id (with_token now r))))
      (reuse now user_id r mine)

unfoldable pub deactivate_token : ℕ → PushProvider → String → Exec (Unit {0})
deactivate_token user_id provider token = do
  existing ←
      gets
        (λ w. find_one (λ t. has_token provider token t && t.user_id == user_id) w.db.push_tokens)
  if_found existing (return tt) (λ t. modify_db (delete_token t.id))

-- The data of the four kinds of message; the message id of a waiting peer is made of the two ids.
pub data MessageData : Type 0 where
  request_received : (request : ℕ) → (sender message : String) → MessageData
  peer_waiting : (request : ℕ) → (room : String) → (waiting : ℕ) → MessageData
  group_member_added : (group : ℕ) → (name adder message : String) → MessageData
  group_invite : (invitation group : ℕ) → (name inviter message : String) → MessageData

pub record Message : Type 0 where
  pub token : String
  pub title : String
  pub body : String
  pub content : MessageData

-- The answer of Firebase to an attempt: `none` if it was sent.
abbrev pub Attempts : Type 0
Attempts = ℕ → Option String

abbrev pub is_invalid_token_error : String → Bool
is_invalid_token_error c =
    str_eq c "messaging/invalid-registration-token"
    || str_eq c "messaging/registration-token-not-registered"

abbrev pub is_retryable_messaging_error : String → Bool
is_retryable_messaging_error c =
    str_eq c "messaging/internal-error"
    || str_eq c "messaging/server-unavailable"
    || str_eq c "messaging/unknown-error"

-- What came of a message: the attempts that were made, and whether one was sent.
pub record Sending : Type 0 where
  pub attempts : List Message
  pub sent : Bool

abbrev pub tried : List Message → Bool → Sending
tried attempts sent = record { attempts = attempts; sent = sent }

-- One retry, after a second.
abbrev pub retried : Option String → Message → Sending
retried none m = tried (m ∷ m ∷ []) true
retried (some c) m = tried (m ∷ m ∷ []) false

unfoldable pub send_fcm_message : Attempts → PushToken → Message → Exec Sending
send_fcm_message answer t m = if_found (answer 0) (return (tried (m ∷ []) true)) λ c.
    choose (is_invalid_token_error c)
      (modify_db (delete_token t.id) >> return (tried (m ∷ []) false))
      (choose (not (is_retryable_messaging_error c)) (return (tried (m ∷ []) false))
        (return (retried (answer 1) m)))

-- The active token of the user that was written last.
unfoldable pub current_token : ℕ → Database → Option PushToken
current_token user_id db = head_of (
    sort_desc (λ t. t.updated_at)
      (select (λ t. t.user_id == user_id && t.active && same_provider t.provider PushProvider.fcm)
        db.push_tokens))

abbrev pub no_message : Sending
no_message = tried [] false

-- The loop over the one token.
unfoldable pub send_to : Attempts → ℕ → (String → Message) → Exec Sending
send_to answer recipient_user_id message = do
  token ← gets (λ w. current_token recipient_user_id w.db)
  if_found token (return no_message) λ t. send_fcm_message answer t (message t.token)

unfoldable pub can_send_push : (is_push_enabled has_firebase_app : Bool) → Bool
can_send_push is_push_enabled has_firebase_app = is_push_enabled && has_firebase_app

-- `can_send` is `can_send_push` of the configuration; `is_free` says that the pair of users got the lock
-- of 60 seconds.
unfoldable pub send_chat_request_push :
    Bool → Bool → Attempts → ℕ → ℕ → String → String → Exec Sending
send_chat_request_push can_send is_free answer recipient request_id sender_name message_id =
    choose (not can_send) (return no_message) (
      choose (not is_free) (return no_message) (
        send_to answer recipient (λ token. record {
          token = token;
          title = "DrawBack Request";
          body = append sender_name " sent you a draw request";
          content = request_received request_id sender_name message_id;
        })))

-- `waitingUserName || 'Your peer'`
abbrev pub waiting_name : Option String → String
waiting_name none = "Your peer"
waiting_name (some n) = elim (str_eq n "") [ true ↦ "Your peer" | false ↦ n ]

unfoldable pub send_peer_waiting_push :
    Bool → Attempts → ℕ → ℕ → String → ℕ → Option String → Exec Sending
send_peer_waiting_push can_send answer recipient request_id room_id waiting_user_id name =
    choose (not can_send) (return no_message) (
      send_to answer recipient (λ token. record {
        token = token;
        title = "DrawBack Request";
        body = append (waiting_name name) " is waiting in the chat room";
        content = peer_waiting request_id room_id waiting_user_id;
      }))

unfoldable pub send_group_member_added_push :
    Bool → Attempts → ℕ → ℕ → String → String → String → Exec Sending
send_group_member_added_push can_send answer recipient group_id group_name added_by_name
      message_id =
    choose (not can_send) (return no_message) (
      send_to answer recipient (λ token. record {
        token = token;
        title = "Added to a group";
        body = append added_by_name (append " added you to \"" (append group_name "\""));
        content = group_member_added group_id group_name added_by_name message_id;
      }))

unfoldable pub send_group_invite_push :
    Bool → Attempts → ℕ → ℕ → ℕ → String → String → String → Exec Sending
send_group_invite_push can_send answer recipient invitation_id group_id group_name inviter_name
      message_id =
    choose (not can_send) (return no_message) (
      send_to answer recipient (λ token. record {
        token = token;
        title = "Group invitation";
        body = append inviter_name (append " invited you to join \"" (append group_name "\""));
        content = group_invite invitation_id group_id group_name inviter_name message_id;
      }))
