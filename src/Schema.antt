-- ===== src/Schema.antt =====
-- The database: a table for each entity, and what the foreign keys remove with a row.
pub mod Enums
pub mod Entities
use drawback_backend.Prelude.{
  ℕ, List, Bool, ◌==◌, ◌||◌, ◌&&◌, any, none, holds, remove_where, update_where,
}
use Entities.{
  User, UserBlock, Subscription, ChatRequest, SavedChat, GroupChat, GroupChatMember,
  GroupChatInvitation, Credential, Report, AppleNotification, AuditLog, PushToken, AppConfig,
  SessionEvent,
}

pub record Database : Type 0 where
  pub users : List User
  pub user_blocks : List UserBlock
  pub subscriptions : List Subscription
  pub chat_requests : List ChatRequest
  pub saved_chats : List SavedChat
  pub group_chats : List GroupChat
  pub group_chat_members : List GroupChatMember
  pub group_chat_invitations : List GroupChatInvitation
  pub credentials : List Credential
  pub reports : List Report
  pub apple_notifications : List AppleNotification
  pub audit_logs : List AuditLog
  pub push_tokens : List PushToken
  pub app_configs : List AppConfig
  pub session_events : List SessionEvent

-- A chat request goes with the saved chats that refer to it.
unfoldable pub delete_chat_request : ℕ → Database → Database
delete_chat_request id db = record db {
  chat_requests = remove_where (λ r. r.id == id) db.chat_requests;
  saved_chats = remove_where (λ s. s.chat_request_id == id) db.saved_chats;
}

-- A group goes with its members and its invitations.
unfoldable pub delete_group_chat : ℕ → Database → Database
delete_group_chat id db = record db {
  group_chats = remove_where (λ g. g.id == id) db.group_chats;
  group_chat_members = remove_where (λ m. m.group_chat_id == id) db.group_chat_members;
  group_chat_invitations = remove_where (λ i. i.group_chat_id == id) db.group_chat_invitations;
}

-- Whether a request, and a group, belongs to the user.
abbrev pub is_party : ℕ → ChatRequest → Bool
is_party u r = r.from_user_id == u || r.to_user_id == u

abbrev pub made_by : ℕ → GroupChat → Bool
made_by u g = g.created_by_user_id == u

-- A user goes with all rows that refer to the user or to a row that goes; a report that the user
-- resolved stays, and forgets the resolver.
unfoldable pub delete_user : ℕ → Database → Database
delete_user u db = record db {
  users = remove_where (λ x. x.id == u) db.users;
  user_blocks = remove_where (λ b. b.blocker_id == u || b.blocked_id == u) db.user_blocks;
  subscriptions = remove_where (λ s. s.user_id == u) db.subscriptions;
  chat_requests = remove_where (is_party u) db.chat_requests;
  saved_chats =
      remove_where
        (λ s.
          s.saved_by_user_id == u
          || any (λ r. is_party u r && r.id == s.chat_request_id) db.chat_requests)
        db.saved_chats;
  group_chats = remove_where (made_by u) db.group_chats;
  group_chat_members =
      remove_where
        (λ m. m.user_id == u || any (λ g. made_by u g && g.id == m.group_chat_id) db.group_chats)
        db.group_chat_members;
  group_chat_invitations =
      remove_where
        (λ i.
          i.inviter_user_id == u
          || i.invitee_user_id == u
          || any (λ g. made_by u g && g.id == i.group_chat_id) db.group_chats)
        db.group_chat_invitations;
  credentials = remove_where (λ c. c.user_id == u) db.credentials;
  push_tokens = remove_where (λ t. t.user_id == u) db.push_tokens;
  reports =
      update_where (λ r. holds r.resolved_by u) (λ r. record r { resolved_by = none })
        (remove_where (λ r. r.reporter_id == u || r.reported_user_id == u) db.reports);
}
