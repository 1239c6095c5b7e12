-- ===== src/Examples.antt =====
-- A small world for the examples: two users with an accepted request between them, a group of the
-- first, both sockets connected and in the room of the request.
pub mod Chats
pub mod Sockets
pub mod Accounts
pub mod Purchases
pub mod Passkeys
pub mod Devices
pub mod Logs
use drawback_backend.Prelude.{ℕ, String, true, false, [], ◌∷◌, none, some, ◌==◌, if◌then◌else◌}
use drawback_backend.Schema.{Database}
use drawback_backend.Schema.Enums.{ChatRequestStatus, GroupMemberRole, ReportStatus, ReportType}
use drawback_backend.Schema.Entities.{User, ChatRequest, GroupChat, GroupChatMember, Report}
use drawback_backend.World.{World}
use drawback_backend.World.Realtime.{Realtime, chat_room}
use drawback_backend.Auth.{new_user}
use drawback_backend.Realtime.Connections.{JwtPayload}

abbrev pub same_text : String → String
same_text s = s

abbrev pub ada : User
ada = record (new_user 1 0 7 "ada@example.org" "secret" "ada") {
  is_activated = true;
  reset_token = some 9;
  reset_token_expiry = some 5000;
}

abbrev pub bob : User
bob = record (new_user 2 0 8 "bob@example.org" "hidden" "bob") { is_activated = true }

abbrev pub talk : ChatRequest
talk = record {
  id = 1;
  from_user_id = 1;
  to_user_id = 2;
  status = ChatRequestStatus.accepted;
  created_at = 0;
}

abbrev pub club : GroupChat
club = record { id = 1; name = "club"; created_by_user_id = 1; created_at = 0 }

abbrev pub owner_row : GroupChatMember
owner_row = record {
  id = 1;
  group_chat_id = 1;
  user_id = 1;
  role = GroupMemberRole.owner;
  joined_at = 0;
}

abbrev pub complaint : Report
complaint = record {
  id = 1;
  reporter_id = 1;
  reported_user_id = 2;
  report_type = ReportType.spam;
  description = "too many strokes";
  chat_request_id = none;
  session_context = none;
  status = ReportStatus.resolved;
  admin_notes = none;
  resolved_by = some 1;
  resolved_at = some 10;
  created_at = 0;
}

abbrev pub no_rows : Database
no_rows = record {
  users = ada ∷ bob ∷ [];
  user_blocks = [];
  subscriptions = [];
  chat_requests = [];
  saved_chats = [];
  group_chats = [];
  group_chat_members = [];
  group_chat_invitations = [];
  credentials = [];
  reports = [];
  apple_notifications = [];
  audit_logs = [];
  push_tokens = [];
  app_configs = [];
  session_events = [];
}

abbrev pub tables : Database
tables = record no_rows {
  chat_requests = talk ∷ [];
  group_chats = club ∷ [];
  group_chat_members = owner_row ∷ [];
  reports = complaint ∷ [];
}

-- Socket 11 is Ada's and socket 12 is Bob's.
abbrev pub gateway : Realtime
gateway = record {
  socket_to_user = λ s. if s == 11 then some 1 else if s == 12 then some 2 else none;
  socket_to_room =
      λ s. if s == 11 then some (chat_room 1) else if s == 12 then some (chat_room 1) else none;
  clear_rate_map = λ s. none;
  stroke_rate_map = λ s. none;
  redis_user_socket = λ u. if u == 1 then some 11 else if u == 2 then some 12 else none;
  redis_socket_user = λ s. if s == 11 then some 1 else if s == 12 then some 2 else none;
  redis_socket_meta = λ s. none;
  connected = 11 ∷ 12 ∷ [];
  rooms =
      record { room = chat_room 1; socket = 11 } ∷ record { room = chat_room 1; socket = 12 } ∷ [];
}

abbrev pub empty_world : World
empty_world = record { db = no_rows; realtime = gateway; challenges = λ u. none; outbox = [] }

abbrev pub busy_world : World
busy_world = record { db = tables; realtime = gateway; challenges = λ u. none; outbox = [] }

abbrev pub ada_token : JwtPayload
ada_token = record {
  sub = 1;
  email = "ada@example.org";
  display_name = "ada";
  role = ada.role;
  session_version = 0;
}
