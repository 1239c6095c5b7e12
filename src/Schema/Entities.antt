-- ===== src/Schema/Entities.antt =====
-- The rows of the tables: the entity classes under src/*/entities. An id or a token is a uuid, and
-- is read as the number that a uuid spells; a date is a number of milliseconds; `null` is `none`.
-- `updatedAt` is kept only where code orders by it.
use drawback_backend.Prelude.{ℕ, String, Bool, List, Option}
use drawback_backend.Schema.Enums.{
  UserMode, UserRole, ChatRequestStatus, GroupInvitationStatus, GroupMemberRole, ReportStatus,
  ReportType, SessionEventType, Platform, SubscriptionStatus, AdminAction, PushProvider,
  PushPlatform,
}

-- `ads?.provider?` of the overrides.
pub record UserConfigOverrides : Type 0 where
  pub ads_provider : Option String

pub record User : Type 0 where
  pub id : ℕ
  pub email : String
  pub password_hash : String
  pub display_name : String
  pub is_activated : Bool
  pub activation_token : Option ℕ
  pub activation_token_expiry : Option ℕ
  pub mode : UserMode
  pub appear_in_searches : Bool
  pub appear_in_discovery_game : Bool
  pub discovery_image_url : Option String
  pub has_discovery_access : Bool
  pub temporary_discovery_access_expires_at : Option ℕ
  pub role : UserRole
  pub session_version : ℕ
  pub is_blocked : Bool
  pub blocked_at : Option ℕ
  pub blocked_reason : Option String
  pub reset_token : Option ℕ
  pub reset_token_expiry : Option ℕ
  pub delete_token : Option ℕ
  pub delete_token_expiry : Option ℕ
  pub config_overrides : Option UserConfigOverrides
  pub created_at : ℕ

pub record UserBlock : Type 0 where
  pub id : ℕ
  pub blocker_id : ℕ
  pub blocked_id : ℕ
  pub created_at : ℕ

pub record Subscription : Type 0 where
  pub id : ℕ
  pub user_id : ℕ
  pub platform : Platform
  pub tier : String
  pub status : SubscriptionStatus
  pub start_date : ℕ
  pub end_date : ℕ
  pub auto_renew : Bool
  pub original_transaction_id : Option String
  pub purchase_token : String

pub record ChatRequest : Type 0 where
  pub id : ℕ
  pub from_user_id : ℕ
  pub to_user_id : ℕ
  pub status : ChatRequestStatus
  pub created_at : ℕ

pub record SavedChat : Type 0 where
  pub id : ℕ
  pub chat_request_id : ℕ
  pub saved_by_user_id : ℕ
  pub saved_at : ℕ

pub record GroupChat : Type 0 where
  pub id : ℕ
  pub name : String
  pub created_by_user_id : ℕ
  pub created_at : ℕ

pub record GroupChatMember : Type 0 where
  pub id : ℕ
  pub group_chat_id : ℕ
  pub user_id : ℕ
  pub role : GroupMemberRole
  pub joined_at : ℕ

pub record GroupChatInvitation : Type 0 where
  pub id : ℕ
  pub group_chat_id : ℕ
  pub inviter_user_id : ℕ
  pub invitee_user_id : ℕ
  pub status : GroupInvitationStatus
  pub created_at : ℕ

pub record Credential : Type 0 where
  pub id : ℕ
  pub user_id : ℕ
  pub credential_id : String
  pub public_key : String
  pub counter : ℕ
  pub transports : Option (List String)
  pub device_id : Option String
  pub platform : Option String
  pub last_used_at : Option ℕ
  pub created_at : ℕ

pub record Report : Type 0 where
  pub id : ℕ
  pub reporter_id : ℕ
  pub reported_user_id : ℕ
  pub report_type : ReportType
  pub description : String
  pub chat_request_id : Option ℕ
  pub session_context : Option String
  pub status : ReportStatus
  pub admin_notes : Option String
  pub resolved_by : Option ℕ
  pub resolved_at : Option ℕ
  pub created_at : ℕ

pub record AppleNotification : Type 0 where
  pub id : ℕ
  pub notification_uuid : String
  pub notification_type : String
  pub original_transaction_id : Option String

-- admin/entities/admin-audit-log.entity.ts; of the metadata the model keeps the reason of a ban and
-- the users whose mail failed.
pub record AuditLog : Type 0 where
  pub id : ℕ
  pub admin_id : ℕ
  pub action : AdminAction
  pub target_user_ids : List ℕ
  pub reason : Option String
  pub failed_user_ids : List ℕ
  pub created_at : ℕ

pub record PushToken : Type 0 where
  pub id : ℕ
  pub user_id : ℕ
  pub provider : PushProvider
  pub token : String
  pub platform : PushPlatform
  pub device_id : String
  pub active : Bool
  pub deactivation_reason : Option String
  pub last_seen_at : Option ℕ
  pub created_at : ℕ
  pub updated_at : ℕ

pub record SessionEvent : Type 0 where
  pub id : ℕ
  pub user_id : ℕ
  pub event_type : SessionEventType
  pub ip_address : Option String
  pub socket_id : Option String
  pub room_id : Option String
  pub request_id : Option String
  pub created_at : ℕ

pub record AppConfigData : Type 0 where
  pub ads_provider : String
  pub temporary_discovery_access_duration_minutes : ℕ

pub record AppConfig : Type 0 where
  pub id : ℕ
  pub config : AppConfigData
