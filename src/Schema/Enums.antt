-- ===== src/Schema/Enums.antt =====
-- The enumerations of the entities (users/enums, chat/enums, reports/enums under src/) and the texts
-- that the columns `platform` and `status` of a subscription hold.
use mathlib.Core.Bool.{Bool, true, false}

pub data UserMode : Type 0 where
  public private : UserMode

pub data UserRole : Type 0 where
  user admin : UserRole

pub data ChatRequestStatus : Type 0 where
  pending accepted rejected : ChatRequestStatus

pub data GroupInvitationStatus : Type 0 where
  pending accepted rejected : GroupInvitationStatus

pub data GroupMemberRole : Type 0 where
  owner member : GroupMemberRole

pub data ReportStatus : Type 0 where
  pending under_review resolved dismissed : ReportStatus

pub data ReportType : Type 0 where
  inappropriate_content harassment csae spam impersonation other : ReportType

pub data Platform : Type 0 where
  ios android : Platform

pub data SubscriptionStatus : Type 0 where
  active cancelled expired grace_period on_hold billing_retry revoked : SubscriptionStatus

pub data SessionEventType : Type 0 where
  connect disconnect chat_joined chat_left : SessionEventType

pub data AdminAction : Type 0 where
  ban_user unban_user reset_password update_role : AdminAction

pub data PushProvider : Type 0 where
  fcm : PushProvider

pub data PushPlatform : Type 0 where
  ios android : PushPlatform

-- Comparisons with one value of an enumeration, as `===` makes them.
abbrev pub is_public : UserMode → Bool
is_public UserMode.public = true
is_public UserMode.private = false

abbrev pub is_admin : UserRole → Bool
is_admin UserRole.admin = true
is_admin UserRole.user = false

abbrev pub is_pending : ChatRequestStatus → Bool
is_pending ChatRequestStatus.pending = true
is_pending _ = false

abbrev pub is_accepted : ChatRequestStatus → Bool
is_accepted ChatRequestStatus.accepted = true
is_accepted _ = false

abbrev pub is_pending_invitation : GroupInvitationStatus → Bool
is_pending_invitation GroupInvitationStatus.pending = true
is_pending_invitation _ = false

abbrev pub is_owner : GroupMemberRole → Bool
is_owner GroupMemberRole.owner = true
is_owner GroupMemberRole.member = false

abbrev pub is_active : SubscriptionStatus → Bool
is_active SubscriptionStatus.active = true
is_active _ = false

abbrev pub is_ios : Platform → Bool
is_ios Platform.ios = true
is_ios Platform.android = false
