-- ===== src/Chat/Groups.antt =====
-- chat/chat.service.ts: group chats, from `createGroup` to `buildGroupRoomId`.
use drawback_backend.Prelude.{
  ℕ, String, Bool, true, false, List, [], ◌∷◌, ◌++◌, Option, none, some, ◌==◌, ◌&&◌, not,
  if◌then◌else◌, select, remove_where, update_where, find_one, any, map, sort_desc,
}
use drawback_backend.Schema.{Database, delete_group_chat}
use drawback_backend.Schema.Enums.{
  GroupMemberRole, GroupInvitationStatus, is_owner, is_pending_invitation,
}
use drawback_backend.Schema.Entities.{User, GroupChat, GroupChatMember, GroupChatInvitation}
use drawback_backend.Users.Queries.{find_by_id, find_by_display_name, is_blocked}
use drawback_backend.Realtime.Rooms.{
  emit_to_user, notify_group_deleted, force_remove_user_from_room,
}
use drawback_backend.World.{
  Exec, return, gets, modify_db, send, ◌>>=◌, ◌>>◌, throw_if, or_throw, not_found, bad_request,
  forbidden, push_group_invite, group_invite, group_invite_response,
}
use drawback_backend.World.Realtime.{RoomId, group_room}

abbrev pub build_group_room_id : ℕ → RoomId
build_group_room_id group_id = group_room group_id

-- A group with the members that the query joins to it.
pub record Group : Type 0 where
  pub chat : GroupChat
  pub members : List GroupChatMember

abbrev pub members_of : ℕ → Database → List GroupChatMember
members_of group_id db = select (λ m. m.group_chat_id == group_id) db.group_chat_members

abbrev pub with_members : Database → Option GroupChat → Option Group
with_members db none = none
with_members db (some g) = some (record { chat = g; members = members_of g.id db })

unfoldable pub get_group_by_id : ℕ → Database → Option Group
get_group_by_id group_id db = with_members db (find_one (λ g. g.id == group_id) db.group_chats)

abbrev pub new_group : ℕ → ℕ → ℕ → String → GroupChat
new_group id now creator_id name = record {
  id = id;
  name = name;
  created_by_user_id = creator_id;
  created_at = now;
}

abbrev pub new_member : ℕ → ℕ → ℕ → ℕ → GroupMemberRole → GroupChatMember
new_member id now group_id user_id role = record {
  id = id;
  group_chat_id = group_id;
  user_id = user_id;
  role = role;
  joined_at = now;
}

abbrev pub new_invitation : ℕ → ℕ → ℕ → ℕ → ℕ → GroupChatInvitation
new_invitation id now group_id inviter_id invitee_id = record {
  id = id;
  group_chat_id = group_id;
  inviter_user_id = inviter_id;
  invitee_user_id = invitee_id;
  status = GroupInvitationStatus.pending;
  created_at = now;
}

unfoldable pub insert_group : GroupChat → Database → Database
insert_group g db = record db { group_chats = db.group_chats ++ g ∷ [] }

unfoldable pub insert_member : GroupChatMember → Database → Database
insert_member m db = record db { group_chat_members = db.group_chat_members ++ m ∷ [] }

unfoldable pub insert_invitation : GroupChatInvitation → Database → Database
insert_invitation i db = record db { group_chat_invitations = db.group_chat_invitations ++ i ∷ [] }

unfoldable pub create_group : ℕ → ℕ → ℕ → ℕ → String → Exec (Option Group)
create_group id member_id now creator_id name = do
  modify_db (insert_group (new_group id now creator_id name))
  modify_db (insert_member (new_member member_id now id creator_id GroupMemberRole.owner))
  gets (λ w. get_group_by_id id w.db)

abbrev pub is_member : ℕ → List GroupChatMember → Bool
is_member user_id ms = any (λ m. m.user_id == user_id) ms

abbrev pub membership : ℕ → List GroupChatMember → Option GroupChatMember
membership user_id ms = find_one (λ m. m.user_id == user_id) ms

abbrev pub pending_invitation_to : ℕ → ℕ → GroupChatInvitation → Bool
pending_invitation_to group_id user_id i =
    i.group_chat_id == group_id && i.invitee_user_id == user_id && is_pending_invitation i.status

abbrev name_or : Option User → String → String
name_or none name = name
name_or (some u) name = u.display_name

unfoldable pub send_invitation : ℕ → ℕ → Group → ℕ → ℕ → ℕ → Exec GroupChatInvitation
send_invitation id now group group_id requester_id target_id = do
  modify_db (insert_invitation (new_invitation id now group_id requester_id target_id))
  requester ← gets (λ w. find_by_id requester_id w.db)
  emit_to_user target_id
      (group_invite id group_id group.chat.name requester_id (name_or requester "Someone"))
  send (push_group_invite target_id id group_id group.chat.name (name_or requester "Someone"))
  return (new_invitation id now group_id requester_id target_id)

unfoldable pub invite_member : (String → String) → ℕ → ℕ → ℕ → ℕ → String → Exec GroupChatInvitation
invite_member to_lower_case id now group_id requester_id display_name = do
  found ← gets (λ w. get_group_by_id group_id w.db)
  group ← or_throw found (not_found "Group not found")
  requester_membership ←
      or_throw (membership requester_id group.members)
        (forbidden "You are not a member of this group")
  throw_if (not (is_owner requester_membership.role))
      (forbidden "Only the group owner can invite members")
  target ← gets (λ w. find_by_display_name to_lower_case display_name w.db)
  target_user ← or_throw target (not_found "User not found")
  throw_if (is_member target_user.id group.members)
      (bad_request "User is already a member of this group")
  blocked ← gets (λ w. is_blocked requester_id target_user.id w.db)
  throw_if blocked (forbidden "Cannot invite this user")
  existing_invite ←
      gets (λ w. any (pending_invitation_to group_id target_user.id) w.db.group_chat_invitations)
  throw_if existing_invite (bad_request "A pending invitation already exists for this user")
  send_invitation id now group group_id requester_id target_user.id

unfoldable pub set_invitation_status : ℕ → GroupInvitationStatus → Database → Database
set_invitation_status id status db = record db {
  group_chat_invitations =
      update_where (λ i. i.id == id) (λ i. record i { status = status }) db.group_chat_invitations;
}

abbrev group_name : Option Group → String
group_name none = ""
group_name (some g) = g.chat.name

unfoldable pub notify_inviter : GroupChatInvitation → String → Bool → Exec GroupChatInvitation
notify_inviter invitation name accepted = do
  invitee ← gets (λ w. find_by_id invitation.invitee_user_id w.db)
  emit_to_user invitation.inviter_user_id (
      group_invite_response invitation.id invitation.group_chat_id name invitation.invitee_user_id
        (name_or invitee "Someone") accepted)
  return invitation

-- `if (!test) …`
abbrev pub unless : Bool → Exec (Unit {0}) → Exec (Unit {0})
unless b m = if b then return tt else m

unfoldable pub accept_invitation : ℕ → ℕ → GroupChatInvitation → Exec GroupChatInvitation
accept_invitation member_id now invitation = do
  modify_db (set_invitation_status invitation.id GroupInvitationStatus.accepted)
  found ← gets (λ w. get_group_by_id invitation.group_chat_id w.db)
  group ← or_throw found (not_found "Group no longer exists")
  unless (is_member invitation.invitee_user_id group.members) (
      modify_db (
        insert_member (
          new_member member_id now invitation.group_chat_id invitation.invitee_user_id
            GroupMemberRole.member)))
  notify_inviter (record invitation { status = GroupInvitationStatus.accepted }) group.chat.name
      true

unfoldable pub reject_invitation : GroupChatInvitation → Exec GroupChatInvitation
reject_invitation invitation = do
  modify_db (set_invitation_status invitation.id GroupInvitationStatus.rejected)
  group ← gets (λ w. get_group_by_id invitation.group_chat_id w.db)
  notify_inviter (record invitation { status = GroupInvitationStatus.rejected }) (group_name group)
      false

-- The invitee's id is `userId` past the guard, so the callees read it from the invitation.
unfoldable pub respond_to_group_invitation : ℕ → ℕ → ℕ → ℕ → Bool → Exec GroupChatInvitation
respond_to_group_invitation member_id now invitation_id user_id accept = do
  found ← gets (λ w. find_one (λ i. i.id == invitation_id) w.db.group_chat_invitations)
  invitation ← or_throw found (not_found "Invitation not found")
  throw_if (not (invitation.invitee_user_id == user_id)) (forbidden "Only the invitee can respond")
  throw_if (not (is_pending_invitation invitation.status))
      (bad_request "Invitation has already been responded to")
  if accept then accept_invitation member_id now invitation else reject_invitation invitation

unfoldable pub get_pending_group_invitations : ℕ → Exec (List GroupChatInvitation)
get_pending_group_invitations user_id = gets (λ w.
    sort_desc (λ i. i.created_at)
      (select (λ i. i.invitee_user_id == user_id && is_pending_invitation i.status)
        w.db.group_chat_invitations))

unfoldable pub delete_member : ℕ → Database → Database
delete_member id db = record db {
  group_chat_members = remove_where (λ m. m.id == id) db.group_chat_members;
}

unfoldable pub remove_member : ℕ → ℕ → ℕ → Exec (Unit {0})
remove_member group_id requester_id target_user_id = do
  found ← gets (λ w. get_group_by_id group_id w.db)
  group ← or_throw found (not_found "Group not found")
  requester_membership ←
      or_throw (membership requester_id group.members)
        (forbidden "You are not a member of this group")
  throw_if (not (is_owner requester_membership.role) && not (requester_id == target_user_id))
      (forbidden "Only the group owner can remove members")
  throw_if (target_user_id == group.chat.created_by_user_id)
      (bad_request "The group owner cannot be removed")
  target ←
      or_throw (membership target_user_id group.members)
        (not_found "User is not a member of this group")
  modify_db (delete_member target.id)
  force_remove_user_from_room target_user_id (build_group_room_id group_id)

unfoldable pub delete_group : ℕ → ℕ → Exec (Unit {0})
delete_group group_id requester_id = do
  found ← gets (λ w. get_group_by_id group_id w.db)
  group ← or_throw found (not_found "Group not found")
  throw_if (not (group.chat.created_by_user_id == requester_id))
      (forbidden "Only the group owner can delete the group")
  notify_group_deleted group_id (build_group_room_id group_id)
  modify_db (delete_group_chat group_id)

abbrev all_with_members : Database → List GroupChat → List Group
all_with_members db = map (λ g. record { chat = g; members = members_of g.id db })

-- The groups whose id is among those of the user's memberships, the newest first.
unfoldable pub get_user_groups : ℕ → Exec (List Group)
get_user_groups user_id = gets (λ w. all_with_members w.db (
    sort_desc (λ g. g.created_at)
      (select (λ g. is_member user_id (members_of g.id w.db)) w.db.group_chats)))

unfoldable pub get_group_room_for_member : ℕ → ℕ → Exec RoomId
get_group_room_for_member group_id user_id = do
  found ← gets (λ w. get_group_by_id group_id w.db)
  group ← or_throw found (not_found "Group not found")
  throw_if (not (is_member user_id group.members)) (forbidden "You are not a member of this group")
  return (build_group_room_id group_id)
