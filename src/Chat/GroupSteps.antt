-- ===== src/Chat/GroupSteps.antt =====
-- Group chats as an abstract state machine: which call of the group handlers of chat/chat.service.ts
-- may change what, with all that must hold before it, and when none may change anything. The ids and
-- the times of new rows come with a call.
pub mod Refinement
pub mod Tables
pub mod Soundness
use drawback_backend.Prelude.{
  ℕ, String, Bool, Option, true, false, some, ◌≡◌, ◌==◌, ◌&&◌, ◌||◌, not, any, find_one, holds_of,
}
use drawback_backend.Schema.{Database, delete_group_chat}
use drawback_backend.Schema.Enums.{
  GroupMemberRole, GroupInvitationStatus, is_owner, is_pending_invitation,
}
use drawback_backend.Schema.Entities.{User, GroupChat, GroupChatMember, GroupChatInvitation}
use drawback_backend.Users.Queries.{find_by_display_name, is_blocked}
use drawback_backend.Chat.Groups.{
  new_group, new_member, new_invitation, insert_group, insert_member, insert_invitation,
  set_invitation_status, delete_member, pending_invitation_to,
}

abbrev pub find_group : ℕ → Database → Option GroupChat
find_group id db = find_one (λ g. g.id == id) db.group_chats

abbrev pub find_invitation : ℕ → Database → Option GroupChatInvitation
find_invitation id db = find_one (λ i. i.id == id) db.group_chat_invitations

abbrev pub belongs : ℕ → ℕ → GroupChatMember → Bool
belongs group user m = m.group_chat_id == group && m.user_id == user

abbrev pub owns : ℕ → ℕ → GroupChatMember → Bool
owns group user m = belongs group user m && is_owner m.role

-- The calls about groups.
pub data GroupCall : Type 0 where
  founds : (id member_id now creator : ℕ) → (name : String) → GroupCall
  invites : (id now group requester : ℕ) → (name : String) → GroupCall
  answers : (member_id now invitation user : ℕ) → (accept : Bool) → GroupCall
  expels : (group requester target : ℕ) → GroupCall
  dissolves : (group requester : ℕ) → GroupCall

abbrev pub find_member : ℕ → ℕ → Database → Option GroupChatMember
find_member group user db = find_one (belongs group user) db.group_chat_members

abbrev pub may_invite : Database → ℕ → ℕ → User → Bool
may_invite db group requester u =
    not (any (belongs group u.id) db.group_chat_members)
    && not (is_blocked requester u.id db)
    && not (any (pending_invitation_to group u.id) db.group_chat_invitations)

abbrev pub may_expel : Database → ℕ → ℕ → ℕ → GroupChat → GroupChatMember → Bool
may_expel db group requester target g m =
    (is_owner m.role || requester == target)
    && not (target == g.created_by_user_id)
    && any (belongs group target) db.group_chat_members

-- Whether the group is there and the user is none of its members.
abbrev pub may_join : Database → ℕ → ℕ → Bool
may_join db group user =
    holds_of (find_group group db) (λ g. not (any (belongs group user) db.group_chat_members))

-- Whether a call changes the tables.
unfoldable pub takes_effect : (String → String) → GroupCall → Database → Bool
takes_effect lower (founds id member_id now u name) db = true
takes_effect lower (invites id now k u name) db = holds_of (find_group k db) (λ g.
    holds_of (find_member k u db)
      (λ m. is_owner m.role && holds_of (find_by_display_name lower name db) (may_invite db k u)))
takes_effect lower (answers member_id now k u b) db =
    holds_of (find_invitation k db) (λ i. i.invitee_user_id == u && is_pending_invitation i.status)
takes_effect lower (expels k u target) db =
    holds_of (find_group k db) (λ g. holds_of (find_member k u db) (may_expel db k u target g))
takes_effect lower (dissolves k u) db = holds_of (find_group k db) (λ g. g.created_by_user_id == u)

pub data GroupStep (to_lower_case : String → String) (db db' : Database) : GroupCall → Type 0 where
  stay :
      {c : GroupCall}
      → takes_effect to_lower_case c db ≡ false
      → db' ≡ db
      → GroupStep to_lower_case db db' c
  create :
      (id member_id now creator : ℕ) (name : String)
      → any (λ g. g.id == id) db.group_chats ≡ false
      → any (λ m. m.id == member_id) db.group_chat_members ≡ false
      → db'
        ≡ insert_member
            (new_member member_id now id creator GroupMemberRole.owner)
            (insert_group (new_group id now creator name) db)
      → GroupStep to_lower_case db db' (founds id member_id now creator name)
  invite :
      (id now group inviter : ℕ) (name : String) (invitee : User) (g : GroupChat)
      → any (λ i. i.id == id) db.group_chat_invitations ≡ false
      → find_group group db ≡ some g
      → any (owns group inviter) db.group_chat_members ≡ true
      → find_by_display_name to_lower_case name db ≡ some invitee
      → any (belongs group invitee.id) db.group_chat_members ≡ false
      → is_blocked inviter invitee.id db ≡ false
      → any (pending_invitation_to group invitee.id) db.group_chat_invitations ≡ false
      → db' ≡ insert_invitation (new_invitation id now group inviter invitee.id) db
      → GroupStep to_lower_case db db' (invites id now group inviter name)
  decline :
      (member_id now k user : ℕ) (i : GroupChatInvitation)
      → find_invitation k db ≡ some i
      → (i.invitee_user_id == user) ≡ true
      → is_pending_invitation i.status ≡ true
      → db' ≡ set_invitation_status i.id GroupInvitationStatus.rejected db
      → GroupStep to_lower_case db db' (answers member_id now k user false)
  accept :
      (member_id now k user : ℕ) (i : GroupChatInvitation)
      → find_invitation k db ≡ some i
      → (i.invitee_user_id == user) ≡ true
      → is_pending_invitation i.status ≡ true
      → may_join db i.group_chat_id i.invitee_user_id ≡ false
      → db' ≡ set_invitation_status i.id GroupInvitationStatus.accepted db
      → GroupStep to_lower_case db db' (answers member_id now k user true)
  join :
      (member_id now k user : ℕ) (i : GroupChatInvitation) (g : GroupChat)
      → any (λ m. m.id == member_id) db.group_chat_members ≡ false
      → find_invitation k db ≡ some i
      → (i.invitee_user_id == user) ≡ true
      → is_pending_invitation i.status ≡ true
      → find_group i.group_chat_id db ≡ some g
      → any (belongs i.group_chat_id i.invitee_user_id) db.group_chat_members ≡ false
      → db'
        ≡ insert_member
            (new_member member_id now i.group_chat_id i.invitee_user_id GroupMemberRole.member)
            (set_invitation_status i.id GroupInvitationStatus.accepted db)
      → GroupStep to_lower_case db db' (answers member_id now k user true)
  expel :
      (k requester target : ℕ) (r m : GroupChatMember) (g : GroupChat)
      → find_group k db ≡ some g
      → find_member k requester db ≡ some r
      → (is_owner r.role || requester == target) ≡ true
      → (target == g.created_by_user_id) ≡ false
      → find_member k target db ≡ some m
      → db' ≡ delete_member m.id db
      → GroupStep to_lower_case db db' (expels k requester target)
  dissolve :
      (id requester : ℕ) (g : GroupChat)
      → find_group id db ≡ some g
      → (g.created_by_user_id == requester) ≡ true
      → db' ≡ delete_group_chat id db
      → GroupStep to_lower_case db db' (dissolves id requester)
