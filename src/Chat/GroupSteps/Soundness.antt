-- ===== src/Chat/GroupSteps/Soundness.antt =====
-- What every step of a group keeps.
use drawback_backend.Prelude.{
  String, ==_iff, subst, sym, ℕ, ◌≤◌, Bool, true, false, List, [], ◌∷◌, some, ◌≡◌, refl, ◌==◌, any,
  All, count, find_one, remove_where, arith, count-remove_where-le, All-remove_where, All-mono,
  All-remove_where_mono, any_of_find_one, find_one-holds, Bool-cases, inl, inr, ==_refl,
  remove_where-none, count_of_find_one, any-remove_where_keep, All-zip,
}
use mathlib.Core.Path.{subst₂}
use drawback_backend.Schema.{Database, delete_group_chat}
use drawback_backend.Schema.Enums.{
  GroupMemberRole, GroupInvitationStatus, is_owner, is_pending_invitation,
}
use drawback_backend.Schema.Entities.{GroupChat, GroupChatMember, GroupChatInvitation}
use drawback_backend.Chat.Groups.{
  new_member, new_invitation, insert_member, set_invitation_status, delete_member,
  pending_invitation_to,
}
use drawback_backend.Chat.GroupSteps.{
  GroupCall, GroupStep, stay, create, invite, decline, accept, join, expel, dissolve, belongs, owns,
  find_group, find_invitation, find_member,
}
use drawback_backend.Chat.GroupSteps.Tables.{
  IsSound, admits, IsOwned, admits_accepted, or_true, set_invitation_status-IsSound,
  insert_member-IsSound, create-IsSound, insert_invitation-IsSound,
}

-- Without a row that does not meet `q`, some row still does.
any-delete_member :
    (p q : GroupChatMember → Bool) (ms : List GroupChatMember) (m : GroupChatMember)
    → find_one p ms ≡ some m
    → count (λ x. x.id == m.id) ms ≤ 1
    → q m ≡ false
    → any q ms ≡ true
    → any q (remove_where (λ x. x.id == m.id) ms) ≡ true
unfolding any find_one remove_where count
any-delete_member p q [] m f one n h = h
any-delete_member p q (x ∷ ms) m f one n h = ground (
  arith,
  any-delete_member p q ms m,
  remove_where-none (λ y. y.id == m.id) ms,
  λ (e : find_one p ms ≡ some m). count_of_find_one p (λ y. y.id == m.id) ms m e (==_refl m.id),
)

-- The groups with the id of a group have its creator.
one_creator :
    (k : ℕ) (g : GroupChat) (gs : List GroupChat)
    → count (λ x. x.id == k) gs ≤ 1
    → find_one (λ x. x.id == k) gs ≡ some g
    → All (λ x. (x.id == k) ≡ true → x.created_by_user_id ≡ g.created_by_user_id) gs
unfolding count find_one
one_creator k g [] one f = tt
one_creator k g (x ∷ gs) one f = elim (Bool-cases (x.id == k)) [
  | inl e ↦ (ground arith, none_left gs (ground arith))
  | inr e ↦ (λ e'. ground arith, one_creator k g gs (ground arith) (ground arith))
]
  where
    none_left :
        (ys : List GroupChat)
        → count (λ y. y.id == k) ys ≡ 0
        → All (λ y. (y.id == k) ≡ true → y.created_by_user_id ≡ g.created_by_user_id) ys
    none_left [] c = tt
    none_left (y ∷ ys) c = (λ e. ground arith, none_left ys (ground arith))

-- The row of a member who did not create the group is nobody's proof of ownership.
not_owner :
    (m : GroupChatMember) (g x : GroupChat)
    → (m.user_id == g.created_by_user_id) ≡ false
    → ((x.id == m.group_chat_id) ≡ true → x.created_by_user_id ≡ g.created_by_user_id)
    → owns x.id x.created_by_user_id m ≡ false
not_owner m g x ne same = ground arith

delete_member-IsSound :
    (m : GroupChatMember) (g : GroupChat) (db : Database)
    → find_group m.group_chat_id db ≡ some g
    → (m.user_id == g.created_by_user_id) ≡ false
    → find_one (belongs m.group_chat_id m.user_id) db.group_chat_members ≡ some m
    → IsSound db
    → IsSound (delete_member m.id db)
unfolding delete_member
delete_member-IsSound m g db fg ne fm h = record {
  one_group = h.one_group;
  one_row = λ k.
      omega (arith, h.one_row k, count-remove_where-le _ (λ x. x.id == k) db.group_chat_members);
  one_invitation = h.one_invitation;
  one_member = λ j u.
      omega (arith, h.one_member j u, count-remove_where-le _ (belongs j u) db.group_chat_members);
  one_pending = h.one_pending;
  owned =
      All-mono db.group_chats
        (λ x e.
          any-delete_member _ (owns x.id x.created_by_user_id) db.group_chat_members m fm
            (h.one_row m.id) (not_owner m g x ne e.1) e.0)
        (All-zip (IsOwned db.group_chat_members) _ db.group_chats h.owned
          (one_creator m.group_chat_id g db.group_chats (h.one_group m.group_chat_id) fg));
  housed = All-remove_where _ _ db.group_chat_members h.housed;
  admitted = All-remove_where _ _ db.group_chat_members h.admitted;
}

eq_ne : (a b c : ℕ) → (a == b) ≡ true → (b == c) ≡ false → (a == c) ≡ false
eq_ne a b c e n = ground arith

delete_group_chat-IsSound :
    (id : ℕ) (db : Database) → IsSound db → IsSound (delete_group_chat id db)
unfolding delete_group_chat
delete_group_chat-IsSound id db h = record {
  one_group =
      λ k. omega (arith, h.one_group k, count-remove_where-le _ (λ x. x.id == k) db.group_chats);
  one_row = λ k.
      omega (arith, h.one_row k, count-remove_where-le _ (λ x. x.id == k) db.group_chat_members);
  one_invitation = λ k. omega (
    arith,
    h.one_invitation k,
    count-remove_where-le _ (λ x. x.id == k) db.group_chat_invitations,
  );
  one_member = λ j u.
      omega (arith, h.one_member j u, count-remove_where-le _ (belongs j u) db.group_chat_members);
  one_pending = λ j u. omega (
    arith,
    h.one_pending j u,
    count-remove_where-le _ (pending_invitation_to j u) db.group_chat_invitations,
  );
  owned =
      All-remove_where_mono _ db.group_chats
        (λ g e ne.
          any-remove_where_keep _ _ db.group_chat_members
            (λ m o. eq_ne m.group_chat_id g.id id (ground arith) ne) e)
        h.owned;
  housed =
      All-remove_where_mono _ db.group_chat_members
        (λ m e ne.
          any-remove_where_keep _ _ db.group_chats (λ g o. eq_ne g.id m.group_chat_id id o ne) e)
        h.housed;
  admitted =
      All-remove_where_mono _ db.group_chat_members
        (λ m e ne. or_true (is_owner m.role) _ _ e (
          any-remove_where_keep _ (admits m) db.group_chat_invitations
            (λ i o. eq_ne i.group_chat_id m.group_chat_id id (ground arith) ne)))
        h.admitted;
}

insert_member-join :
    (member_id now : ℕ) (i : GroupChatInvitation) (g : GroupChat) (db : Database)
    → any (λ m. m.id == member_id) db.group_chat_members ≡ false
    → find_invitation i.id db ≡ some i
    → is_pending_invitation i.status ≡ true
    → find_group i.group_chat_id db ≡ some g
    → any (belongs i.group_chat_id i.invitee_user_id) db.group_chat_members ≡ false
    → IsSound db
    → IsSound (
        insert_member
          (new_member member_id now i.group_chat_id i.invitee_user_id GroupMemberRole.member)
          (set_invitation_status i.id GroupInvitationStatus.accepted db))
unfolding set_invitation_status
insert_member-join member_id now i g db fresh fi p fg new h =
    let m = new_member member_id now i.group_chat_id i.invitee_user_id GroupMemberRole.member in
    insert_member-IsSound m _ fresh new
      (any_of_find_one _ _ db.group_chats g fg
        (find_one-holds (λ x. x.id == i.group_chat_id) db.group_chats g fg))
      (admits_accepted i.id db.group_chat_invitations i m fi refl refl)
      (set_invitation_status-IsSound GroupInvitationStatus.accepted i db fi p refl h)

-- Every step of a group keeps the ids distinct, at most one membership and one pending invitation
-- of a user in a group, the creator of each group among its members as an owner, each member in a
-- group that exists, and each member who is no owner admitted by an accepted invitation.
find_invitation_self :
    (id : ℕ) (db : Database) (i : GroupChatInvitation)
    → find_invitation id db ≡ some i
    → find_invitation i.id db ≡ some i
find_invitation_self id db i e =
    let same : i.id ≡ id = (==_iff i.id id).0 (find_one-holds _ db.group_chat_invitations i e) in
    subst (λ k. find_invitation k db ≡ some i) (sym same) e

-- The row of a member has the group and the user that it was looked up by.
find_member_self :
    (group user : ℕ) (db : Database) (m : GroupChatMember)
    → find_member group user db ≡ some m
    → (m.group_chat_id ≡ group) × (m.user_id ≡ user)
find_member_self group user db m e =
    ground (arith, find_one-holds (belongs group user) db.group_chat_members m e)

pub GroupStep-IsSound :
    (lower : String → String) (c : GroupCall) (db db' : Database)
    → GroupStep lower db db' c
    → IsSound db
    → IsSound db'
GroupStep-IsSound lower c db db' (stay idle e) h = rw e h
GroupStep-IsSound lower c db db' (create id member_id now creator name fresh fresh' e) h =
    rw e (create-IsSound id member_id now creator name db fresh fresh' h)
GroupStep-IsSound lower c db db' (invite id now group a name b g fresh fg own fb out free new e) h =
    rw e (insert_invitation-IsSound (new_invitation id now group a b.id) db fresh new h)
GroupStep-IsSound lower c db db' (decline mid now k u i fi own p e) h = rw e (
    set_invitation_status-IsSound GroupInvitationStatus.rejected i db
      (find_invitation_self k db i fi) p refl h)
GroupStep-IsSound lower c db db' (accept mid now k u i fi own p out e) h = rw e (
    set_invitation_status-IsSound GroupInvitationStatus.accepted i db
      (find_invitation_self k db i fi) p refl h)
GroupStep-IsSound lower c db db' (join mid now k u i g fresh fi own p fg new e) h =
    rw e (insert_member-join mid now i g db fresh (find_invitation_self k db i fi) p fg new h)
GroupStep-IsSound lower c db db' (expel k requester target r m g fg fr may ne fm e) h =
    let (sg, su) = find_member_self k target db m fm in
    rw e (
      delete_member-IsSound m g db (subst (λ x. find_group x db ≡ some g) (sym sg) fg)
        (subst (λ u. (u == g.created_by_user_id) ≡ false) (sym su) ne)
        (subst₂ (λ x u. find_member x u db ≡ some m) (sym sg) (sym su) fm) h)
GroupStep-IsSound lower c db db' (dissolve id requester g fg own e) h =
    rw e (delete_group_chat-IsSound id db h)
