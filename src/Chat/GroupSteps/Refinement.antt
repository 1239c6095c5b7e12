-- ===== src/Chat/GroupSteps/Refinement.antt =====
-- Each group handler of chat/chat.service.ts makes the step of its call, whether it returns or throws.
use drawback_backend.Prelude.{
  none, Option, holds_of, holds_of-none, holds_of-some, any_of_find_one-none, ◌&&◌, if◌then◌else◌,
  ℕ, String, Bool, true, false, some, ◌≡◌, refl, sym, ap, ◌∙◌, ◌==◌, ==_iff, true_of_not, any,
  find_one, arith, any-select, find_one-select, any_of_find_one, find_one-holds, Option-cases, inl,
  inr,
}
use drawback_backend.Schema.{Database}
use drawback_backend.Schema.Enums.{
  GroupMemberRole, GroupInvitationStatus, is_owner, is_pending_invitation,
}
use drawback_backend.Schema.Entities.{GroupChat, GroupChatMember, GroupChatInvitation}
use drawback_backend.World.{World, Exec, Result, ◌>>=◌}
use drawback_backend.World.Rules.{
  Ensures, Ensures-throw_if, Ensures-return, Ensures-gets, Ensures-or_throw, Ensures-modify_db,
  Ensures-send, Ensures-if, Ensures-bind, Ensures-runs, Ensures-modify_db_last,
}
use drawback_backend.World.Quiet.{IsQuiet, Ensures-quiet, quiet}
use drawback_backend.Realtime.Rooms.Quiet.{
  emit_to_user-IsQuiet, notify_group_deleted-IsQuiet, force_remove_user_from_room-IsQuiet,
}
use drawback_backend.Users.Queries.{find_by_display_name}
use drawback_backend.Chat.Groups.{
  with_members, Group, get_group_by_id, members_of, membership, is_member, create_group,
  invite_member, send_invitation, respond_to_group_invitation, accept_invitation, reject_invitation,
  notify_inviter, remove_member, delete_group, set_invitation_status, new_invitation,
  insert_invitation, new_member, insert_member,
}
use drawback_backend.Chat.GroupSteps
use drawback_backend.Chat.GroupSteps.{
  GroupCall, GroupStep, stay, invite, decline, join, expel, dissolve, find_group, find_invitation,
  find_member, belongs, owns, takes_effect, may_invite, may_expel, may_join,
}

module _ (lower : String → String) where
  abbrev pub MakesStep {ℓ} : {A : Type ℓ} → GroupCall → Exec A → World → Type 0
  MakesStep {A} c m w = Ensures (λ (r : Result A) w'. GroupStep lower w.db w'.db c) m w

  -- A quiet end of a handler keeps the step that was made.
  MakesStep-quiet {ℓ} :
      {A : Type ℓ} {m : Exec A} {c : GroupCall} {db : Database} {w : World}
      → IsQuiet m
      → GroupStep lower db w.db c
      → Ensures (λ (r : Result A) w'. GroupStep lower db w'.db c) m w
  MakesStep-quiet {w} q s = Ensures-runs (q.runs w) (rw (q.same_db w) s)

-- What a group that the query returns is.
record IsLoaded (id : ℕ) (db : Database) (g : Group) : Type 0 where
  found : find_group id db ≡ some g.chat
  same : g.chat.id ≡ id
  members : g.members ≡ members_of id db

get_group_by_id-IsLoaded :
    (id : ℕ) (db : Database) (g : Group) → get_group_by_id id db ≡ some g → IsLoaded id db g
unfolding get_group_by_id
get_group_by_id-IsLoaded id db g h = elim (Option-cases (find_group id db)) [
  | inl e ↦ ground arith
  | inr (c, e) ↦
      let same : c.id ≡ id = (==_iff c.id id).0 (find_one-holds _ db.group_chats c e) in
      let chat : g.chat ≡ c = ground arith in
      let ms : g.members ≡ members_of c.id db = ground arith in
      record {
        found = rw chat e;
        same = ap (λ x. x.id) chat ∙ same;
        members = ms ∙ ap (λ k. members_of k db) same;
      }
]

module _ {id : ℕ} {db : Database} {g : Group} (l : IsLoaded id db g) where
  is_member-belongs :
      (u : ℕ) (b : Bool) → is_member u g.members ≡ b → any (belongs id u) db.group_chat_members ≡ b
  is_member-belongs u b h =
      sym (any-select (λ m. m.group_chat_id == id) (λ m. m.user_id == u) db.group_chat_members)
      ∙ ap (is_member u) (sym l.members)
      ∙ h

  membership-belongs :
      (u : ℕ) (m : GroupChatMember)
      → membership u g.members ≡ some m
      → find_one (belongs id u) db.group_chat_members ≡ some m
  membership-belongs u m h =
      sym (find_one-select (λ m. m.group_chat_id == id) (λ m. m.user_id == u) db.group_chat_members)
      ∙ ap (membership u) (sym l.members)
      ∙ h

  owner-owns :
      (u : ℕ) (m : GroupChatMember)
      → membership u g.members ≡ some m
      → is_owner m.role ≡ true
      → any (owns id u) db.group_chat_members ≡ true
  owner-owns u m h o =
      any_of_find_one (belongs id u) (owns id u) db.group_chat_members m (membership-belongs u m h)
        (ground
          (arith, find_one-holds (belongs id u) db.group_chat_members m (membership-belongs u m h)))

notify_inviter-IsQuiet :
    (i : GroupChatInvitation) (name : String) (b : Bool) → IsQuiet (notify_inviter i name b)
unfolding notify_inviter
notify_inviter-IsQuiet i name b = search (quiet, emit_to_user-IsQuiet)

-- No membership, or no member, among the rows of the group.
module _ {id : ℕ} {db : Database} {g : Group} (l : IsLoaded id db g) where
  membership-none : (u : ℕ) → membership u g.members ≡ none → find_member id u db ≡ none
  membership-none u h =
      sym (find_one-select (λ m. m.group_chat_id == id) (λ m. m.user_id == u) db.group_chat_members)
      ∙ ap (membership u) (sym l.members)
      ∙ h

no_member :
    (id u : ℕ) (db : Database)
    → find_member id u db ≡ none
    → any (belongs id u) db.group_chat_members ≡ false
no_member id u db h = any_of_find_one-none (belongs id u) db.group_chat_members h

with_group-none : (o : Option GroupChat) (db : Database) → with_members db o ≡ none → o ≡ none
with_group-none none db h = refl
with_group-none (some g) db h = ground arith

get_group_by_id-none :
    (id : ℕ) (db : Database) → get_group_by_id id db ≡ none → find_group id db ≡ none
unfolding get_group_by_id
get_group_by_id-none id db h = with_group-none (find_group id db) db h

module _ (lower : String → String) where
  send_invitation-MakesStep :
      (id now : ℕ) (g : Group) (group inviter invitee : ℕ) (w : World) (c : GroupCall)
      → GroupStep lower w.db
          (insert_invitation (new_invitation id now group inviter invitee) w.db)
          c
      → MakesStep lower c (send_invitation id now g group inviter invitee) w
  unfolding send_invitation
  send_invitation-MakesStep id now g group inviter invitee w c step = Ensures-modify_db _ _ (
      Ensures-gets _ _ (
        Ensures-quiet _ _ (emit_to_user-IsQuiet _ _)
          λ _ w' e. Ensures-send _ _ (Ensures-return _ (rw e step))))

  -- The freshness of ids is what the database guarantees of new primary keys.
  pub invite_member-MakesStep :
      (id now group requester : ℕ) (name : String) (w : World)
      → any (λ i. i.id == id) w.db.group_chat_invitations ≡ false
      → MakesStep lower
          (GroupCall.invites id now group requester name)
          (invite_member lower id now group requester name)
          w
  unfolding invite_member takes_effect
  invite_member-MakesStep id now group requester name w fresh = Ensures-gets _ _ (
      Ensures-or_throw _ _ _
        (λ e. stay (holds_of-none _ _ (get_group_by_id-none group w.db e)) refl)
        λ g eg.
          let l = get_group_by_id-IsLoaded group w.db g eg in
          Ensures-or_throw _ _ _
            (λ e. refused g.chat l.found (holds_of-none _ _ (membership-none l requester e)))
            λ m em.
              let fm = membership-belongs l requester m em in
              let forbidden' =
                λ (h : (is_owner m.role
                      && holds_of (find_by_display_name lower name w.db)
                          (may_invite w.db group requester))
                    ≡ false).
                  refused g.chat l.found (holds_of-some _ _ m fm h) in
              Ensures-throw_if _ _ _ (λ own. forbidden' (ground arith))
                λ own. Ensures-gets _ _ (
                  Ensures-or_throw _ _ _
                    (λ e. forbidden' (
                      let no_user = holds_of-none _ (may_invite w.db group requester) e in
                      ground arith))
                    λ u fu.
                      let bad = λ (h : may_invite w.db group requester u ≡ false). forbidden' (
                        let h' = holds_of-some _ (may_invite w.db group requester) u fu h in
                        ground arith) in
                      Ensures-throw_if _ _ _
                        (λ in'. let b = is_member-belongs l u.id true in' in bad (ground arith))
                        λ out. Ensures-gets _ _ (
                          Ensures-throw_if _ _ _ (λ blocked. bad (ground arith))
                            λ free. Ensures-gets _ _ (
                              Ensures-throw_if _ _ _ (λ old. bad (ground arith))
                                λ new. send_invitation-MakesStep id now g group requester u.id w _ (
                                  invite id now group requester name u g.chat fresh l.found
                                    (owner-owns l requester m em (true_of_not _ own)) fu
                                    (is_member-belongs l u.id false out) free new refl)))))
    where
      refused :
          (g : GroupChat)
          → find_group group w.db ≡ some g
          → holds_of (find_member group requester w.db) (λ m.
            is_owner m.role
            && holds_of (find_by_display_name lower name w.db) (may_invite w.db group requester))
            ≡ false
          → GroupStep lower w.db w.db (GroupCall.invites id now group requester name)
      refused g fg h = stay (holds_of-some _ _ g fg h) refl

  pub create_group-MakesStep :
      (id member_id now creator : ℕ) (name : String) (w : World)
      → any (λ g. g.id == id) w.db.group_chats ≡ false
      → any (λ m. m.id == member_id) w.db.group_chat_members ≡ false
      → MakesStep lower
          (GroupCall.founds id member_id now creator name)
          (create_group id member_id now creator name)
          w
  unfolding create_group ◌>>=◌
  create_group-MakesStep id member_id now creator name w fresh fresh' = record {
    at = GroupSteps.create id member_id now creator name fresh fresh' refl;
  }

  -- The answer to an invitation leaves groups and members alone.
  module _ (member_id now k user : ℕ) (i : GroupChatInvitation) (db : Database)
      (fresh : any (λ m. m.id == member_id) db.group_chat_members ≡ false)
      (fi : find_invitation k db ≡ some i) (own : (i.invitee_user_id == user) ≡ true)
      (p : is_pending_invitation i.status ≡ true) where
    abbrev answered : Database
    answered = set_invitation_status i.id GroupInvitationStatus.accepted db

    join_after :
        (g : GroupChat)
        → find_group i.group_chat_id answered ≡ some g
        → any (belongs i.group_chat_id i.invitee_user_id) answered.group_chat_members ≡ false
        → GroupStep lower db
            (insert_member
              (new_member member_id now i.group_chat_id i.invitee_user_id GroupMemberRole.member)
              answered)
            (GroupCall.answers member_id now k user true)
    unfolding set_invitation_status
    join_after g fg new = join member_id now k user i g fresh fi own p fg new refl

    accept_only :
        may_join answered i.group_chat_id i.invitee_user_id ≡ false
        → GroupStep lower db answered (GroupCall.answers member_id now k user true)
    unfolding set_invitation_status
    accept_only h = GroupSteps.accept member_id now k user i fi own p h refl

  accept_invitation-MakesStep :
      (member_id now k user : ℕ) (i : GroupChatInvitation) (w : World)
      → any (λ m. m.id == member_id) w.db.group_chat_members ≡ false
      → find_invitation k w.db ≡ some i
      → (i.invitee_user_id == user) ≡ true
      → is_pending_invitation i.status ≡ true
      → MakesStep lower
          (GroupCall.answers member_id now k user true)
          (accept_invitation member_id now i)
          w
  unfolding accept_invitation
  accept_invitation-MakesStep member_id now k user i w fresh fi own p =
      let q = λ (name : String).
        notify_inviter-IsQuiet (record i { status = GroupInvitationStatus.accepted }) name true in
      let only = accept_only member_id now k user i w.db fresh fi own p in
      Ensures-modify_db _ _ (
        Ensures-gets _ _ (
          Ensures-or_throw _ _ _
            (λ e. only (holds_of-none _ _ (get_group_by_id-none i.group_chat_id _ e)))
            λ g eg.
              let l = get_group_by_id-IsLoaded i.group_chat_id _ g eg in
              Ensures-bind _ _ _ _ (
                Ensures-if _ _ _
                  (λ old.
                    let there = is_member-belongs l i.invitee_user_id true old in
                    Ensures-return _ (
                      MakesStep-quiet lower (q g.chat.name)
                        (only (holds_of-some _ _ g.chat l.found (rw there refl)))))
                  λ new. Ensures-modify_db_last _ (
                    MakesStep-quiet lower (q g.chat.name) (
                      join_after member_id now k user i w.db fresh fi own p g.chat l.found
                        (is_member-belongs l i.invitee_user_id false new))))))

  reject_invitation-MakesStep :
      (member_id now k user : ℕ) (i : GroupChatInvitation) (w : World)
      → find_invitation k w.db ≡ some i
      → (i.invitee_user_id == user) ≡ true
      → is_pending_invitation i.status ≡ true
      → MakesStep lower (GroupCall.answers member_id now k user false) (reject_invitation i) w
  unfolding reject_invitation
  reject_invitation-MakesStep member_id now k user i w fi own p = Ensures-modify_db _ _ (
      Ensures-gets _ _ (
        let q =
          notify_inviter-IsQuiet (record i { status = GroupInvitationStatus.rejected }) _ false in
        Ensures-runs (q.runs _) (rw (q.same_db _) (decline member_id now k user i fi own p refl))))

  pub respond_to_group_invitation-MakesStep :
      (member_id now invitation user : ℕ) (b : Bool) (w : World)
      → any (λ m. m.id == member_id) w.db.group_chat_members ≡ false
      → MakesStep lower
          (GroupCall.answers member_id now invitation user b)
          (respond_to_group_invitation member_id now invitation user b)
          w
  unfolding respond_to_group_invitation takes_effect
  respond_to_group_invitation-MakesStep member_id now invitation user b w fresh = Ensures-gets _ _ (
      Ensures-or_throw _ _ _ (λ e. stay (holds_of-none _ _ e) refl)
        λ i fi.
          Ensures-throw_if _ _ _ (λ other. stay (holds_of-some _ _ i fi (ground arith)) refl)
            λ own.
              Ensures-throw_if _ _ _ (λ done. stay (holds_of-some _ _ i fi (ground arith)) refl)
                λ pend. by_answer b i fi (true_of_not _ own) (true_of_not _ pend))
    where
      by_answer :
          (b : Bool) (i : GroupChatInvitation)
          → find_invitation invitation w.db ≡ some i
          → (i.invitee_user_id == user) ≡ true
          → is_pending_invitation i.status ≡ true
          → MakesStep lower
              (GroupCall.answers member_id now invitation user b)
              (if b then accept_invitation member_id now i else reject_invitation i)
              w
      by_answer true i fi own p =
          accept_invitation-MakesStep member_id now invitation user i w fresh fi own p
      by_answer false i fi own p =
          reject_invitation-MakesStep member_id now invitation user i w fi own p

  pub remove_member-MakesStep :
      (group requester target : ℕ) (w : World)
      → MakesStep lower
          (GroupCall.expels group requester target)
          (remove_member group requester target)
          w
  unfolding remove_member takes_effect
  remove_member-MakesStep group requester target w = Ensures-gets _ _ (
      Ensures-or_throw _ _ _
        (λ e. stay (holds_of-none _ _ (get_group_by_id-none group w.db e)) refl)
        λ g eg.
          let l = get_group_by_id-IsLoaded group w.db g eg in
          Ensures-or_throw _ _ _
            (λ e.
              stay
                (holds_of-some _ _ g.chat l.found
                  (holds_of-none _ _ (membership-none l requester e)))
                refl)
            λ r er.
              let fr = membership-belongs l requester r er in
              let refused = λ (h : may_expel w.db group requester target g.chat r ≡ false).
                barred g.chat l.found r fr h in
              Ensures-throw_if _ _ _ (λ other. refused (ground arith))
                λ may.
                  Ensures-throw_if _ _ _ (λ creator. refused (ground arith))
                    λ ne.
                      Ensures-or_throw _ _ _
                        (λ e.
                          let out = no_member group target w.db (membership-none l target e) in
                          refused (ground arith))
                        λ m em. Ensures-modify_db _ _ (
                          let q = force_remove_user_from_room-IsQuiet target _ in
                          Ensures-runs (q.runs _) (
                            rw (q.same_db _) (
                              expel group requester target r m g.chat l.found fr (ground arith) ne
                                (membership-belongs l target m em) refl))))
    where
      barred :
          (g : GroupChat)
          → find_group group w.db ≡ some g
          → (r : GroupChatMember) → find_member group requester w.db ≡ some r
          → may_expel w.db group requester target g r ≡ false
          → GroupStep lower w.db w.db (GroupCall.expels group requester target)
      barred g fg r fr h = stay (holds_of-some _ _ g fg (holds_of-some _ _ r fr h)) refl

  pub delete_group-MakesStep :
      (group requester : ℕ) (w : World)
      → MakesStep lower (GroupCall.dissolves group requester) (delete_group group requester) w
  unfolding delete_group takes_effect
  delete_group-MakesStep group requester w = Ensures-gets _ _ (
      Ensures-or_throw _ _ _
        (λ e. stay (holds_of-none _ _ (get_group_by_id-none group w.db e)) refl)
        λ g eg.
          let l = get_group_by_id-IsLoaded group w.db g eg in
          Ensures-throw_if _ _ _
            (λ other. stay (holds_of-some _ _ g.chat l.found (ground arith)) refl)
            λ own. Ensures-quiet _ _ (notify_group_deleted-IsQuiet group _) λ _ w' e.
              Ensures-modify_db_last _
                (dissolve group requester g.chat l.found (true_of_not _ own) (rw e)))
