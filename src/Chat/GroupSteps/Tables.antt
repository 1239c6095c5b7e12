-- ===== src/Chat/GroupSteps/Tables.antt =====
-- Sound tables of groups, and what keeps them sound where rows are made or invitations answered.
use drawback_backend.Prelude.{
  ℕ, ◌≤◌, String, Bool, true, false, List, [], ◌∷◌, ◌++◌, some, ◌≡◌, refl, ◌==◌, ◌&&◌, ◌||◌, any,
  All, count, find_one, update_where, arith, All-append, All-mono, any-append, Bool-cases, inl, inr,
  ==_iff, ==_refl, subst,
}
use drawback_backend.Schema.{Database}
use drawback_backend.Schema.Enums.{
  GroupMemberRole, GroupInvitationStatus, is_owner, is_pending_invitation,
}
use drawback_backend.Schema.Entities.{GroupChat, GroupChatMember, GroupChatInvitation}
use drawback_backend.Chat.Groups.{
  new_group, new_member, insert_group, insert_member, insert_invitation, set_invitation_status,
  pending_invitation_to,
}
use drawback_backend.Chat.GroupSteps.{belongs, owns, find_invitation}

abbrev pub is_accepted_invitation : GroupInvitationStatus → Bool
is_accepted_invitation GroupInvitationStatus.accepted = true
is_accepted_invitation _ = false

-- The invitation through which a member came in.
abbrev pub admits : GroupChatMember → GroupChatInvitation → Bool
admits m i =
    i.group_chat_id == m.group_chat_id
    && (i.invitee_user_id == m.user_id && is_accepted_invitation i.status)

abbrev pub IsAdmitted : List GroupChatInvitation → GroupChatMember → Type 0
IsAdmitted is m = (is_owner m.role || any (admits m) is) ≡ true

abbrev pub IsOwned : List GroupChatMember → GroupChat → Type 0
IsOwned ms g = any (owns g.id g.created_by_user_id) ms ≡ true

abbrev pub IsHoused : List GroupChat → GroupChatMember → Type 0
IsHoused gs m = any (λ g. g.id == m.group_chat_id) gs ≡ true

pub record IsSound (db : Database) : Type 0 where
  pub one_group : (k : ℕ) → count (λ g. g.id == k) db.group_chats ≤ 1
  pub one_row : (k : ℕ) → count (λ m. m.id == k) db.group_chat_members ≤ 1
  pub one_invitation : (k : ℕ) → count (λ i. i.id == k) db.group_chat_invitations ≤ 1
  pub one_member : (g u : ℕ) → count (belongs g u) db.group_chat_members ≤ 1
  pub one_pending : (g u : ℕ) → count (pending_invitation_to g u) db.group_chat_invitations ≤ 1
  pub owned : All (IsOwned db.group_chat_members) db.group_chats
  pub housed : All (IsHoused db.group_chats) db.group_chat_members
  pub admitted : All (IsAdmitted db.group_chat_invitations) db.group_chat_members

-- A row whose key no other row has.
module _ {A : Type 0} (p : A → Bool) where
  count-snoc : (xs : List A) (x : A) → any p xs ≡ false → count p (xs ++ x ∷ []) ≤ 1
  unfolding count any
  count-snoc [] x h = ground arith
  count-snoc (y ∷ xs) x h = ground (arith, count-snoc xs x)

  count-snoc_other : (xs : List A) (x : A) → p x ≡ false → count p (xs ++ x ∷ []) ≡ count p xs
  unfolding count
  count-snoc_other [] x h = ground arith
  count-snoc_other (y ∷ xs) x h = ground (arith, count-snoc_other xs x h)

  any-snoc : (xs : List A) (x : A) → any p xs ≡ true → any p (xs ++ x ∷ []) ≡ true
  any-snoc xs x h = ground (arith, any-append p xs (x ∷ []))

  any-snoc_self : (xs : List A) (x : A) → p x ≡ true → any p (xs ++ x ∷ []) ≡ true
  unfolding any
  any-snoc_self [] x h = ground arith
  any-snoc_self (y ∷ xs) x h = ground (arith, any-snoc_self xs x h)

  -- A key stays unique if a new row with it finds none.
  count-snoc_one :
      (xs : List A) (x : A)
      → count p xs ≤ 1
      → (p x ≡ true → any p xs ≡ false)
      → count p (xs ++ x ∷ []) ≤ 1
  count-snoc_one xs x h k = elim (Bool-cases (p x)) [
    | inl e ↦ count-snoc xs x (k e)
    | inr e ↦ rw (count-snoc_other xs x e) h
  ]

abbrev with_status : GroupInvitationStatus → ℕ → List GroupChatInvitation → List GroupChatInvitation
with_status s k = update_where (λ i. i.id == k) (λ i. record i { status = s })

module _ (s : GroupInvitationStatus) (k : ℕ) where
  count_id-with_status :
      (j : ℕ) (is : List GroupChatInvitation)
      → count (λ i. i.id == j) (with_status s k is) ≡ count (λ i. i.id == j) is
  unfolding count update_where
  count_id-with_status j [] = refl
  count_id-with_status j (i ∷ is) = ground (arith, count_id-with_status j is)

  count_pending-with_status :
      (g u : ℕ) (is : List GroupChatInvitation)
      → is_pending_invitation s ≡ false
      → count (pending_invitation_to g u) (with_status s k is)
        ≤ count (pending_invitation_to g u) is
  unfolding count update_where
  count_pending-with_status g u [] h = omega arith
  count_pending-with_status g u (i ∷ is) h = ground (arith, count_pending-with_status g u is)

  with_status-none :
      (is : List GroupChatInvitation) → count (λ i. i.id == k) is ≡ 0 → with_status s k is ≡ is
  unfolding count update_where
  with_status-none [] h = refl
  with_status-none (i ∷ is) h = ground (arith, with_status-none is)

  -- The one row that changes was pending, and had admitted nobody.
  admits-with_status :
      (m : GroupChatMember) (is : List GroupChatInvitation) (i : GroupChatInvitation)
      → find_one (λ x. x.id == k) is ≡ some i
      → is_pending_invitation i.status ≡ true
      → count (λ x. x.id == k) is ≤ 1
      → any (admits m) is ≡ true
      → any (admits m) (with_status s k is) ≡ true
  unfolding any find_one count update_where
  admits-with_status m [] i f p one h = h
  admits-with_status m (x ∷ is) i f p one h =
      ground (arith, admits-with_status m is i, with_status-none is)

-- An accepted invitation admits its invitee.
pub admits_accepted :
    (k : ℕ) (is : List GroupChatInvitation) (i : GroupChatInvitation) (m : GroupChatMember)
    → find_one (λ x. x.id == k) is ≡ some i
    → i.group_chat_id ≡ m.group_chat_id
    → i.invitee_user_id ≡ m.user_id
    → any (admits m) (with_status GroupInvitationStatus.accepted k is) ≡ true
unfolding any find_one update_where
admits_accepted k [] i m f eg eu = ground arith
admits_accepted k (x ∷ is) i m f eg eu = ground (arith, admits_accepted k is i m)

pub or_true : (a b c : Bool) → (a || b) ≡ true → (b ≡ true → c ≡ true) → (a || c) ≡ true
or_true true b c h k = refl
or_true false b c h k = k h

pub set_invitation_status-IsSound :
    (s : GroupInvitationStatus) (i : GroupChatInvitation) (db : Database)
    → find_invitation i.id db ≡ some i
    → is_pending_invitation i.status ≡ true
    → is_pending_invitation s ≡ false
    → IsSound db
    → IsSound (set_invitation_status i.id s db)
unfolding set_invitation_status
set_invitation_status-IsSound s i db f p q h = record {
  one_group = h.one_group;
  one_row = h.one_row;
  one_invitation = λ k.
      omega (arith, count_id-with_status s i.id k db.group_chat_invitations, h.one_invitation k);
  one_member = h.one_member;
  one_pending = λ g u.
      omega (
        arith,
        count_pending-with_status s i.id g u db.group_chat_invitations q,
        h.one_pending g u,
      );
  owned = h.owned;
  housed = h.housed;
  admitted =
      All-mono db.group_chat_members
        (λ m e.
          or_true (is_owner m.role) _ _ e
            (admits-with_status s i.id m db.group_chat_invitations i f p (h.one_invitation i.id)))
        h.admitted;
}

-- A new member whose user was not in the group, in a group that is there.
pub insert_member-IsSound :
    (m : GroupChatMember) (db : Database)
    → any (λ x. x.id == m.id) db.group_chat_members ≡ false
    → any (belongs m.group_chat_id m.user_id) db.group_chat_members ≡ false
    → IsHoused db.group_chats m
    → IsAdmitted db.group_chat_invitations m
    → IsSound db
    → IsSound (insert_member m db)
unfolding insert_member
insert_member-IsSound m db fresh new home came h = record {
  one_group = h.one_group;
  one_row = λ k.
      count-snoc_one (λ x. x.id == k) db.group_chat_members m (h.one_row k)
        (λ e. rw (← (==_iff m.id k).0 e) fresh);
  one_invitation = h.one_invitation;
  one_member = λ g u. count-snoc_one (belongs g u) db.group_chat_members m (h.one_member g u) (λ e.
      let same : (m.group_chat_id ≡ g) × (m.user_id ≡ u) = ground arith in
      rw (← same.0, ← same.1) new);
  one_pending = h.one_pending;
  owned =
      All-mono db.group_chats
        (λ g e. any-snoc (owns g.id g.created_by_user_id) db.group_chat_members m e) h.owned;
  housed = All-append _ db.group_chat_members _ h.housed (home, tt);
  admitted = All-append _ db.group_chat_members _ h.admitted (came, tt);
}

-- A group that is not there has no members.
no_members :
    (id u : ℕ) (gs : List GroupChat) (ms : List GroupChatMember)
    → any (λ g. g.id == id) gs ≡ false
    → All (IsHoused gs) ms
    → any (belongs id u) ms ≡ false
unfolding any
no_members id u gs [] h a = refl
no_members id u gs (m ∷ ms) h a = elim (Bool-cases (m.group_chat_id == id)) [
  | inl e ↦
      cc (h, subst (λ k. any (λ g. g.id == k) gs ≡ true) ((==_iff m.group_chat_id id).0 e) a.0)
  | inr e ↦ rw e (no_members id u gs ms h a.1)
]

pub create-IsSound :
    (id member_id now creator : ℕ) (name : String) (db : Database)
    → any (λ g. g.id == id) db.group_chats ≡ false
    → any (λ m. m.id == member_id) db.group_chat_members ≡ false
    → IsSound db
    → IsSound (
        insert_member
          (new_member member_id now id creator GroupMemberRole.owner)
          (insert_group (new_group id now creator name) db))
unfolding insert_member insert_group
create-IsSound id member_id now creator name db fresh fresh' h =
    let m = new_member member_id now id creator GroupMemberRole.owner in
    let g = new_group id now creator name in
    record {
      one_group = λ k.
          count-snoc_one (λ x. x.id == k) db.group_chats g (h.one_group k)
            (λ e. rw (← (==_iff id k).0 e) fresh);
      one_row = λ k.
          count-snoc_one (λ x. x.id == k) db.group_chat_members m (h.one_row k)
            (λ e. rw (← (==_iff member_id k).0 e) fresh');
      one_invitation = h.one_invitation;
      one_member = λ j u.
          count-snoc_one (belongs j u) db.group_chat_members m (h.one_member j u) (λ e.
            let same : id ≡ j = ground arith in
            rw (← same) (no_members id u db.group_chats db.group_chat_members fresh h.housed));
      one_pending = h.one_pending;
      owned =
          All-append _ db.group_chats _
            (All-mono db.group_chats
              (λ x e. any-snoc (owns x.id x.created_by_user_id) db.group_chat_members m e) h.owned)
            (any-snoc_self (owns id creator) db.group_chat_members m (ground arith), tt);
      housed =
          All-append _ db.group_chat_members _
            (All-mono db.group_chat_members
              (λ x e. any-snoc (λ y. y.id == x.group_chat_id) db.group_chats g e) h.housed)
            (any-snoc_self (λ y. y.id == id) db.group_chats g (==_refl id), tt);
      admitted = All-append _ db.group_chat_members _ h.admitted (refl, tt);
    }

pub insert_invitation-IsSound :
    (i : GroupChatInvitation) (db : Database)
    → any (λ x. x.id == i.id) db.group_chat_invitations ≡ false
    → any (pending_invitation_to i.group_chat_id i.invitee_user_id) db.group_chat_invitations
      ≡ false
    → IsSound db
    → IsSound (insert_invitation i db)
unfolding insert_invitation
insert_invitation-IsSound i db fresh new h = record {
  one_group = h.one_group;
  one_row = h.one_row;
  one_invitation = λ k.
      count-snoc_one (λ x. x.id == k) db.group_chat_invitations i (h.one_invitation k)
        (λ e. rw (← (==_iff i.id k).0 e) fresh);
  one_member = h.one_member;
  one_pending = λ g u.
      count-snoc_one (pending_invitation_to g u) db.group_chat_invitations i (h.one_pending g u)
        (λ e.
          let same : (i.group_chat_id ≡ g) × (i.invitee_user_id ≡ u) = ground arith in
          rw (← same.0, ← same.1) new);
  owned = h.owned;
  housed = h.housed;
  admitted =
      All-mono db.group_chat_members
        (λ m e. or_true (is_owner m.role) _ _ e (any-snoc (admits m) db.group_chat_invitations i))
        h.admitted;
}
