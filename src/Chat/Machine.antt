-- ===== src/Chat/Machine.antt =====
-- Histories of the chat: any sequence of the calls of chat/chat.service.ts on requests and saved
-- chats, or of those on groups, each run to its end before the next begins. The ids and the times of new rows come
-- with a call; the database gives a new row an id that no row of its table has.
use drawback_backend.Prelude.{String, false, ◌≡◌, ◌==◌, any}
use drawback_backend.Schema.{Database}
use drawback_backend.World.{World}
use drawback_backend.Chat.Requests.{
  create_request, respond_to_request, cancel_request, get_accepted_room_for_user,
  remove_accepted_chat,
}
use drawback_backend.Chat.Saved.{save_chat, delete_saved_chat}
use drawback_backend.Chat.Groups.{
  create_group, invite_member, respond_to_group_invitation, remove_member, delete_group,
}
use drawback_backend.Chat.Steps.{
  RequestCall, RequestStep, creates, responds, cancels, enters, removes, saves, unsaves,
}
use drawback_backend.Chat.GroupSteps.{
  GroupCall, GroupStep, founds, invites, answers, expels, dissolves,
}
use drawback_backend.Chat.Steps.Refinement.{
  create_request-MakesStep, respond_to_request-MakesStep, cancel_request-MakesStep,
  get_accepted_room_for_user-MakesStep, remove_accepted_chat-MakesStep, save_chat-MakesStep,
  delete_saved_chat-MakesStep,
}
use drawback_backend.Chat.GroupSteps.Refinement.{
  create_group-MakesStep, invite_member-MakesStep, respond_to_group_invitation-MakesStep,
  remove_member-MakesStep, delete_group-MakesStep,
}
use drawback_backend.Chat.Steps.Soundness.{IsSound as RequestsAreSound, RequestStep-IsSound}
use drawback_backend.Chat.GroupSteps.Tables.{IsSound as GroupsAreSound}
use drawback_backend.Chat.GroupSteps.Soundness.{GroupStep-IsSound}

module _ (to_lower_case : String → String) where
  abbrev pub perform_request : RequestCall → World → World
  perform_request (creates id now u name) w = (create_request to_lower_case id now u name w).1
  perform_request (responds r u b) w = (respond_to_request r u b w).1
  perform_request (cancels r u) w = (cancel_request r u w).1
  perform_request (enters r u) w = (get_accepted_room_for_user r u w).1
  perform_request (removes r u) w = (remove_accepted_chat r u w).1
  perform_request (saves id now r u) w = (save_chat id now r u w).1
  perform_request (unsaves s u) w = (delete_saved_chat s u w).1

  abbrev pub perform_group : GroupCall → World → World
  perform_group (founds id mid now u name) w = (create_group id mid now u name w).1
  perform_group (invites id now g u name) w = (invite_member to_lower_case id now g u name w).1
  perform_group (answers mid now i u b) w = (respond_to_group_invitation mid now i u b w).1
  perform_group (expels g r t) w = (remove_member g r t w).1
  perform_group (dissolves g r) w = (delete_group g r w).1

abbrev pub FreshRequest : RequestCall → Database → Type 0
FreshRequest (creates id now u name) db = any (λ r. r.id == id) db.chat_requests ≡ false
FreshRequest _ db = Unit

abbrev pub FreshGroup : GroupCall → Database → Type 0
FreshGroup (founds id mid now u name) db =
    (any (λ g. g.id == id) db.group_chats ≡ false)
    × (any (λ m. m.id == mid) db.group_chat_members ≡ false)
FreshGroup (invites id now g u name) db = any (λ i. i.id == id) db.group_chat_invitations ≡ false
FreshGroup (answers mid now i u b) db = any (λ m. m.id == mid) db.group_chat_members ≡ false
FreshGroup _ db = Unit

-- Each request handler, on every branch, makes the step of its call, if the id of a new request is
-- new: it makes the change that the call is about, and no other, exactly if the caller and the rows
-- meet the conditions of that call, and otherwise changes no table.
pub perform_request-RequestStep :
    (to_lower_case : String → String) (c : RequestCall) (w : World)
    → FreshRequest c w.db
    → RequestStep to_lower_case w.db (perform_request to_lower_case c w).db c
perform_request-RequestStep lower (creates id now u name) w f =
    (create_request-MakesStep lower id now u name w f).at
perform_request-RequestStep lower (responds r u b) w f =
    (respond_to_request-MakesStep lower r u b w).at
perform_request-RequestStep lower (cancels r u) w f = (cancel_request-MakesStep lower r u w).at
perform_request-RequestStep lower (enters r u) w f =
    (get_accepted_room_for_user-MakesStep lower r u w).at
perform_request-RequestStep lower (removes r u) w f =
    (remove_accepted_chat-MakesStep lower r u w).at
perform_request-RequestStep lower (saves id now r u) w f =
    (save_chat-MakesStep lower id now r u w).at
perform_request-RequestStep lower (unsaves s u) w f = (delete_saved_chat-MakesStep lower s u w).at

-- Each group handler, on every branch, makes the step of its call, if the ids of new rows are new: it
-- makes the change that the call is about, and no other, exactly if the caller and the rows meet the
-- conditions of that call, and otherwise changes no table.
pub perform_group-GroupStep :
    (to_lower_case : String → String) (c : GroupCall) (w : World)
    → FreshGroup c w.db
    → GroupStep to_lower_case w.db (perform_group to_lower_case c w).db c
perform_group-GroupStep lower (founds id mid now u name) w f =
    (create_group-MakesStep lower id mid now u name w f.0 f.1).at
perform_group-GroupStep lower (invites id now g u name) w f =
    (invite_member-MakesStep lower id now g u name w f).at
perform_group-GroupStep lower (answers mid now i u b) w f =
    (respond_to_group_invitation-MakesStep lower mid now i u b w f).at
perform_group-GroupStep lower (expels g r t) w f = (remove_member-MakesStep lower g r t w).at
perform_group-GroupStep lower (dissolves g r) w f = (delete_group-MakesStep lower g r w).at

-- The worlds that a history of request calls, or of group calls, leads to.
pub data RequestHistory (to_lower_case : String → String) (w : World) : World → Type 0 where
  start : RequestHistory to_lower_case w w
  call :
      {v : World}
      → RequestHistory to_lower_case w v
      → (c : RequestCall) → FreshRequest c v.db
      → RequestHistory to_lower_case w (perform_request to_lower_case c v)

pub data GroupHistory (to_lower_case : String → String) (w : World) : World → Type 0 where
  start : GroupHistory to_lower_case w w
  call :
      {v : World}
      → GroupHistory to_lower_case w v
      → (c : GroupCall) → FreshGroup c v.db
      → GroupHistory to_lower_case w (perform_group to_lower_case c v)

-- From a sound database, every history of calls leads to a sound one: distinct ids, no request of a
-- user to themselves, at most one pending request from a user to another, at most one saved chat of
-- a user for a request, and each saved chat backed by an accepted request of its user.
pub RequestHistory-IsSound :
    (to_lower_case : String → String) (w v : World)
    → RequestHistory to_lower_case w v
    → RequestsAreSound w.db
    → RequestsAreSound v.db
RequestHistory-IsSound lower w v RequestHistory.start h = h
RequestHistory-IsSound lower w v (RequestHistory.call {v = u} past c f) h =
    RequestStep-IsSound lower c _ _ (perform_request-RequestStep lower c u f)
      (RequestHistory-IsSound lower w u past h)

-- From a sound database, every history of group calls leads to a sound one: in particular the
-- creator of each group is still a member and its owner, and every other member has accepted an
-- invitation to that group.
pub GroupHistory-IsSound :
    (to_lower_case : String → String) (w v : World)
    → GroupHistory to_lower_case w v
    → GroupsAreSound w.db
    → GroupsAreSound v.db
GroupHistory-IsSound lower w v GroupHistory.start h = h
GroupHistory-IsSound lower w v (GroupHistory.call {v = u} past c f) h =
    GroupStep-IsSound lower c _ _ (perform_group-GroupStep lower c u f)
      (GroupHistory-IsSound lower w u past h)
