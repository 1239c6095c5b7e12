-- ===== src/Chat/Requests.antt =====
-- chat/chat.service.ts: chat requests, from `createRequest` to `closeAllRoomsForUser`.
pub mod Access
pub mod Closing
use drawback_backend.Prelude.{
  ℕ, String, Bool, true, false, List, [], ◌∷◌, ◌++◌, Option, none, some, ◌==◌, ◌&&◌, ◌||◌, not,
  if◌then◌else◌, select, update_where, find_one, any,
}
use drawback_backend.Schema.{Database, delete_chat_request}
use drawback_backend.Schema.Enums.{ChatRequestStatus, is_public, is_pending, is_accepted}
use drawback_backend.Schema.Entities.{User, ChatRequest}
use drawback_backend.Users.Queries.{find_by_id, find_by_display_name, is_blocked}
use drawback_backend.Realtime.Rooms.{emit_to_user, force_close_room}
use drawback_backend.World.{
  Exec, return, throw, gets, modify_db, send, ◌>>=◌, ◌>>◌, throw_if, or_throw, if_found, not_found,
  bad_request, forbidden, push_chat_request, chat_requested, chat_response,
}
use drawback_backend.World.Realtime.{RoomId, chat_room}

abbrev pub build_room_id : ℕ → RoomId
build_room_id request_id = chat_room request_id

unfoldable pub find_request : ℕ → Database → Option ChatRequest
find_request id db = find_one (λ r. r.id == id) db.chat_requests

abbrev pub is_participant : ℕ → ChatRequest → Bool
is_participant user_id r = r.from_user_id == user_id || r.to_user_id == user_id

-- The `where` clause of the search for a duplicate.
abbrev pub pending_from_to : ℕ → ℕ → ChatRequest → Bool
pending_from_to a b r = r.from_user_id == a && r.to_user_id == b && is_pending r.status

-- `create` and `save` of a new row, whose `id` and `createdAt` the database gives.
abbrev pub new_request : ℕ → ℕ → ℕ → ℕ → ChatRequest
new_request id now a b = record {
  id = id;
  from_user_id = a;
  to_user_id = b;
  status = ChatRequestStatus.pending;
  created_at = now;
}

unfoldable pub insert_request : ChatRequest → Database → Database
insert_request r db = record db { chat_requests = db.chat_requests ++ r ∷ [] }

unfoldable pub request_from_to : ℕ → ℕ → User → User → Exec (Option ChatRequest)
request_from_to id now from_user to_user = do
  throw_if (to_user.id == from_user.id) (bad_request "You cannot chat with yourself")
  blocked ← gets (λ w. is_blocked from_user.id to_user.id w.db)
  throw_if blocked (forbidden "You cannot send a chat request to this user")
  throw_if (not (is_public to_user.mode) && not to_user.appear_in_searches)
      (forbidden "This user is not accepting chat requests")
  duplicate ← gets (λ w. any (pending_from_to from_user.id to_user.id) w.db.chat_requests)
  throw_if duplicate (bad_request "You already have a pending request to this user")
  modify_db (insert_request (new_request id now from_user.id to_user.id))
  emit_to_user to_user.id (chat_requested id from_user.id from_user.display_name)
  send (push_chat_request to_user.id id from_user.id from_user.display_name)
  return (some (new_request id now from_user.id to_user.id))

unfoldable pub create_request : (String → String) → ℕ → ℕ → ℕ → String → Exec (Option ChatRequest)
unfolding request_from_to
create_request to_lower_case id now from_user_id to_display_name = do
  found ← gets (λ w. find_by_id from_user_id w.db)
  from_user ← or_throw found (not_found "User not found")
  to_user ← gets (λ w. find_by_display_name to_lower_case to_display_name w.db)
  if_found to_user (return none) (λ u. request_from_to id now from_user u)

-- `save` of a loaded request whose status was set.
unfoldable pub set_request_status : ℕ → ChatRequestStatus → Database → Database
set_request_status id status db = record db {
  chat_requests =
      update_where (λ r. r.id == id) (λ r. record r { status = status }) db.chat_requests;
}

abbrev pub answer : Bool → ChatRequestStatus
answer true = ChatRequestStatus.accepted
answer false = ChatRequestStatus.rejected

abbrev pub answer_room : Bool → ℕ → Option RoomId
answer_room true id = some (build_room_id id)
answer_room false id = none

-- `if (blocked) { remove the request; throw }`, which two methods have.
unfoldable pub refuse_if_blocked : ChatRequest → Exec (Unit {0})
refuse_if_blocked request = do
  blocked ← gets (λ w. is_blocked request.from_user_id request.to_user_id w.db)
  if blocked
      then (modify_db (delete_chat_request request.id) >> throw (forbidden "Can not find user."))
      else return tt

unfoldable pub respond : ChatRequest → ℕ → Bool → Exec (Option (ChatRequest × Option RoomId))
respond request responder_user_id accept = do
  throw_if (not (request.to_user_id == responder_user_id))
      (forbidden "Only the recipient can respond")
  throw_if (not (is_pending request.status)) (bad_request "Chat request is already resolved")
  (if accept then refuse_if_blocked request else return tt)
  modify_db (set_request_status request.id (answer accept))
  emit_to_user request.from_user_id
      (chat_response request.id accept (answer_room accept request.id) request.to_user_id)
  emit_to_user request.to_user_id
      (chat_response request.id accept (answer_room accept request.id) request.from_user_id)
  return (some (record request { status = answer accept }, answer_room accept request.id))

unfoldable pub respond_to_request : ℕ → ℕ → Bool → Exec (Option (ChatRequest × Option RoomId))
unfolding respond
respond_to_request request_id responder_user_id accept = do
  request ← gets (λ w. find_request request_id w.db)
  if_found request (return none) (λ r. respond r responder_user_id accept)

unfoldable pub cancel : ChatRequest → ℕ → Exec Bool
cancel request user_id = do
  throw_if (not (request.from_user_id == user_id))
      (forbidden "Only the sender can cancel this request")
  throw_if (not (is_pending request.status)) (bad_request "Only pending requests can be cancelled")
  modify_db (delete_chat_request request.id)
  return true

unfoldable pub cancel_request : ℕ → ℕ → Exec Bool
unfolding cancel
cancel_request request_id user_id = do
  request ← gets (λ w. find_request request_id w.db)
  if_found request (return false) (λ r. cancel r user_id)

unfoldable pub accepted_room : ChatRequest → ℕ → Exec (Option RoomId)
accepted_room request user_id = do
  throw_if (not (is_participant user_id request))
      (forbidden "You are not part of this chat request")
  throw_if (not (is_accepted request.status)) (forbidden "Chat request is not accepted")
  refuse_if_blocked request
  return (some (build_room_id request.id))

unfoldable pub get_accepted_room_for_user : ℕ → ℕ → Exec (Option RoomId)
unfolding accepted_room
get_accepted_room_for_user request_id user_id = do
  request ← gets (λ w. find_request request_id w.db)
  if_found request (return none) (λ r. accepted_room r user_id)

unfoldable pub peer_of : Option ChatRequest → ℕ → Option ℕ
peer_of none user_id = none
peer_of (some r) user_id =
    if not (is_participant user_id r)
    then none
    else some (if r.from_user_id == user_id then r.to_user_id else r.from_user_id)

unfoldable pub get_peer_user_id : ℕ → ℕ → Exec (Option ℕ)
unfolding peer_of
get_peer_user_id request_id user_id = do
  request ← gets (λ w. find_request request_id w.db)
  return (peer_of request user_id)

unfoldable pub remove_accepted : ChatRequest → ℕ → Exec Bool
remove_accepted request user_id = do
  throw_if (not (is_participant user_id request)) (forbidden "You are not part of this chat")
  throw_if (not (is_accepted request.status)) (bad_request "Only accepted chats can be removed")
  force_close_room (build_room_id request.id)
  modify_db (delete_chat_request request.id)
  return true

unfoldable pub remove_accepted_chat : ℕ → ℕ → Exec Bool
unfolding remove_accepted
remove_accepted_chat request_id user_id = do
  request ← gets (λ w. find_request request_id w.db)
  if_found request (return false) (λ r. remove_accepted r user_id)

-- The accepted requests between two users, or of one user, and the loop that closes their rooms.
abbrev pub accepted_between : ℕ → ℕ → ChatRequest → Bool
accepted_between a b r =
    is_accepted r.status
    && ((r.from_user_id == a && r.to_user_id == b) || (r.from_user_id == b && r.to_user_id == a))

abbrev pub accepted_of : ℕ → ChatRequest → Bool
accepted_of u r = is_accepted r.status && is_participant u r

unfoldable pub close_rooms : List ChatRequest → Exec (Unit {0})
close_rooms [] = return tt
close_rooms (chat ∷ chats) = force_close_room (build_room_id chat.id) >> close_rooms chats

unfoldable pub close_rooms_between_users : ℕ → ℕ → Exec (Unit {0})
close_rooms_between_users a b = do
  active_chats ← gets (λ w. select (accepted_between a b) w.db.chat_requests)
  close_rooms active_chats

unfoldable pub close_all_rooms_for_user : ℕ → Exec (Unit {0})
close_all_rooms_for_user u = do
  active_chats ← gets (λ w. select (accepted_of u) w.db.chat_requests)
  close_rooms active_chats
