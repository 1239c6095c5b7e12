-- ===== src/Realtime/Drawing.antt =====
-- realtime/draw.gateway.ts: the messages that a socket sends. A payload is the identity of the socket
-- and the drawing, a text; the address that the session log keeps with an event is left out.
pub mod Presence
use drawback_backend.Prelude.{
  ℕ, String, Bool, false, List, [], ◌∷◌, ◌++◌, Option, none, some, ◌==◌, not, if◌then◌else◌, select,
  find_one, remove_where, any,
}
use drawback_backend.Schema.Enums.{SessionEventType}
use drawback_backend.Schema.Entities.{User}
use drawback_backend.Users.Queries.{find_by_id}
use drawback_backend.World.{
  Exec, Result, ok, err, Exception, Event, return, gets, modify_realtime, send, or_throw, if_found,
  ◌>>=◌, ◌>>◌, unauthorized, forbidden, not_found, emit, Target, error_event, peer_left,
  peer_joined, peer_waiting, group_joined, group_member_joined, chat_joined, left, stroke, emote,
  clear, session_event, push_peer_waiting,
}
use drawback_backend.World.Realtime.{Realtime, RoomId, SocketMeta, same_room, in_room, put, delete}
use drawback_backend.Realtime.Rooms.{emit_to_user, sockets_in, users_of, leave_room}
use drawback_backend.Realtime.RateLimit.{is_clear_rate_limited, is_stroke_rate_limited}
use drawback_backend.Chat.Requests.{get_accepted_room_for_user, get_peer_user_id}
use drawback_backend.Chat.Groups.{get_group_room_for_member}

unfoldable pub emit_error : ℕ → Exception → Exec (Unit {0})
emit_error client e = send (emit (Target.socket client) (error_event e))

-- `try { … } catch (err) { this.emitError(client, err) }`
abbrev pub recover : ℕ → Result (Unit {0}) → Exec (Unit {0})
recover client (ok x) = return x
recover client (err e) = emit_error client e

unfoldable pub guarded : ℕ → Exec (Unit {0}) → Exec (Unit {0})
guarded client m w = let (r, w') = m w in recover client r w'

unfoldable pub get_authenticated_user_id : ℕ → Exec ℕ
get_authenticated_user_id client = do
  user ← gets (λ w. w.realtime.socket_to_user client)
  or_throw user (unauthorized "Socket not authenticated")

-- `client.leave(room)`, and `client.join(room)`, which adds to a set.
unfoldable pub leave : ℕ → RoomId → Realtime → Realtime
leave client room rt = record rt { rooms = remove_where (leave_room room client) rt.rooms }

unfoldable pub join : ℕ → RoomId → Realtime → Realtime
join client room rt = record rt {
  rooms =
      if any (leave_room room client) rt.rooms
      then rt.rooms
      else rt.rooms ++ record { room = room; socket = client } ∷ [];
  socket_to_room = put client room rt.socket_to_room;
}

-- `hset(metaKey, 'currentRoom', …)`, which makes the hash if it is not there.
abbrev meta_or_new : Option SocketMeta → SocketMeta
meta_or_new none = record {
  user_id = none;
  connected_at = none;
  ip_address = none;
  user_agent = none;
  current_room = none;
}
meta_or_new (some m) = m

unfoldable pub set_current_room : ℕ → Option RoomId → Realtime → Realtime
set_current_room client room rt = record rt {
  redis_socket_meta =
      put client (record (meta_or_new (rt.redis_socket_meta client)) { current_room = room })
        rt.redis_socket_meta;
}

unfoldable pub leave_previous : ℕ → ℕ → RoomId → Option RoomId → Exec (Unit {0})
leave_previous client user_id room none = return tt
leave_previous client user_id room (some prev) =
    if same_room prev room
    then return tt
    else modify_realtime (leave client prev)
      >> send (emit (Target.others prev client) (peer_left (some user_id)))

-- The lines that `joinGroup` and `joinChat` share.
unfoldable pub enter : ℕ → ℕ → RoomId → Exec (Unit {0})
enter client user_id room = do
  prev ← gets (λ w. w.realtime.socket_to_room client)
  leave_previous client user_id room prev
  modify_realtime (join client room)
  modify_realtime (set_current_room client (some room))

unfoldable pub join_group_room : ℕ → ℕ → ℕ → RoomId → Exec (Unit {0})
join_group_room client group_id user_id room = do
  enter client user_id room
  peers ←
      gets (λ w. users_of w.realtime (select (λ s. not (s == client)) (sockets_in room w.realtime)))
  send (emit (Target.socket client) (group_joined room group_id peers))
  send (emit (Target.others room client) (group_member_joined user_id))

unfoldable pub join_group : ℕ → ℕ → Exec (Unit {0})
join_group client group_id = guarded client (do
  user_id ← get_authenticated_user_id client
  room ← get_group_room_for_member group_id user_id
  join_group_room client group_id user_id room)

abbrev is_current_room : Option SocketMeta → RoomId → Bool
is_current_room none room = false
is_current_room (some m) room = in_room m.current_room room

abbrev meta_of : Realtime → Option ℕ → Option SocketMeta
meta_of rt none = none
meta_of rt (some s) = rt.redis_socket_meta s

unfoldable pub is_user_in_room : ℕ → RoomId → Realtime → Bool
is_user_in_room user_id room rt = is_current_room (meta_of rt (rt.redis_user_socket user_id)) room

abbrev name_of : Option User → Option String
name_of none = none
name_of (some u) = some u.display_name

unfoldable pub notify_waiting_peer : ℕ → ℕ → RoomId → ℕ → Exec (Unit {0})
notify_waiting_peer request_id user_id room peer_id = do
  already ← gets (λ w. is_user_in_room peer_id room w.realtime)
  if already then return tt else do
    emit_to_user peer_id (peer_waiting room request_id user_id)
    waiting_user ← gets (λ w. find_by_id user_id w.db)
    send (push_peer_waiting peer_id request_id room user_id (name_of waiting_user))

unfoldable pub wait_for_peer : ℕ → ℕ → RoomId → List ℕ → Exec (Unit {0})
wait_for_peer request_id user_id room [] = do
  peer ← get_peer_user_id request_id user_id
  if_found peer (return tt) (notify_waiting_peer request_id user_id room)
wait_for_peer request_id user_id room (p ∷ ps) = return tt

abbrev first_of : Option ℕ → List ℕ
first_of none = []
first_of (some s) = s ∷ []

unfoldable pub join_chat_room : ℕ → ℕ → ℕ → RoomId → Exec (Unit {0})
join_chat_room client request_id user_id room = do
  enter client user_id room
  peers ← gets (λ w.
      users_of w.realtime
        (first_of (find_one (λ s. not (s == client)) (sockets_in room w.realtime))))
  send (emit (Target.socket client) (chat_joined room request_id peers))
  send (session_event user_id SessionEventType.chat_joined)
  send (emit (Target.others room client) (peer_joined user_id))
  wait_for_peer request_id user_id room peers

unfoldable pub join_chat : ℕ → ℕ → Exec (Unit {0})
join_chat client request_id = guarded client (do
  user_id ← get_authenticated_user_id client
  room ← get_accepted_room_for_user request_id user_id
  if_found room (emit_error client (not_found "Chat request not found"))
      (join_chat_room client request_id user_id))

abbrev pub log_left : Option ℕ → Exec (Unit {0})
log_left none = return tt
log_left (some u) = send (session_event u SessionEventType.chat_left)

unfoldable pub leave_current : ℕ → Option ℕ → RoomId → Exec (Unit {0})
leave_current client user_id room = do
  send (emit (Target.others room client) (peer_left user_id))
  modify_realtime (leave client room)
  modify_realtime (λ rt. record rt { socket_to_room = delete client rt.socket_to_room })
  modify_realtime (set_current_room client none)
  log_left user_id

unfoldable pub leave_chat : ℕ → Exec (Unit {0})
leave_chat client = do
  user_id ← gets (λ w. w.realtime.socket_to_user client)
  room ← gets (λ w. w.realtime.socket_to_room client)
  if_found room (return tt) (leave_current client user_id)
  send (emit (Target.socket client) left)

-- The end that `drawStroke`, `sendEmote` and `clearCanvas` share: the event goes to the others in the
-- cached room.
unfoldable pub forward : ℕ → (Option ℕ → Event) → Exec (Unit {0})
forward client event = do
  room ← gets (λ w. w.realtime.socket_to_room client)
  user_id ← gets (λ w. w.realtime.socket_to_user client)
  if_found room (emit_error client (forbidden "Not in a room"))
      (λ r. send (emit (Target.others r client) (event user_id)))

unfoldable pub draw_stroke : ℕ → ℕ → String → Exec (Unit {0})
draw_stroke now client drawing = do
  limited ← is_stroke_rate_limited now client
  if limited then return tt else forward client (λ u. stroke u drawing)

unfoldable pub send_emote : ℕ → String → Exec (Unit {0})
send_emote client emoji = forward client (λ u. emote u emoji)

unfoldable pub clear_canvas : ℕ → ℕ → Exec (Unit {0})
clear_canvas now client = do
  limited ← is_clear_rate_limited now client
  if limited
      then emit_error client (forbidden "Too many clear events. Max 5 per 5s.")
      else forward client clear
