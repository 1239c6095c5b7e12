-- ===== src/Realtime/Rooms.antt =====
-- realtime/draw.gateway.ts: the calls that the services make of the gateway. Socket.IO's rooms are
-- a list of memberships; `socketsLeave` drops those of a room, or of a socket in a room.
pub mod Quiet
pub mod Closing
use drawback_backend.Prelude.{
  ℕ, Bool, List, [], ◌∷◌, Option, none, some, ◌==◌, ◌&&◌, if◌then◌else◌, select, remove_where, map,
}
use drawback_backend.World.{
  Exec, return, gets, modify_realtime, if_found, send, ◌>>=◌, ◌>>◌, Event, Target, emit,
  room_closed, peer_left, group_deleted, group_removed, group_member_left,
}
use drawback_backend.World.Realtime.{Realtime, RoomId, Map, Membership, same_room, in_room, delete}

-- `emitToUser`: the event is dropped if Redis knows no socket of the user.
unfoldable pub emit_to_user : ℕ → Event → Exec (Unit {0})
emit_to_user user_id event = do
  socket_id ← gets (λ w. w.realtime.redis_user_socket user_id)
  if_found socket_id (return tt) (λ s. send (emit (Target.socket s) event))

abbrev pub sockets_in : RoomId → Realtime → List ℕ
sockets_in room rt = map (λ m. m.socket) (select (λ m. same_room m.room room) rt.rooms)

-- `get(a) ?? b`, and the loop that keeps the users it finds.
abbrev pub or_else {ℓ} : {A : Type ℓ} → Option A → Option A → Option A
or_else none b = b
or_else (some a) b = some a

abbrev cons_found : Option ℕ → List ℕ → List ℕ
cons_found none us = us
cons_found (some u) us = u ∷ us

unfoldable pub users_of : Realtime → List ℕ → List ℕ
users_of rt [] = []
users_of rt (s ∷ ss) =
    cons_found (or_else (rt.socket_to_user s) (rt.redis_socket_user s)) (users_of rt ss)

unfoldable pub emit_peers_left : RoomId → List ℕ → Exec (Unit {0})
emit_peers_left room [] = return tt
emit_peers_left room (u ∷ us) =
    send (emit (Target.room room) (peer_left (some u))) >> emit_peers_left room us

-- The loop that forgets the room for the sockets of this process.
unfoldable pub forget_room : RoomId → List ℕ → Map RoomId → Map RoomId
forget_room room [] m = m
forget_room room (s ∷ ss) m = forget_room room ss (if in_room (m s) room then delete s m else m)

unfoldable pub force_close_room : RoomId → Exec (Unit {0})
force_close_room room = do
  room_sockets ← gets (λ w. sockets_in room w.realtime)
  user_ids ← gets (λ w. users_of w.realtime room_sockets)
  send (emit (Target.room room) room_closed)
  emit_peers_left room user_ids
  modify_realtime (λ rt. record rt { rooms = remove_where (λ m. same_room m.room room) rt.rooms })
  modify_realtime
      (λ rt. record rt { socket_to_room = forget_room room room_sockets rt.socket_to_room })

unfoldable pub notify_group_deleted : ℕ → RoomId → Exec (Unit {0})
notify_group_deleted group_id room = do
  send (emit (Target.room room) (group_deleted group_id))
  force_close_room room

abbrev pub leave_room : RoomId → ℕ → Membership → Bool
leave_room room s m = m.socket == s && same_room m.room room

unfoldable pub remove_socket : ℕ → RoomId → ℕ → Exec (Unit {0})
remove_socket user_id room s = do
  modify_realtime (λ rt. record rt { rooms = remove_where (leave_room room s) rt.rooms })
  modify_realtime (λ rt. record rt { socket_to_room = forget_room room (s ∷ []) rt.socket_to_room })
  send (emit (Target.socket s) (group_removed room))
  send (emit (Target.room room) (group_member_left user_id))

unfoldable pub force_remove_user_from_room : ℕ → RoomId → Exec (Unit {0})
unfolding remove_socket
force_remove_user_from_room user_id room = do
  socket_id ← gets (λ w. w.realtime.redis_user_socket user_id)
  if_found socket_id (return tt) (λ s. remove_socket user_id room s)
