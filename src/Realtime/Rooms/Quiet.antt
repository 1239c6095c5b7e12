-- ===== src/Realtime/Rooms/Quiet.antt =====
-- What the services ask of the gateway always returns and leaves the database alone.
use drawback_backend.Prelude.{ℕ, List, [], ◌∷◌}
use drawback_backend.World.{Event}
use drawback_backend.World.Realtime.{RoomId}
use drawback_backend.World.Quiet.{IsQuiet, send-IsQuiet, bind-IsQuiet, quiet}
use drawback_backend.Realtime.Rooms.{
  emit_to_user, emit_peers_left, force_close_room, notify_group_deleted, remove_socket,
  force_remove_user_from_room,
}

pub emit_to_user-IsQuiet : (user : ℕ) (e : Event) → IsQuiet (emit_to_user user e)
unfolding emit_to_user
emit_to_user-IsQuiet user e = search quiet

emit_peers_left-IsQuiet : (room : RoomId) (us : List ℕ) → IsQuiet (emit_peers_left room us)
unfolding emit_peers_left
emit_peers_left-IsQuiet room [] = search quiet
emit_peers_left-IsQuiet room (u ∷ us) =
    bind-IsQuiet _ _ (send-IsQuiet _) (λ _. emit_peers_left-IsQuiet room us)

pub force_close_room-IsQuiet : (room : RoomId) → IsQuiet (force_close_room room)
unfolding force_close_room
force_close_room-IsQuiet room = search (quiet, emit_peers_left-IsQuiet) depth 12

pub notify_group_deleted-IsQuiet :
    (group : ℕ) (room : RoomId) → IsQuiet (notify_group_deleted group room)
unfolding notify_group_deleted
notify_group_deleted-IsQuiet group room = search (quiet, force_close_room-IsQuiet)

remove_socket-IsQuiet : (user : ℕ) (room : RoomId) (s : ℕ) → IsQuiet (remove_socket user room s)
unfolding remove_socket
remove_socket-IsQuiet user room s = search quiet depth 12

pub force_remove_user_from_room-IsQuiet :
    (user : ℕ) (room : RoomId) → IsQuiet (force_remove_user_from_room user room)
unfolding force_remove_user_from_room
force_remove_user_from_room-IsQuiet user room = search (quiet, remove_socket-IsQuiet)
