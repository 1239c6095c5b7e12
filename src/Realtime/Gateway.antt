-- ===== src/Realtime/Gateway.antt =====
-- realtime/draw.gateway.ts: the calls that the gateway serves.
use drawback_backend.Prelude.{ℕ, String, List, [], ◌∷◌, Option}
use drawback_backend.World.{World, Exec, modify_realtime, ◌>>◌}
use drawback_backend.World.Realtime.{RoomId}
use drawback_backend.Realtime.Rooms.{
  force_close_room, notify_group_deleted, force_remove_user_from_room,
}
use drawback_backend.Realtime.Connections.{
  JwtPayload, handle_connection, handle_disconnect, drop_socket,
}
use drawback_backend.Realtime.Drawing.{
  join_group, join_chat, leave_chat, draw_stroke, send_emote, clear_canvas,
}

-- A message from a socket, a connection, a disconnection, which Socket.IO tells after the socket has
-- left its rooms, and what the services ask of the gateway.
pub data GatewayCall : Type 0 where
  connects : ℕ → ℕ → Option JwtPayload → String → String → GatewayCall
  disconnects : ℕ → GatewayCall
  joins_group joins_chat : ℕ → ℕ → GatewayCall
  leaves : ℕ → GatewayCall
  draws : ℕ → ℕ → String → GatewayCall
  emotes : ℕ → String → GatewayCall
  clears : ℕ → ℕ → GatewayCall
  closes : RoomId → GatewayCall
  deletes_group removes : ℕ → RoomId → GatewayCall

unfoldable pub perform : GatewayCall → Exec (Unit {0})
perform (GatewayCall.connects now s p address agent) = handle_connection now s p address agent
perform (GatewayCall.disconnects s) = modify_realtime (drop_socket s) >> handle_disconnect s
perform (GatewayCall.joins_group s g) = join_group s g
perform (GatewayCall.joins_chat s r) = join_chat s r
perform (GatewayCall.leaves s) = leave_chat s
perform (GatewayCall.draws now s d) = draw_stroke now s d
perform (GatewayCall.emotes s d) = send_emote s d
perform (GatewayCall.clears now s) = clear_canvas now s
perform (GatewayCall.closes room) = force_close_room room
perform (GatewayCall.deletes_group g room) = notify_group_deleted g room
perform (GatewayCall.removes u room) = force_remove_user_from_room u room

-- The world after a sequence of calls.
unfoldable pub perform_all : List GatewayCall → World → World
perform_all [] w = w
perform_all (c ∷ cs) w = perform_all cs (perform c w).1
