-- ===== src/Realtime/Exclusive/Histories.antt =====
-- No sequence of calls of the gateway puts a socket in two rooms.
use drawback_backend.Prelude.{List, [], ◌∷◌}
use drawback_backend.World.{World}
use drawback_backend.Realtime.Gateway.{GatewayCall, perform, perform_all}
use drawback_backend.Realtime.Exclusive.{IsExclusive}
use drawback_backend.Realtime.Exclusive.Keeps.{Keeps}
use drawback_backend.Realtime.Exclusive.Calls.{
  handle_connection-Keeps, disconnect-Keeps, join_group-Keeps, join_chat-Keeps, leave_chat-Keeps,
  draw_stroke-Keeps, send_emote-Keeps, clear_canvas-Keeps, force_close_room-Keeps,
  notify_group_deleted-Keeps, force_remove-Keeps,
}

perform-Keeps : (c : GatewayCall) → Keeps (perform c)
unfolding perform
perform-Keeps (GatewayCall.connects now s p address agent) =
    handle_connection-Keeps now s p address agent
perform-Keeps (GatewayCall.disconnects s) = disconnect-Keeps s
perform-Keeps (GatewayCall.joins_group s g) = join_group-Keeps s g
perform-Keeps (GatewayCall.joins_chat s r) = join_chat-Keeps s r
perform-Keeps (GatewayCall.leaves s) = leave_chat-Keeps s
perform-Keeps (GatewayCall.draws now s d) = draw_stroke-Keeps now s d
perform-Keeps (GatewayCall.emotes s d) = send_emote-Keeps s d
perform-Keeps (GatewayCall.clears now s) = clear_canvas-Keeps now s
perform-Keeps (GatewayCall.closes room) = force_close_room-Keeps room
perform-Keeps (GatewayCall.deletes_group g room) = notify_group_deleted-Keeps g room
perform-Keeps (GatewayCall.removes u room) = force_remove-Keeps u room

-- From a world in which every membership of a room is the one that is cached for its socket, every
-- sequence of calls leads to such a world: a socket is in one room at most.
pub perform_all-IsExclusive :
    (cs : List GatewayCall) (w : World)
    → IsExclusive w.realtime
    → IsExclusive (perform_all cs w).realtime
unfolding perform_all
perform_all-IsExclusive [] w h = h
perform_all-IsExclusive (c ∷ cs) w h =
    perform_all-IsExclusive cs (perform c w).1 ((perform-Keeps c).at w h)
