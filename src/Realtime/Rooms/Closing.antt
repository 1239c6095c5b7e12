-- ===== src/Realtime/Rooms/Closing.antt =====
-- What is left of a room after the gateway has closed it.
use mathlib.Core.List.{append-nil, append_assoc}
use drawback_backend.Prelude.{ℕ, List, [], ◌∷◌, ◌++◌, some, ◌≡◌, map, remove_where}
use drawback_backend.World.{World, Effect, emit, Target, ok, room_closed, peer_left, ◌>>=◌}
use drawback_backend.World.Realtime.{Realtime, RoomId, same_room}
use drawback_backend.Realtime.Rooms.{
  emit_peers_left, force_close_room, forget_room, sockets_in, users_of,
}

abbrev pub leave_event : RoomId → ℕ → Effect
leave_event room u = emit (Target.room room) (peer_left (some u))

emit_peers_left_lem :
    (room : RoomId) (us : List ℕ) (w : World)
    → emit_peers_left room us w
      ≡ (ok tt, record w { outbox = w.outbox ++ map (leave_event room) us })
unfolding emit_peers_left ◌>>=◌
emit_peers_left_lem room [] w = rw append-nil
emit_peers_left_lem room (u ∷ us) w = rw (
  emit_peers_left_lem room us (record w { outbox = w.outbox ++ leave_event room u ∷ [] }),
  append_assoc,
)

-- The gateway's state without the room.
abbrev pub without_room : RoomId → Realtime → Realtime
without_room room rt = record rt {
  rooms = remove_where (λ m. same_room m.room room) rt.rooms;
  socket_to_room = forget_room room (sockets_in room rt) rt.socket_to_room;
}

-- Closing a room always returns. It tells the room first that it closes and then, once for each
-- socket in it whose user is known, that this user left; all memberships of the room go, and with
-- them what this process remembers of the sockets that were in it.
pub force_close_room_lem :
    (room : RoomId) (w : World)
    → force_close_room room w ≡ (
      ok tt,
      record w {
        realtime = without_room room w.realtime;
        outbox =
            (w.outbox ++ emit (Target.room room) room_closed ∷ [])
            ++ map (leave_event room) (users_of w.realtime (sockets_in room w.realtime));
      },
    )
unfolding force_close_room ◌>>=◌
force_close_room_lem room w = rw (
  emit_peers_left_lem room (users_of w.realtime (sockets_in room w.realtime))
      (record w { outbox = w.outbox ++ emit (Target.room room) room_closed ∷ [] }),
  ◌>>=◌,
)
