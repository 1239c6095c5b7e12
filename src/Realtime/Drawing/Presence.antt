-- ===== src/Realtime/Drawing/Presence.antt =====
-- The room that Redis names for a user, and what it decides.
use drawback_backend.Prelude.{ℕ, false, ◌≡◌, refl, any, any-remove_where_self}
use drawback_backend.World.{World}
use drawback_backend.World.Realtime.{RoomId, same_room}
use drawback_backend.Realtime.Rooms.{force_close_room}
use drawback_backend.Realtime.Rooms.Closing.{force_close_room_lem}
use drawback_backend.Realtime.Drawing.{is_user_in_room}

-- Closing a room leaves no socket in it, but does not change what `isUserInRoom` answers, for any
-- user: whom Redis named as present before is still named after.
pub force_close_room-keeps_presence :
    (user : ℕ) (room : RoomId) (w : World)
    → let rt = (force_close_room room w).1.realtime in
      (any (λ m. same_room m.room room) rt.rooms ≡ false)
      × (is_user_in_room user room rt ≡ is_user_in_room user room w.realtime)
unfolding is_user_in_room
force_close_room-keeps_presence user room w =
    rw (force_close_room_lem room w) (any-remove_where_self _ w.realtime.rooms, refl)
