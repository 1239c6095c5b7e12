-- ===== src/Realtime/Connections/Sessions.antt =====
-- What a connection does to the sockets of its user.
use drawback_backend.Prelude.{
  ℕ, String, true, false, some, ◌≡◌, ◌==◌, ==_refl, any, arith, any-remove_where_self,
}
use drawback_backend.Schema.Entities.{User}
use drawback_backend.World.{World, ◌>>=◌}
use drawback_backend.Users.Queries.{find_by_id}
use drawback_backend.Realtime.Connections.{
  JwtPayload, handle_connection, check_user, admit, register_socket, drop_socket,
}

-- A socket whose token is that of the current session of a user who is not blocked becomes the socket
-- that Redis has for the user, and both Redis and the process have the user for it.
pub handle_connection_admits :
    (now socket : ℕ) (p : JwtPayload) (address agent : String) (w : World) (u : User)
    → find_by_id p.sub w.db ≡ some u
    → u.is_blocked ≡ false
    → (p.session_version == u.session_version) ≡ true
    → let rt = (handle_connection now socket (some p) address agent w).1.realtime in
      (rt.redis_user_socket p.sub ≡ some socket)
      × (rt.socket_to_user socket ≡ some p.sub)
      × (rt.redis_socket_user socket ≡ some p.sub)
unfolding handle_connection admit register_socket check_user ◌>>=◌
handle_connection_admits now socket p address agent w u f b v =
    rw (f, ◌>>=◌)
      (rw (b, v, ◌>>=◌)
        (
          ground (arith, ==_refl p.sub),
          ground (arith, ==_refl socket),
          ground (arith, ==_refl socket),
        ))

-- When such a socket connects and Redis knows another socket of the user, then that one is connected
-- no longer and is in no room.
pub handle_connection_replaces :
    (now socket : ℕ) (p : JwtPayload) (address agent : String) (w : World) (u : User) (old : ℕ)
    → find_by_id p.sub w.db ≡ some u
    → u.is_blocked ≡ false
    → (p.session_version == u.session_version) ≡ true
    → w.realtime.redis_user_socket p.sub ≡ some old
    → (old == socket) ≡ false
    → let rt = (handle_connection now socket (some p) address agent w).1.realtime in
      (any (λ x. x == old) rt.connected ≡ false) × (any (λ m. m.socket == old) rt.rooms ≡ false)
unfolding handle_connection admit register_socket check_user drop_socket ◌>>=◌
handle_connection_replaces now socket p address agent w u old f b v o ne =
    rw (f, ◌>>=◌)
      (rw (b, v, o, ne, ◌>>=◌)
        (any-remove_where_self _ w.realtime.connected, any-remove_where_self _ w.realtime.rooms))
