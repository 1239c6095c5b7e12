-- ===== src/Realtime/Connections.antt =====
-- realtime/draw.gateway.ts: `handleConnection`, `handleDisconnect` and what they call. The token is
-- verified by the JWT service, which is a parameter; Socket.IO drops a socket by taking it out of
-- the connected ones and out of all rooms.
pub mod Sessions
use Prim.Native.Char.{code}
use drawback_backend.Prelude.{
  ℕ, String, Bool, true, false, List, [], ◌∷◌, ◌++◌, Option, none, some, ◌==◌, ◌&&◌, not, str_eq,
  if◌then◌else◌, remove_where, holds,
}
use drawback_backend.Schema.Enums.{SessionEventType}
use drawback_backend.Schema.Enums.{UserRole}
use drawback_backend.Schema.Entities.{User}
use drawback_backend.World.{
  Exec, return, gets, modify_realtime, send, if_found, ◌>>=◌, ◌>>◌, emit, Target, error_message,
  peer_left, session_event,
}
use drawback_backend.World.Realtime.{Realtime, SocketMeta, Map, put, delete}
use drawback_backend.Users.Queries.{find_by_id}

-- interfaces/jwt-payload.interface.ts
pub record JwtPayload : Type 0 where
  pub sub : ℕ
  pub email : String
  pub display_name : String
  pub role : UserRole
  pub session_version : ℕ

abbrev pub is_empty : String → Bool
is_empty s = str_eq s ""

-- The first of `auth.token`, the header and the query that is set; an empty one counts as none.
unfoldable pub pick_token : Option String → Option String → Option String → Option String
pick_token (some t) header query = if is_empty t then none else some t
pick_token none (some t) query = if is_empty t then none else some t
pick_token none none (some t) = if is_empty t then none else some t
pick_token none none none = none

-- `verify` gives the payload of a token with a good signature that has not expired.
unfoldable pub extract_jwt_payload_from_token :
    (String → Option JwtPayload) → Option String → Option String → Option String → Option JwtPayload
unfolding pick_token
extract_jwt_payload_from_token verify auth header query = elim (pick_token auth header query) [
  | none ↦ none
  | some t ↦ verify t
]

-- The text without the prefix, if it has it.
unfoldable pub drop_prefix : String → String → Option String
drop_prefix String.[] s = some s
drop_prefix (String.◌∷◌ c p) String.[] = none
drop_prefix (String.◌∷◌ c p) (String.◌∷◌ d s) =
    let rest = drop_prefix p s in if code c == code d then rest else none

unfoldable pub strip_ipv6_prefix : String → String
unfolding drop_prefix
strip_ipv6_prefix s = elim (drop_prefix "::ffff:" s) [ none ↦ s | some r ↦ r ]

unfoldable pub drop_socket : ℕ → Realtime → Realtime
drop_socket s rt = record rt {
  connected = remove_where (λ x. x == s) rt.connected;
  rooms = remove_where (λ m. m.socket == s) rt.rooms;
}

unfoldable pub refuse_connection : ℕ → String → Exec (Unit {0})
refuse_connection socket message = do
  send (emit (Target.socket socket) (error_message message))
  modify_realtime (drop_socket socket)

abbrev is_other : ℕ → Option ℕ → Bool
is_other s none = false
is_other s (some p) = not (p == s)

-- The previous socket of the user is disconnected, on whatever worker.
abbrev pub replace_socket : Option ℕ → ℕ → Realtime → Realtime
replace_socket none s rt = rt
replace_socket (some p) s rt = if p == s then rt else drop_socket p rt

unfoldable pub register_socket : ℕ → ℕ → ℕ → String → String → Realtime → Realtime
register_socket now socket user address user_agent rt = record rt {
  socket_to_user = put socket user rt.socket_to_user;
  redis_user_socket = put user socket rt.redis_user_socket;
  redis_socket_user = put socket user rt.redis_socket_user;
  redis_socket_meta =
      put socket
        (record {
          user_id = some user;
          connected_at = some now;
          ip_address = some address;
          user_agent = some user_agent;
          current_room = none;
        })
        rt.redis_socket_meta;
}

unfoldable pub admit : ℕ → ℕ → ℕ → String → String → Exec (Unit {0})
unfolding register_socket
admit now socket user address user_agent = do
  previous ← gets (λ w. w.realtime.redis_user_socket user)
  modify_realtime (replace_socket previous socket)
  modify_realtime (register_socket now socket user (strip_ipv6_prefix address) user_agent)
  send (session_event user SessionEventType.connect)

unfoldable pub check_user : ℕ → ℕ → JwtPayload → String → String → User → Exec (Unit {0})
unfolding refuse_connection
check_user now socket payload address user_agent user =
    if user.is_blocked
    then refuse_connection socket "Account has been blocked"
    else if not (payload.session_version == user.session_version)
    then refuse_connection socket "Session expired. Please log in again."
    else admit now socket payload.sub address user_agent

unfoldable pub handle_connection : ℕ → ℕ → Option JwtPayload → String → String → Exec (Unit {0})
unfolding refuse_connection check_user
handle_connection now socket payload address user_agent =
    if_found payload (refuse_connection socket "Unauthorized") λ p. do
      user ← gets (λ w. find_by_id p.sub w.db)
      if_found user (refuse_connection socket "User not found")
          (check_user now socket p address user_agent)

-- The other sockets of the room, if there is one, hear that the user left.
unfoldable pub leave_on_disconnect : ℕ → ℕ → Exec (Unit {0})
leave_on_disconnect socket user = do
  room ← gets (λ w. w.realtime.socket_to_room socket)
  if_found room (return tt) λ r. do
    send (emit (Target.others r socket) (peer_left (some user)))
    modify_realtime (λ rt. record rt { socket_to_room = delete socket rt.socket_to_room })

unfoldable pub forget_socket : ℕ → ℕ → Realtime → Realtime
forget_socket socket user rt = record rt {
  socket_to_user = delete socket rt.socket_to_user;
  clear_rate_map = delete socket rt.clear_rate_map;
  stroke_rate_map = delete socket rt.stroke_rate_map;
  redis_user_socket =
      if holds (rt.redis_user_socket user) socket
      then delete user rt.redis_user_socket
      else rt.redis_user_socket;
  redis_socket_user = delete socket rt.redis_socket_user;
  redis_socket_meta = delete socket rt.redis_socket_meta;
}

unfoldable pub handle_disconnect : ℕ → Exec (Unit {0})
unfolding leave_on_disconnect forget_socket
handle_disconnect socket = do
  user ← gets (λ w. w.realtime.socket_to_user socket)
  if_found user (return tt) λ u. do
    leave_on_disconnect socket u
    modify_realtime (forget_socket socket u)
    send (session_event u SessionEventType.disconnect)
