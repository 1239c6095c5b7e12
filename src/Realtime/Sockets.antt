-- ===== src/Realtime/Sockets.antt =====
-- realtime/draw.gateway.ts: the sockets that Redis knows and that are connected. `keys` is the answer
-- to KEYS, as the sockets that the keys name. A hash that has a user has all fields that
-- `handleConnection` sets, a missing one counts as empty.
use drawback_backend.Prelude.{ℕ, String, Bool, List, [], ◌∷◌, Option, none, some, ◌==◌, any}
use drawback_backend.World.{Exec, return, gets, modify_realtime, choose, if_found, ◌>>=◌, ◌>>◌}
use drawback_backend.World.Realtime.{Realtime, SocketMeta, RoomId, delete}

pub record SocketInfo : Type 0 where
  pub user_id : ℕ
  pub socket_id : ℕ
  pub connected_at : ℕ
  pub current_room : Option RoomId
  pub ip_address : String
  pub user_agent : String

abbrev pub or_zero : Option ℕ → ℕ
or_zero none = 0
or_zero (some n) = n

abbrev pub or_empty : Option String → String
or_empty none = ""
or_empty (some s) = s

abbrev pub info_of : ℕ → ℕ → SocketMeta → SocketInfo
info_of socket user m = record {
  user_id = user;
  socket_id = socket;
  connected_at = or_zero m.connected_at;
  current_room = m.current_room;
  ip_address = or_empty m.ip_address;
  user_agent = or_empty m.user_agent;
}

abbrev pub owner_of : Option SocketMeta → Option (ℕ × SocketMeta)
owner_of none = none
owner_of (some m) = elim m.user_id [ none ↦ none | some u ↦ some (u, m) ]

unfoldable pub drop_meta : ℕ → Realtime → Realtime
drop_meta socket rt = record rt { redis_socket_meta = delete socket rt.redis_socket_meta }

abbrev pub is_connected : ℕ → Realtime → Bool
is_connected socket rt = any (λ s. s == socket) rt.connected

-- The loop over the keys; what Redis has of a socket that is gone is deleted.
unfoldable pub get_active_sockets_metadata : List ℕ → Exec (List SocketInfo)
get_active_sockets_metadata [] = return []
get_active_sockets_metadata (k ∷ ks) = do
  meta ← gets (λ w. owner_of (w.realtime.redis_socket_meta k))
  here ← gets (λ w. is_connected k w.realtime)
  if_found meta (get_active_sockets_metadata ks) λ (u, m).
      choose here (get_active_sockets_metadata ks >>= λ rest. return (info_of k u m ∷ rest))
        (modify_realtime (drop_meta k) >> get_active_sockets_metadata ks)
