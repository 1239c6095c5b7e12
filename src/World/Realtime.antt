-- ===== src/World/Realtime.antt =====
-- realtime/draw.gateway.ts: the gateway's state in one process, the keys that it keeps in Redis, and
-- the rooms of Socket.IO. A Map or a Redis hash is a function of the key.
use drawback_backend.Prelude.{ℕ, String, Bool, false, List, Option, none, some, ◌==◌, if◌then◌else◌}

-- The names of rooms: `chat:<request id>` and `group:<group id>`.
pub data RoomId : Type 0 where
  chat_room : ℕ → RoomId
  group_room : ℕ → RoomId

abbrev pub same_room : RoomId → RoomId → Bool
same_room (RoomId.chat_room a) (RoomId.chat_room b) = a == b
same_room (RoomId.group_room a) (RoomId.group_room b) = a == b
same_room _ _ = false

abbrev pub in_room : Option RoomId → RoomId → Bool
in_room none r = false
in_room (some q) r = same_room q r

abbrev pub Map {ℓ} : Type ℓ → Type ℓ
Map V = ℕ → Option V

abbrev pub put {ℓ} : {V : Type ℓ} → ℕ → V → Map V → Map V
put k v m = λ j. if j == k then some v else m j

abbrev pub delete {ℓ} : {V : Type ℓ} → ℕ → Map V → Map V
delete k m = λ j. if j == k then none else m j

-- An entry of `clearRateMap` or `strokeRateMap`.
pub record RateEntry : Type 0 where
  pub count : ℕ
  pub window_start : ℕ

-- The hash `drawback:socket-meta:<socket>`, with `none` for a field that is not set; `currentRoom` is
-- also `none` where it is `''`.
pub record SocketMeta : Type 0 where
  pub user_id : Option ℕ
  pub connected_at : Option ℕ
  pub ip_address : Option String
  pub user_agent : Option String
  pub current_room : Option RoomId

pub record Membership : Type 0 where
  pub room : RoomId
  pub socket : ℕ

pub record Realtime : Type 0 where
  pub socket_to_user : Map ℕ
  pub socket_to_room : Map RoomId
  pub clear_rate_map : Map RateEntry
  pub stroke_rate_map : Map RateEntry
  pub redis_user_socket : Map ℕ
  pub redis_socket_user : Map ℕ
  pub redis_socket_meta : Map SocketMeta
  pub connected : List ℕ
  pub rooms : List Membership
