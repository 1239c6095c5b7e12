-- ===== src/Examples/Sockets.antt =====
-- The theorems on the gateway at concrete sockets.
use drawback_backend.Prelude.{
  ℕ, List, All, ◌<◌, ◌+◌, false, [], ◌∷◌, ◌++◌, some, ◌≡◌, ◌≤◌, ◌*◌, refl, arith, any, find_one,
  ◌==◌, map,
}
use drawback_backend.World.{ok, emit, Target, room_closed}
use drawback_backend.World.Realtime.{RateEntry, chat_room, same_room}
use drawback_backend.Users.Queries.{find_by_id}
use drawback_backend.Realtime.RateLimit.{is_stroke_rate_limited}
use drawback_backend.Realtime.RateLimit.Window.{passed, passed-le-twice}
use drawback_backend.Realtime.RateLimit.Cleanup.{cleaned_up, stroke-cleanup}
use drawback_backend.Realtime.Rooms.{force_close_room, sockets_in, users_of}
use drawback_backend.Realtime.Rooms.Closing.{force_close_room_lem, without_room, leave_event}
use drawback_backend.Realtime.Connections.{handle_connection}
use drawback_backend.Realtime.Connections.Sessions.{
  handle_connection_admits, handle_connection_replaces,
}
use drawback_backend.Realtime.Drawing.{is_user_in_room}
use drawback_backend.Realtime.Drawing.Presence.{force_close_room-keeps_presence}
use drawback_backend.Realtime.Gateway.{GatewayCall, perform_all}
use drawback_backend.Realtime.Exclusive.{IsExclusive}
use drawback_backend.Realtime.Exclusive.Histories.{perform_all-IsExclusive}
use drawback_backend.Examples.{busy_world, gateway, ada, ada_token, tables}

ada_by_token : find_by_id 1 tables ≡ some ada
unfolding find_by_id find_one
ada_by_token = refl

handle_connection_admits_example :
    let rt = (handle_connection 100 13 (some ada_token) "::1" "app" busy_world).1.realtime in
    (rt.redis_user_socket 1 ≡ some 13)
    × (rt.socket_to_user 13 ≡ some 1)
    × (rt.redis_socket_user 13 ≡ some 1)
handle_connection_admits_example =
    handle_connection_admits 100 13 ada_token "::1" "app" busy_world ada ada_by_token refl refl

handle_connection_replaces_example :
    let rt = (handle_connection 100 13 (some ada_token) "::1" "app" busy_world).1.realtime in
    (any (λ x. x == 11) rt.connected ≡ false) × (any (λ m. m.socket == 11) rt.rooms ≡ false)
handle_connection_replaces_example =
    handle_connection_replaces 100 13 ada_token "::1" "app" busy_world ada 11 ada_by_token refl refl
      refl refl

force_close_room_lem_example : force_close_room (chat_room 1) busy_world ≡ (
  ok tt,
  record busy_world {
    realtime = without_room (chat_room 1) gateway;
    outbox =
        ([] ++ emit (Target.room (chat_room 1)) room_closed ∷ [])
        ++ map (leave_event (chat_room 1)) (users_of gateway (sockets_in (chat_room 1) gateway));
  },
)
force_close_room_lem_example = force_close_room_lem (chat_room 1) busy_world

force_close_room-keeps_presence_example :
    let rt = (force_close_room (chat_room 1) busy_world).1.realtime in
    (any (λ m. same_room m.room (chat_room 1)) rt.rooms ≡ false)
    × (is_user_in_room 2 (chat_room 1) rt ≡ is_user_in_room 2 (chat_room 1) gateway)
force_close_room-keeps_presence_example = force_close_room-keeps_presence 2 (chat_room 1) busy_world

abbrev old_entry : RateEntry
old_entry = record { count = 4; window_start = 50 }

in_stretch : (t : ℕ) → 120 ≤ t → t < 120 + 100 → (120 ≤ t) × (t < 120 + 100)
in_stretch t a b = (a, b)

six_times : All (λ t. (120 ≤ t) × (t < 120 + 100)) (120 ∷ 130 ∷ 140 ∷ 150 ∷ 160 ∷ 170 ∷ [])
six_times = (
  in_stretch 120 (omega arith) (omega arith),
  (
    in_stretch 130 (omega arith) (omega arith),
    (
      in_stretch 140 (omega arith) (omega arith),
      (
        in_stretch 150 (omega arith) (omega arith),
        (
          in_stretch 160 (omega arith) (omega arith),
          (in_stretch 170 (omega arith) (omega arith), tt),
        ),
      ),
    ),
  ),
)

passed-le-twice_example : passed 5 100 old_entry (120 ∷ 130 ∷ 140 ∷ 150 ∷ 160 ∷ 170 ∷ []) ≤ 2 * 5
passed-le-twice_example =
    passed-le-twice 5 100 (omega arith) 120 old_entry (120 ∷ 130 ∷ 140 ∷ 150 ∷ 160 ∷ 170 ∷ [])
      six_times

stroke-cleanup_example :
    ((is_stroke_rate_limited 5000 11 (cleaned_up 4000 busy_world)).0
      ≡ (is_stroke_rate_limited 5000 11 busy_world).0)
    × ((is_stroke_rate_limited 5000 11 (cleaned_up 4000 busy_world)).1.realtime.stroke_rate_map 11
        ≡ (is_stroke_rate_limited 5000 11 busy_world).1.realtime.stroke_rate_map 11)
stroke-cleanup_example = stroke-cleanup 4000 5000 11 busy_world (omega arith)

abbrev calls : List GatewayCall
calls =
    GatewayCall.leaves 11
    ∷ GatewayCall.joins_group 11 1
    ∷ GatewayCall.joins_chat 11 1
    ∷ GatewayCall.disconnects 12
    ∷ []

perform_all-IsExclusive_example : IsExclusive (perform_all calls busy_world).realtime
perform_all-IsExclusive_example = perform_all-IsExclusive calls busy_world (refl, (refl, tt))
