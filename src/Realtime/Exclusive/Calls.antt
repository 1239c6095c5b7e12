-- ===== src/Realtime/Exclusive/Calls.antt =====
-- Every handler of the gateway, and what the services ask of it, keeps the cached rooms exclusive.
use drawback_backend.Prelude.{
  ℕ, String, List, [], ◌∷◌, Option, none, some, Bool-cases, Option-cases, inl, inr, ◌==◌,
}
use drawback_backend.World.Realtime.{Realtime, RoomId, same_room}
use drawback_backend.World.{
  World, Exec, Result, ok, err, Exception, Event, emit, Target, left, ◌>>=◌, ◌>>◌, modify_realtime,
  send,
}
use drawback_backend.Realtime.Rooms.{
  emit_to_user, force_close_room, notify_group_deleted, force_remove_user_from_room, remove_socket,
}
use drawback_backend.Realtime.Rooms.Closing.{force_close_room_lem}
use drawback_backend.Realtime.RateLimit.{is_clear_rate_limited, is_stroke_rate_limited}
use drawback_backend.Realtime.Connections.{
  JwtPayload, handle_connection, handle_disconnect, refuse_connection, check_user, admit,
  replace_socket, register_socket, drop_socket, leave_on_disconnect, forget_socket,
}
use drawback_backend.Realtime.Drawing.{
  emit_error, recover, log_left, guarded, get_authenticated_user_id, leave, join, set_current_room,
  leave_previous, enter, join_group_room, join_group, notify_waiting_peer, wait_for_peer,
  join_chat_room, join_chat, leave_current, leave_chat, forward, draw_stroke, send_emote,
  clear_canvas,
}
use drawback_backend.Chat.Requests.{
  get_accepted_room_for_user, accepted_room, refuse_if_blocked, get_peer_user_id,
}
use drawback_backend.Chat.Groups.{get_group_room_for_member}
use drawback_backend.Realtime.Exclusive.{
  IsExclusive, enter-IsExclusive, after_previous, drop_socket-IsExclusive,
  leave_current-IsExclusive, forget-IsExclusive, close-IsExclusive, remove-IsExclusive,
}
use drawback_backend.Realtime.Exclusive.Keeps.{
  Keeps, keeps, modify_realtime-Keeps, bind-Keeps, send-Keeps, return-Keeps,
}

emit_to_user-Keeps : (user : ℕ) (e : Event) → Keeps (emit_to_user user e)
unfolding emit_to_user
emit_to_user-Keeps user e = search keeps

emit_error-Keeps : (s : ℕ) (e : Exception) → Keeps (emit_error s e)
unfolding emit_error
emit_error-Keeps s e = search keeps

get_accepted_room_for_user-Keeps : (r u : ℕ) → Keeps (get_accepted_room_for_user r u)
unfolding get_accepted_room_for_user accepted_room refuse_if_blocked
get_accepted_room_for_user-Keeps r u = search keeps depth 14

get_group_room_for_member-Keeps : (g u : ℕ) → Keeps (get_group_room_for_member g u)
unfolding get_group_room_for_member
get_group_room_for_member-Keeps g u = search keeps depth 12

get_peer_user_id-Keeps : (r u : ℕ) → Keeps (get_peer_user_id r u)
unfolding get_peer_user_id
get_peer_user_id-Keeps r u = search keeps

get_authenticated_user_id-Keeps : (s : ℕ) → Keeps (get_authenticated_user_id s)
unfolding get_authenticated_user_id
get_authenticated_user_id-Keeps s = search keeps

recover-Keeps : (s : ℕ) (r : Result (Unit {0})) → Keeps (recover s r)
recover-Keeps s (ok x) = return-Keeps x
recover-Keeps s (err e) = emit_error-Keeps s e

guarded-Keeps : (s : ℕ) (m : Exec (Unit {0})) → Keeps m → Keeps (guarded s m)
unfolding guarded
guarded-Keeps s m h = record { at = λ w k. (recover-Keeps s (m w).0).at (m w).1 (h.at w k) }

enter_rest :
    (s u : ℕ) (room : RoomId) (o : Option RoomId) (w : World)
    → IsExclusive (join s room (after_previous s room o w.realtime))
    → IsExclusive
        ((leave_previous s u room o
            >> (modify_realtime (join s room) >> modify_realtime (set_current_room s (some room))))
          w).1.realtime
unfolding leave_previous set_current_room ◌>>=◌
enter_rest s u room none w = λ h. h
enter_rest s u room (some q) w = elim (Bool-cases (same_room q room)) [
  | inl e ↦ rw e (λ h. h)
  | inr e ↦ rw (e, ◌>>=◌) (λ h. h)
]

enter-Keeps : (s u : ℕ) (room : RoomId) → Keeps (enter s u room)
unfolding enter ◌>>=◌
enter-Keeps s u room = record {
  at = λ w h.
      enter_rest s u room (w.realtime.socket_to_room s) w (enter-IsExclusive w.realtime s room h);
}

pub join_group-Keeps : (s g : ℕ) → Keeps (join_group s g)
unfolding join_group join_group_room
join_group-Keeps s g = guarded-Keeps s _ (
    search (keeps, enter-Keeps, get_authenticated_user_id-Keeps, get_group_room_for_member-Keeps)
      depth 14)

notify_waiting_peer-Keeps :
    (r u : ℕ) (room : RoomId) (p : ℕ) → Keeps (notify_waiting_peer r u room p)
unfolding notify_waiting_peer
notify_waiting_peer-Keeps r u room p = search (keeps, emit_to_user-Keeps) depth 14

wait_for_peer-Keeps : (r u : ℕ) (room : RoomId) (ps : List ℕ) → Keeps (wait_for_peer r u room ps)
unfolding wait_for_peer
wait_for_peer-Keeps r u room [] =
    search (keeps, notify_waiting_peer-Keeps, get_peer_user_id-Keeps) depth 14
wait_for_peer-Keeps r u room (p ∷ ps) = search keeps

pub join_chat-Keeps : (s r : ℕ) → Keeps (join_chat s r)
unfolding join_chat join_chat_room
join_chat-Keeps s r = guarded-Keeps s _ (
    search
      (
        keeps, enter-Keeps, get_authenticated_user_id-Keeps, get_accepted_room_for_user-Keeps,
        emit_error-Keeps, wait_for_peer-Keeps,
      )
      depth 16)

forward-Keeps : (s : ℕ) (event : Option ℕ → Event) → Keeps (forward s event)
unfolding forward
forward-Keeps s event = search (keeps, emit_error-Keeps) depth 12

is_stroke_rate_limited-Keeps : (now s : ℕ) → Keeps (is_stroke_rate_limited now s)
unfolding is_stroke_rate_limited ◌>>=◌
is_stroke_rate_limited-Keeps now s = record { at = λ w h. h }

is_clear_rate_limited-Keeps : (now s : ℕ) → Keeps (is_clear_rate_limited now s)
unfolding is_clear_rate_limited ◌>>=◌
is_clear_rate_limited-Keeps now s = record { at = λ w h. h }

pub draw_stroke-Keeps : (now s : ℕ) (d : String) → Keeps (draw_stroke now s d)
unfolding draw_stroke
draw_stroke-Keeps now s d = search (keeps, forward-Keeps, is_stroke_rate_limited-Keeps) depth 12

pub send_emote-Keeps : (s : ℕ) (d : String) → Keeps (send_emote s d)
unfolding send_emote
send_emote-Keeps s d = forward-Keeps s _

pub clear_canvas-Keeps : (now s : ℕ) → Keeps (clear_canvas now s)
unfolding clear_canvas
clear_canvas-Keeps now s =
    search (keeps, forward-Keeps, is_clear_rate_limited-Keeps, emit_error-Keeps) depth 12

log_left-Keeps : (u : Option ℕ) → Keeps (log_left u)
log_left-Keeps none = search keeps
log_left-Keeps (some u) = search keeps

leave_end-Keeps : (u : Option ℕ) (s : ℕ) → Keeps (log_left u >> send (emit (Target.socket s) left))
leave_end-Keeps u s = search (keeps, log_left-Keeps)

pub leave_chat-Keeps : (s : ℕ) → Keeps (leave_chat s)
unfolding leave_chat leave_current leave set_current_room ◌>>=◌
leave_chat-Keeps s = record {
  at = λ w h. elim (Option-cases (w.realtime.socket_to_room s)) [
    | inl e ↦ rw (e, ◌>>=◌) h
    | inr (q, e) ↦
        let gone = leave_current-IsExclusive w.realtime h s q e in
        rw (e, ◌>>=◌) ((leave_end-Keeps (w.realtime.socket_to_user s) s).at _ gone)
  ];
}

pub force_close_room-Keeps : (room : RoomId) → Keeps (force_close_room room)
force_close_room-Keeps room = record {
  at = λ w h. rw (force_close_room_lem room w) (close-IsExclusive w.realtime h room _);
}

pub force_remove-Keeps : (u : ℕ) (room : RoomId) → Keeps (force_remove_user_from_room u room)
unfolding force_remove_user_from_room remove_socket ◌>>=◌
force_remove-Keeps u room = record {
  at = λ w h. elim (Option-cases (w.realtime.redis_user_socket u)) [
    | inl e ↦ rw (e, ◌>>=◌) h
    | inr (s, e) ↦ rw (e, ◌>>=◌) (remove-IsExclusive w.realtime h room s)
  ];
}

pub notify_group_deleted-Keeps : (g : ℕ) (room : RoomId) → Keeps (notify_group_deleted g room)
unfolding notify_group_deleted
notify_group_deleted-Keeps g room = search (keeps, force_close_room-Keeps)

refuse_connection-Keeps : (s : ℕ) (text : String) → Keeps (refuse_connection s text)
unfolding refuse_connection
refuse_connection-Keeps s text =
    bind-Keeps _ _ (send-Keeps _)
      λ _. modify_realtime-Keeps _ (λ rt h. drop_socket-IsExclusive rt h s)

replace_socket-IsExclusive :
    (o : Option ℕ) (s : ℕ) (rt : Realtime) → IsExclusive rt → IsExclusive (replace_socket o s rt)
replace_socket-IsExclusive none s rt h = h
replace_socket-IsExclusive (some p) s rt h = elim (Bool-cases (p == s)) [
  | inl e ↦ rw e h
  | inr e ↦ rw e (drop_socket-IsExclusive rt h p)
]

admit-Keeps : (now s u : ℕ) (address agent : String) → Keeps (admit now s u address agent)
unfolding admit register_socket ◌>>=◌
admit-Keeps now s u address agent = record {
  at = λ w h. replace_socket-IsExclusive (w.realtime.redis_user_socket u) s w.realtime h;
}

pub handle_connection-Keeps :
    (now s : ℕ) (p : Option JwtPayload) (address agent : String)
    → Keeps (handle_connection now s p address agent)
unfolding handle_connection check_user
handle_connection-Keeps now s p address agent =
    search (keeps, refuse_connection-Keeps, admit-Keeps) depth 14

-- `forget_socket` does not read or write the rooms and their cache.
pub disconnect-Keeps : (s : ℕ) → Keeps (modify_realtime (drop_socket s) >> handle_disconnect s)
unfolding handle_disconnect leave_on_disconnect forget_socket drop_socket ◌>>=◌
disconnect-Keeps s = record {
  at = λ w h. elim (Option-cases (w.realtime.socket_to_user s)) [
    | inl e ↦ rw (e, ◌>>=◌) (drop_socket-IsExclusive w.realtime h s)
    | inr (u, e) ↦ elim (Option-cases (w.realtime.socket_to_room s)) [
      | inl n ↦ rw (e, n, ◌>>=◌) (drop_socket-IsExclusive w.realtime h s)
      | inr (q, n) ↦ rw (e, n, ◌>>=◌) (forget-IsExclusive w.realtime h s)
    ]
  ];
}
