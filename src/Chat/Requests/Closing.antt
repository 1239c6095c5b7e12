-- ===== src/Chat/Requests/Closing.antt =====
-- The loops that close the rooms of requests.
use drawback_backend.Prelude.{
  ℕ, Bool, true, false, List, [], ◌∷◌, ◌≡◌, inl, inr, ◌==◌, ==_iff, any, select, remove_where,
  subst, arith, ◌&&◌, Bool-cases, any-remove_where_self, any-remove_where_other,
}
use drawback_backend.Schema.Entities.{ChatRequest}
use drawback_backend.World.{World, ok, ◌>>=◌}
use drawback_backend.World.Realtime.{chat_room, same_room}
use drawback_backend.World.Quiet.{IsQuiet, return-IsQuiet, bind-IsQuiet}
use drawback_backend.Realtime.Rooms.Quiet.{force_close_room-IsQuiet}
use drawback_backend.Realtime.Rooms.Closing.{force_close_room_lem}
use drawback_backend.Chat.Requests.{close_rooms, close_rooms_between_users, accepted_between}

-- Whether a socket is in the room of the request.
abbrev pub is_open : ℕ → World → Bool
is_open id w = any (λ m. same_room m.room (chat_room id)) w.realtime.rooms

pub close_rooms-IsQuiet : (chats : List ChatRequest) → IsQuiet (close_rooms chats)
unfolding close_rooms
close_rooms-IsQuiet [] = return-IsQuiet tt
close_rooms-IsQuiet (c ∷ cs) =
    bind-IsQuiet _ _ (force_close_room-IsQuiet (chat_room c.id)) (λ _. close_rooms-IsQuiet cs)

close_rooms_keeps_closed :
    (id : ℕ) (chats : List ChatRequest) (w : World)
    → is_open id w ≡ false
    → is_open id (close_rooms chats w).1 ≡ false
unfolding close_rooms ◌>>=◌
close_rooms_keeps_closed id [] w h = h
close_rooms_keeps_closed id (c ∷ cs) w h =
    rw (force_close_room_lem (chat_room c.id) w)
      (close_rooms_keeps_closed id cs _ (any-remove_where_other _ _ w.realtime.rooms h))

pub close_rooms_closes :
    (id : ℕ) (chats : List ChatRequest) (w : World)
    → any (λ c. c.id == id) chats ≡ true
    → is_open id (close_rooms chats w).1 ≡ false
unfolding close_rooms ◌>>=◌ any
close_rooms_closes id [] w h = ground arith
close_rooms_closes id (c ∷ cs) w h =
    rw (force_close_room_lem (chat_room c.id) w) (elim (Bool-cases (c.id == id)) [
      | inl e ↦ close_rooms_keeps_closed id cs _ (
          subst
            (λ k.
              any (λ m. same_room m.room (chat_room k))
                (remove_where (λ m. same_room m.room (chat_room c.id)) w.realtime.rooms)
              ≡ false)
            ((==_iff c.id id).0 e) (any-remove_where_self _ w.realtime.rooms))
      | inr e ↦ close_rooms_closes id cs _ (ground arith)
    ])

select_has :
    (p : ChatRequest → Bool) (rs : List ChatRequest) (id : ℕ)
    → any (λ r. p r && r.id == id) rs ≡ true
    → any (λ r. r.id == id) (select p rs) ≡ true
unfolding any select
select_has p [] id h = h
select_has p (r ∷ rs) id h = ground (arith, select_has p rs id)

-- Blocking closes the rooms of all accepted requests between the two users, and the database stays.
pub record ClosesBetween (a b : ℕ) (w w' : World) : Type 0 where
  pub same_db : w'.db ≡ w.db
  pub closed :
      (id : ℕ)
      → any (λ r. accepted_between a b r && r.id == id) w.db.chat_requests ≡ true
      → is_open id w' ≡ false

pub close_rooms_between_users_lem :
    (a b : ℕ) (w : World)
    → (w' : World) × (close_rooms_between_users a b w ≡ (ok tt, w')) × ClosesBetween a b w w'
unfolding close_rooms_between_users ◌>>=◌
close_rooms_between_users_lem a b w =
    let chats = select (accepted_between a b) w.db.chat_requests in
    let q = close_rooms-IsQuiet chats in
    (
      q.world w,
      q.runs w,
      record {
        same_db = q.same_db w;
        closed = λ id h.
            subst (λ x. is_open id x.1 ≡ false) (q.runs w)
              (close_rooms_closes id chats w (select_has (accepted_between a b) _ id h));
      },
    )
