-- ===== src/Chat/Requests/Access.antt =====
-- Who may enter the room of a chat request.
use drawback_backend.Prelude.{
  ℕ, true, false, none, some, ◌≡◌, refl, subst, Bool-cases, inl, inr, true_of_not, Option,
}
use drawback_backend.Schema.Enums.{is_accepted}
use drawback_backend.Schema.Entities.{ChatRequest}
use drawback_backend.Users.Queries.{is_blocked}
use drawback_backend.World.{World, Exec, Result, ok, err, forbidden, ◌>>=◌, ◌>>◌}
use drawback_backend.Schema.{delete_chat_request}
use drawback_backend.World.Realtime.{RoomId, chat_room}
use drawback_backend.World.Rules.{
  Ensures, Ensures-throw_if, Ensures-return, Ensures-gets, Ensures-if_found,
}
use drawback_backend.Chat.Requests.{
  find_request, is_participant, get_accepted_room_for_user, refuse_if_blocked, accepted_room,
}

-- The request is there and accepted, the user is one of its two, and neither blocks the other.
pub record MayEnter (w : World) (request user : ℕ) (r : ChatRequest) : Type 0 where
  pub found : find_request request w.db ≡ some r
  pub participant : is_participant user r ≡ true
  pub accepted : is_accepted r.status ≡ true
  pub unblocked : is_blocked r.from_user_id r.to_user_id w.db ≡ false

abbrev Granted : World → ℕ → ℕ → Result (Option RoomId) → World → Type 0
Granted w request user (ok (some room)) w' =
    (r : ChatRequest) × MayEnter w request user r × (room ≡ chat_room r.id) × (w' ≡ w)
Granted w request user (ok none) w' = Unit
Granted w request user (err e) w' = Unit

pub Ensures-refuse_if_blocked :
    {A : Type 0} {Q : Result A → World → Type 0} (r : ChatRequest) (m : Exec A) (w : World)
    → (is_blocked r.from_user_id r.to_user_id w.db ≡ true
        → Q
            (err (forbidden "Can not find user."))
            (record w { db = delete_chat_request r.id w.db }))
    → (is_blocked r.from_user_id r.to_user_id w.db ≡ false → Ensures Q m w)
    → Ensures Q (refuse_if_blocked r >> m) w
unfolding refuse_if_blocked ◌>>=◌
Ensures-refuse_if_blocked {Q} r m w ht hf =
    elim (Bool-cases (is_blocked r.from_user_id r.to_user_id w.db)) [
      | inl e ↦ record { at = rw e (ht e) }
      | inr e ↦ record { at = rw e ((hf e).at) }
    ]

accepted_room-Granted :
    (w : World) (request user : ℕ) (r : ChatRequest)
    → find_request request w.db ≡ some r
    → Ensures (Granted w request user) (accepted_room r user) w
unfolding accepted_room
accepted_room-Granted w request user r e =
    Ensures-throw_if _ _ _ (λ _. tt)
      λ part.
        Ensures-throw_if _ _ _ (λ _. tt)
          λ acc.
            Ensures-refuse_if_blocked r _ w (λ _. tt)
              λ free.
                let may : MayEnter w request user r = record {
                  found = e;
                  participant = true_of_not _ part;
                  accepted = true_of_not _ acc;
                  unblocked = free;
                } in
                Ensures-return _ (r, may, refl, refl)

get_accepted_room_for_user-Granted :
    (w : World) (request user : ℕ)
    → Ensures (Granted w request user) (get_accepted_room_for_user request user) w
unfolding get_accepted_room_for_user
get_accepted_room_for_user-Granted w request user = Ensures-gets _ _ (
    Ensures-if_found _ _ _ (λ _. Ensures-return _ tt)
      λ r e. accepted_room-Granted w request user r e)

-- If the handler returns a room, then the request exists and is accepted, the user is one of its
-- two users, neither of these blocks the other, the room is that of the request, and nothing in
-- the world has changed.
pub get_accepted_room_for_user_sound :
    (w : World) (request user : ℕ) (room : RoomId)
    → (get_accepted_room_for_user request user w).0 ≡ ok (some room)
    → (r : ChatRequest) × MayEnter w request user r
      × (room ≡ chat_room r.id)
      × ((get_accepted_room_for_user request user w).1 ≡ w)
get_accepted_room_for_user_sound w request user room h =
    subst (λ x. Granted w request user x (get_accepted_room_for_user request user w).1) h
      (get_accepted_room_for_user-Granted w request user).at

-- Conversely whoever meets these conditions is given the room.
pub get_accepted_room_for_user_complete :
    (w : World) (request user : ℕ) (r : ChatRequest)
    → MayEnter w request user r
    → get_accepted_room_for_user request user w ≡ (ok (some (chat_room r.id)), w)
unfolding get_accepted_room_for_user accepted_room refuse_if_blocked ◌>>=◌
get_accepted_room_for_user_complete w request user r m =
    rw (m.found, ◌>>=◌) (rw (m.participant, m.accepted, m.unblocked, ◌>>=◌))
