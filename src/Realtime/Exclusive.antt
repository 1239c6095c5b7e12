-- ===== src/Realtime/Exclusive.antt =====
-- realtime/draw.gateway.ts: `socketToRoom` against the rooms of Socket.IO.
pub mod Keeps
pub mod Calls
pub mod Histories
use drawback_backend.Prelude.{
  ℕ, Bool, true, false, List, [], ◌∷◌, ◌++◌, Option, none, some, ◌≡◌, refl, ◌∙◌, sym, ap, subst,
  ◌==◌, ==_iff, ==_refl, ◌&&◌, if◌then◌else◌, any, remove_where, All, All-append,
  All-remove_where_mono, All-mono, All-zip, Bool-cases, Option-cases, inl, inr, arith, not,
}
use drawback_backend.World.Realtime.{
  Realtime, RoomId, Map, Membership, same_room, in_room, put, delete, chat_room, group_room,
}
use drawback_backend.Realtime.Rooms.{leave_room, forget_room, sockets_in}
use drawback_backend.Realtime.Connections.{drop_socket}
use drawback_backend.Realtime.Drawing.{join, leave}

-- A row is one that the cache names.
abbrev pub IsCached : Map RoomId → Membership → Type 0
IsCached cache m = cache m.socket ≡ some m.room

-- A socket is in one room at most, and that is the room that the gateway has cached for it.
abbrev pub IsExclusive : Realtime → Type 0
IsExclusive rt = All (IsCached rt.socket_to_room) rt.rooms

same_room_iff : (a b : RoomId) → same_room a b ≡ true → a ≡ b
same_room_iff (RoomId.chat_room a) (RoomId.chat_room b) h = ap chat_room ((==_iff a b).0 h)
same_room_iff (RoomId.group_room a) (RoomId.group_room b) h = ap group_room ((==_iff a b).0 h)
same_room_iff (RoomId.chat_room a) (RoomId.group_room b) h = ground arith
same_room_iff (RoomId.group_room a) (RoomId.chat_room b) h = ground arith

same_room_refl : (a : RoomId) → same_room a a ≡ true
same_room_refl (RoomId.chat_room a) = ==_refl a
same_room_refl (RoomId.group_room a) = ==_refl a

-- Two names for the room of one socket.
one_room : (cache : Map RoomId) (s : ℕ) (q r : RoomId) → cache s ≡ some q → cache s ≡ some r → q ≡ r
one_room cache s q r a b = let same : some q ≡ some r = sym a ∙ b in ground arith

-- A row of another socket, or of no room of this one, is not touched by a write for this one.
module _ (cache : Map RoomId) (m : Membership) (h : IsCached cache m) where
  delete-IsCached : (s : ℕ) → (m.socket == s) ≡ false → IsCached (delete s cache) m
  delete-IsCached s e = rw e h

  put-IsCached : (s : ℕ) (r : RoomId) → (m.socket == s) ≡ false → IsCached (put s r cache) m
  put-IsCached s r e = rw e h

  -- A row that is not that of `r` and `s` is not one of `s` where `r` is cached for `s`.
  is_elsewhere :
      (s : ℕ) (r : RoomId) → cache s ≡ some r → leave_room r s m ≡ false → (m.socket == s) ≡ false
  is_elsewhere s r c e = elim (Bool-cases (m.socket == s)) [
    | inr ne ↦ ne
    | inl eq ↦
        let at : cache s ≡ some m.room =
          subst (λ x. cache x ≡ some m.room) ((==_iff m.socket s).0 eq) h in
        let named : m.room ≡ r = one_room cache s m.room r at c in
        let same : same_room m.room r ≡ true = rw named (same_room_refl r) in ground arith
  ]

-- Forgetting a room keeps what is cached for the rows of other rooms.
forget_room_other :
    (room : RoomId) (ss : List ℕ) (cache : Map RoomId) (m : Membership)
    → same_room m.room room ≡ false
    → IsCached cache m
    → IsCached (forget_room room ss cache) m
unfolding forget_room
forget_room_other room [] cache m e h = h
forget_room_other room (s ∷ ss) cache m e h =
    forget_room_other room ss _ m e (elim (Bool-cases (in_room (cache s) room)) [
      | inr out ↦ rw out h
      | inl inside ↦ rw inside (
          delete-IsCached cache m h s (elim (Bool-cases (m.socket == s)) [
            | inr ne ↦ ne
            | inl eq ↦
                let at : cache s ≡ some m.room =
                  subst (λ x. cache x ≡ some m.room) ((==_iff m.socket s).0 eq) h in
                let known : same_room m.room room ≡ true =
                  subst (λ c. in_room c room ≡ true) at inside in
                ground arith
          ]))
    ])

module _ (rt : Realtime) (h : IsExclusive rt) where
  pub leave-IsExclusive : (s : ℕ) (r : RoomId) → IsExclusive (leave s r rt)
  unfolding leave
  leave-IsExclusive s r = All-remove_where_mono _ rt.rooms (λ m c _. c) h

  pub drop_socket-IsExclusive : (s : ℕ) → IsExclusive (drop_socket s rt)
  unfolding drop_socket
  drop_socket-IsExclusive s = All-remove_where_mono _ rt.rooms (λ m c _. c) h

  -- Leaving the cached room and forgetting it.
  pub leave_current-IsExclusive :
      (s : ℕ) (r : RoomId)
      → rt.socket_to_room s ≡ some r
      → All (IsCached (delete s rt.socket_to_room)) (remove_where (leave_room r s) rt.rooms)
  leave_current-IsExclusive s r c =
      All-remove_where_mono _ rt.rooms
        (λ m k e.
          delete-IsCached rt.socket_to_room m k s (is_elsewhere rt.socket_to_room m k s r c e))
        h

  -- Forgetting a socket that is in no room.
  pub forget-IsExclusive :
      (s : ℕ)
      → All (IsCached (delete s rt.socket_to_room)) (remove_where (λ m. m.socket == s) rt.rooms)
  forget-IsExclusive s =
      All-remove_where_mono _ rt.rooms (λ m k e. delete-IsCached rt.socket_to_room m k s e) h

  pub close-IsExclusive :
      (room : RoomId) (ss : List ℕ)
      → All
          (IsCached (forget_room room ss rt.socket_to_room))
          (remove_where (λ m. same_room m.room room) rt.rooms)
  close-IsExclusive room ss =
      All-remove_where_mono _ rt.rooms (λ m k e. forget_room_other room ss _ m e k) h

  -- One socket leaves a room, which is forgotten for it if it was the cached one.
  remove-IsExclusive_row :
      (room : RoomId) (s : ℕ) (m : Membership)
      → IsCached rt.socket_to_room m
      → leave_room room s m ≡ false
      → IsCached (forget_room room (s ∷ []) rt.socket_to_room) m
  unfolding forget_room
  remove-IsExclusive_row room s m k e = elim (Bool-cases (in_room (rt.socket_to_room s) room)) [
    | inr out ↦ rw out k
    | inl inside ↦ rw inside (
        delete-IsCached rt.socket_to_room m k s (elim (Bool-cases (m.socket == s)) [
          | inr ne ↦ ne
          | inl eq ↦
              let at : rt.socket_to_room s ≡ some m.room =
                subst (λ x. rt.socket_to_room x ≡ some m.room) ((==_iff m.socket s).0 eq) k in
              let known : same_room m.room room ≡ true =
                subst (λ c. in_room c room ≡ true) at inside in
              ground arith
        ]))
  ]

  pub remove-IsExclusive :
      (room : RoomId) (s : ℕ)
      → All
          (IsCached (forget_room room (s ∷ []) rt.socket_to_room))
          (remove_where (leave_room room s) rt.rooms)
  remove-IsExclusive room s =
      All-remove_where_mono _ rt.rooms (λ m k e. remove-IsExclusive_row room s m k e) h

  join_row :
      (s : ℕ) (room : RoomId) (m : Membership)
      → IsCached rt.socket_to_room m
      → ((m.socket == s) ≡ true → m.room ≡ room)
      → IsCached (put s room rt.socket_to_room) m
  join_row s room m k only = elim (Bool-cases (m.socket == s)) [
    | inr ne ↦ rw ne k
    | inl eq ↦ rw (eq, only eq) refl
  ]

  -- The rows of a socket are of the room that is cached for it.
  pub rows_of :
      (s : ℕ) (o : Option RoomId)
      → rt.socket_to_room s ≡ o
      → All (λ m. (m.socket == s) ≡ true → o ≡ some m.room) rt.rooms
  rows_of s o c =
      All-mono rt.rooms
        (λ m k eq.
          sym c ∙ subst (λ x. rt.socket_to_room x ≡ some m.room) ((==_iff m.socket s).0 eq) k)
        h

  -- Joining a room keeps the other rows if the socket is in no other room.
  pub join-IsExclusive :
      (s : ℕ) (room : RoomId)
      → All (λ m. (m.socket == s) ≡ true → m.room ≡ room) rt.rooms
      → IsExclusive (join s room rt)
  unfolding join
  join-IsExclusive s room only =
      let rows =
        All-mono rt.rooms (λ m k. join_row s room m k.0 k.1) (All-zip _ _ rt.rooms h only) in
      let new : put s room rt.socket_to_room s ≡ some room = rw (==_refl s) refl in
      elim (Bool-cases (any (leave_room room s) rt.rooms)) [
        | inl e ↦ rw e rows
        | inr e ↦ rw e (All-append _ rt.rooms _ rows (new, tt))
      ]

-- What `enter` does to the gateway's state: leave the cached room if it is another, and join.
abbrev pub after_previous : ℕ → RoomId → Option RoomId → Realtime → Realtime
after_previous s room none rt = rt
after_previous s room (some q) rt = if same_room q room then rt else leave s q rt

only_room :
    (rt : Realtime) (s : ℕ) (room : RoomId) (o : Option RoomId)
    → IsExclusive rt
    → rt.socket_to_room s ≡ o
    → All (λ m. (m.socket == s) ≡ true → m.room ≡ room) (after_previous s room o rt).rooms
unfolding leave
only_room rt s room none h c =
    All-mono rt.rooms (λ m k eq. let no : none ≡ some m.room = k eq in ground arith)
      (rows_of rt h s none c)
only_room rt s room (some q) h c = elim (Bool-cases (same_room q room)) [
  | inl e ↦ rw e (
      All-mono rt.rooms
        (λ m k eq.
          let at : some q ≡ some m.room = k eq in
          let first : q ≡ m.room = ground arith in sym first ∙ same_room_iff q room e)
        (rows_of rt h s (some q) c))
  | inr e ↦ rw e (
      All-remove_where_mono _ rt.rooms
        (λ m k gone eq.
          let at : some q ≡ some m.room = k eq in
          let first : q ≡ m.room = ground arith in
          let same : same_room m.room q ≡ true = rw first (same_room_refl m.room) in
          absurd (ground arith))
        (rows_of rt h s (some q) c))
]

pub enter-IsExclusive :
    (rt : Realtime) (s : ℕ) (room : RoomId)
    → IsExclusive rt
    → IsExclusive (join s room (after_previous s room (rt.socket_to_room s) rt))
enter-IsExclusive rt s room h =
    let only = only_room rt s room (rt.socket_to_room s) h refl in
    join-IsExclusive _
      (elim (Option-cases (rt.socket_to_room s)) [
        | inl e ↦ rw e h
        | inr (q, e) ↦ rw e (elim (Bool-cases (same_room q room)) [
          | inl same ↦ rw same h
          | inr other ↦ rw other (leave-IsExclusive rt h s q)
        ])
      ])
      s room only
