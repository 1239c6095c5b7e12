-- ===== src/Users/Blocks/Refusal.antt =====
-- What a block between two users does: it counts both ways, closes their rooms, keeps them from
-- entering these again and from asking one another.
use drawback_backend.Prelude.{
  String, Bool-cases, sym, ◌∙◌, ℕ, true, false, List, [], ◌∷◌, ◌++◌, none, some, ◌≡◌, ◌≢◌, refl,
  ◌==◌, ◌&&◌, ltb, any, count, find_one, subst, ap, arith, count-append, count_of_any, count_congr,
  any_of_find_one, find_one-holds, remove_where, ◌⊎◌, inl, inr,
}
use drawback_backend.Schema.{Database}
use drawback_backend.Schema.Entities.{User, UserBlock, ChatRequest}
use drawback_backend.World.{World, Result, ok, err, ◌>>=◌}
use drawback_backend.World.Realtime.{RoomId}
use drawback_backend.World.Rules.{
  Ensures, Ensures-throw_if, Ensures-return, Ensures-gets, Ensures-if_found, Ensures-or_throw,
  Ensures-modify_db, Ensures-runs,
}
use drawback_backend.Users.Queries.{is_blocked, between, find_by_id, find_by_display_name}
use drawback_backend.Users.Blocks.{
  block_user, add_block, blocks_of, new_block, insert_block, delete_blocks,
}
use drawback_backend.Chat.Requests.{
  create_request, request_from_to, find_request, get_accepted_room_for_user, accepted_between,
}
use drawback_backend.Chat.Requests.Access.{get_accepted_room_for_user_sound}
use drawback_backend.Chat.Requests.Closing.{is_open, close_rooms_between_users_lem}

-- A block counts in both directions.
pub is_blocked_comm : (a b : ℕ) (db : Database) → is_blocked a b db ≡ is_blocked b a db
unfolding is_blocked
is_blocked_comm a b db =
    ap (ltb 0) (count_congr (between a b) (between b a) db.user_blocks (λ x. ground arith))

is_blocked-insert_block :
    (id now a b : ℕ) (db : Database)
    → is_blocked a b (insert_block (new_block id now a b) db) ≡ true
unfolding is_blocked insert_block count
is_blocked-insert_block id now a b db =
    ground (arith, count-append (between a b) db.user_blocks (new_block id now a b ∷ []))

is_blocked_of_find :
    (a b : ℕ) (db : Database) (x : UserBlock)
    → find_one (blocks_of a b) db.user_blocks ≡ some x
    → is_blocked a b db ≡ true
unfolding is_blocked
is_blocked_of_find a b db x f = ground (
  arith,
  count_of_any (between a b) db.user_blocks (
      any_of_find_one _ (between a b) db.user_blocks x f
        (ground (arith, find_one-holds (blocks_of a b) db.user_blocks x f))),
)

-- The two block one another, and if the block is new then no socket is left in the room of an
-- accepted request between them.
record Separated (a b : ℕ) (w w' : World) : Type 0 where
  blocked : is_blocked a b w'.db ≡ true
  closed :
      find_one (blocks_of a b) w.db.user_blocks ≡ none
      → (id : ℕ) → any (λ r. accepted_between a b r && r.id == id) w.db.chat_requests ≡ true
      → is_open id w' ≡ false

abbrev Blocks : ℕ → ℕ → World → Result (Unit {0}) → World → Type 0
Blocks a b w (ok _) w' = Separated a b w w'
Blocks a b w (err e) w' = w' ≡ w

add_block-Blocks : (id now a b : ℕ) (w : World) → Ensures (Blocks a b w) (add_block id now a b) w
unfolding add_block insert_block
add_block-Blocks id now a b w =
    let blocked' = is_blocked-insert_block id now a b w.db in
    let (w', runs, closes) =
      close_rooms_between_users_lem a b
        (record w { db = insert_block (new_block id now a b) w.db }) in
    Ensures-modify_db _ _ (
      Ensures-runs runs
        (record { blocked = rw closes.same_db blocked'; closed = λ _ k h. closes.closed k h }))

block_user-Blocks : (id now a b : ℕ) (w : World) → Ensures (Blocks a b w) (block_user id now a b) w
unfolding block_user
block_user-Blocks id now a b w =
    Ensures-throw_if _ _ _ (λ _. refl)
      λ ne. Ensures-gets _ _ (
        Ensures-or_throw _ _ _ (λ _. refl)
          λ u _. Ensures-gets _ _ (
            Ensures-if_found _ _ _ (λ new. add_block-Blocks id now a b w)
              λ x e.
                Ensures-return _
                  (record { blocked = is_blocked_of_find a b w.db x e; closed = λ n. cc })))

block_user-Separated :
    (id now a b : ℕ) (w : World)
    → (block_user id now a b w).0 ≡ ok tt
    → Separated a b w (block_user id now a b w).1
block_user-Separated id now a b w h =
    subst (λ r. Blocks a b w r (block_user id now a b w).1) h (block_user-Blocks id now a b w).at

abbrev pub IsPair : ℕ → ℕ → User → User → Type 0
IsPair a b u v = ((u.id ≡ a) × (v.id ≡ b)) ⊎ ((u.id ≡ b) × (v.id ≡ a))

pair_blocked :
    (a b : ℕ) (u v : User) (db : Database)
    → is_blocked a b db ≡ true
    → IsPair a b u v
    → is_blocked u.id v.id db ≡ true
pair_blocked a b u v db h (inl (ea, eb)) = cc
pair_blocked a b u v db h (inr (eb, ea)) = cc (is_blocked_comm a b db)

-- A request of a blocked pair is refused before anything is written.
silent :
    (to_lower_case : String → String) (id now asker : ℕ) (name : String) (u v : User) (w : World)
    → find_by_id asker w.db ≡ some u
    → find_by_display_name to_lower_case name w.db ≡ some v
    → is_blocked u.id v.id w.db ≡ true
    → (create_request to_lower_case id now asker name w).1.db ≡ w.db
unfolding create_request request_from_to ◌>>=◌
silent lower id now asker name u v w fu fv h = elim (Bool-cases (v.id == u.id)) [
  | inl e ↦ rw (fu, fv, e, ◌>>=◌) refl
  | inr e ↦ rw (fu, fv, e, h, ◌>>=◌) refl
]

-- Where a user blocks another whom they had not blocked before, and a request between the two is
-- accepted, then after the call `isBlocked` holds of the two in either order and no socket is in the
-- room of that request.
pub block_user_separates :
    (id now a b request : ℕ) (w : World)
    → (block_user id now a b w).0 ≡ ok tt
    → find_one (blocks_of a b) w.db.user_blocks ≡ none
    → any (λ r. accepted_between a b r && r.id == request) w.db.chat_requests ≡ true
    → (is_blocked a b (block_user id now a b w).1.db ≡ true)
      × (is_blocked b a (block_user id now a b w).1.db ≡ true)
      × (is_open request (block_user id now a b w).1 ≡ false)
block_user_separates id now a b request w h new there =
    let s = block_user-Separated id now a b w h in
    (s.blocked, sym (is_blocked_comm a b _) ∙ s.blocked, s.closed new request there)

-- After a user has blocked another, a chat request from either of them to the other, by the name that
-- finds the other, makes no request, and changes no table.
pub block_user_silences :
    (to_lower_case : String → String) (id now a b : ℕ) (w : World)
    → (block_user id now a b w).0 ≡ ok tt
    → (new_id time asker : ℕ) (name : String) (u v : User)
    → find_by_id asker (block_user id now a b w).1.db ≡ some u
    → find_by_display_name to_lower_case name (block_user id now a b w).1.db ≡ some v
    → IsPair a b u v
    → let w' = (block_user id now a b w).1 in
      (create_request to_lower_case new_id time asker name w').1.db ≡ w'.db
block_user_silences lower id now a b w h new_id time asker name u v fu fv j =
    let w' = (block_user id now a b w).1 in
    silent lower new_id time asker name u v w' fu fv
      (pair_blocked a b u v w'.db (block_user-Separated id now a b w h).blocked j)

abbrev pub Joins : ℕ → ℕ → ChatRequest → Type 0
Joins a b r =
    ((r.from_user_id ≡ a) × (r.to_user_id ≡ b)) ⊎ ((r.from_user_id ≡ b) × (r.to_user_id ≡ a))

blocked_pair :
    (a b : ℕ) (db : Database) (r : ChatRequest)
    → is_blocked a b db ≡ true
    → Joins a b r
    → is_blocked r.from_user_id r.to_user_id db ≡ false
    → ⊥
blocked_pair a b db r h (inl (ea, eb)) free = cc
blocked_pair a b db r h (inr (eb, ea)) free = cc (is_blocked_comm a b db)

-- After a user has blocked another, neither of them, nor anyone else, is given the room of a
-- request between the two.
pub block_user_bars :
    (id now a b : ℕ) (w : World)
    → (block_user id now a b w).0 ≡ ok tt
    → (request user : ℕ) (r : ChatRequest) (room : RoomId)
    → find_request request (block_user id now a b w).1.db ≡ some r
    → Joins a b r
    → (get_accepted_room_for_user request user (block_user id now a b w).1).0 ≢ ok (some room)
block_user_bars id now a b w h request user r room f j granted =
    let w' = (block_user id now a b w).1 in
    let (s, may, _, _) = get_accepted_room_for_user_sound w' request user room granted in
    let same : s ≡ r = ground (arith, may.found) in
    blocked_pair a b w'.db r (block_user-Separated id now a b w h).blocked j
      (subst (λ x. is_blocked x.from_user_id x.to_user_id w'.db ≡ false) same may.unblocked)

-- Who unblocks a user is back where they were before the block, if there was none then.
pub unblock-block :
    (id now a b : ℕ) (db : Database)
    → any (blocks_of a b) db.user_blocks ≡ false
    → delete_blocks a b (insert_block (new_block id now a b) db) ≡ db
unfolding delete_blocks insert_block remove_where any
unblock-block id now a b db h =
    ap (λ bs. record db { user_blocks = bs }) (remove_new db.user_blocks h)
  where
    remove_new :
        (bs : List UserBlock)
        → any (blocks_of a b) bs ≡ false
        → remove_where (blocks_of a b) (bs ++ new_block id now a b ∷ []) ≡ bs
    remove_new [] e = ground arith
    remove_new (x ∷ bs) e = ground (arith, remove_new bs)
