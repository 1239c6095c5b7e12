-- ===== src/Users/Blocks.antt =====
-- users/users.service.ts: blocking, and the end of an account.
pub mod Refusal
use drawback_backend.Prelude.{
  ℕ, Bool, List, [], ◌∷◌, ◌++◌, ◌==◌, ◌&&◌, find_one, remove_where, select, sort_desc,
}
use drawback_backend.Schema.{Database, delete_user}
use drawback_backend.Schema.Entities.{User, UserBlock}
use drawback_backend.World.{
  Exec, return, gets, modify_db, ◌>>=◌, ◌>>◌, throw_if, or_throw, if_found, not_found, bad_request,
}
use drawback_backend.Users.Queries.{find_by_id}
use drawback_backend.Chat.Requests.{close_rooms_between_users, close_all_rooms_for_user}

abbrev pub blocks_of : ℕ → ℕ → UserBlock → Bool
blocks_of blocker blocked b = b.blocker_id == blocker && b.blocked_id == blocked

abbrev pub new_block : ℕ → ℕ → ℕ → ℕ → UserBlock
new_block id now blocker blocked = record {
  id = id;
  blocker_id = blocker;
  blocked_id = blocked;
  created_at = now;
}

unfoldable pub insert_block : UserBlock → Database → Database
insert_block b db = record db { user_blocks = db.user_blocks ++ b ∷ [] }

unfoldable pub delete_blocks : ℕ → ℕ → Database → Database
delete_blocks blocker blocked db = record db {
  user_blocks = remove_where (blocks_of blocker blocked) db.user_blocks;
}

unfoldable pub add_block : ℕ → ℕ → ℕ → ℕ → Exec (Unit {0})
add_block id now blocker blocked = do
  modify_db (insert_block (new_block id now blocker blocked))
  close_rooms_between_users blocker blocked

unfoldable pub block_user : ℕ → ℕ → ℕ → ℕ → Exec (Unit {0})
unfolding add_block
block_user id now blocker_id blocked_id = do
  throw_if (blocker_id == blocked_id) (bad_request "You cannot block yourself")
  found ← gets (λ w. find_by_id blocked_id w.db)
  _blocked_user ← or_throw found (not_found "User not found")
  existing ← gets (λ w. find_one (blocks_of blocker_id blocked_id) w.db.user_blocks)
  if_found existing (add_block id now blocker_id blocked_id) (λ _. return tt)

unfoldable pub unblock_user : ℕ → ℕ → Exec (Unit {0})
unblock_user blocker_id blocked_id = modify_db (delete_blocks blocker_id blocked_id)

-- The `blocked` relation of each block.
unfoldable pub blocked_users : List User → List UserBlock → List User
blocked_users us [] = []
blocked_users us (b ∷ bs) = select (λ u. u.id == b.blocked_id) us ++ blocked_users us bs

unfoldable pub list_blocked : ℕ → Exec (List User)
list_blocked blocker_id = gets (λ w.
    blocked_users w.db.users
      (sort_desc (λ b. b.created_at) (select (λ b. b.blocker_id == blocker_id) w.db.user_blocks)))

unfoldable pub delete_account : ℕ → Exec (Unit {0})
delete_account user_id = do
  found ← gets (λ w. find_by_id user_id w.db)
  user ← or_throw found (not_found "User not found")
  close_all_rooms_for_user user_id
  modify_db (delete_user user.id)
