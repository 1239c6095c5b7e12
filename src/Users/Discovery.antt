-- ===== src/Users/Discovery.antt =====
-- users/users.service.ts: the lists of other users, and the discovery game. `like` is SQL's LIKE, of a
-- value and a pattern, and `by_name` the database's order by display name; the random order is a
-- number that picks a row. `store` is the storage of images.
use Prim.Native.Char.{code}
use Prim.Native.String.{◌++◌ as append}
use drawback_backend.Prelude.{
  ℕ, String, Bool, true, false, List, Option, none, some, ◌%◌, ◌==◌, ◌&&◌, ◌||◌, not, ltb, length,
  select, count, any, drop, sort_desc, non_empty, is_there, head_of, if◌then◌else◌,
}
use drawback_backend.Schema.{Database}
use drawback_backend.Schema.Enums.{is_public, is_pending, is_accepted}
use drawback_backend.Schema.Entities.{User, ChatRequest}
use drawback_backend.World.{
  Exec, return, gets, modify_db, choose, or_throw, throw_if, not_found, bad_request, error, ◌>>=◌,
  ◌>>◌,
}
use drawback_backend.Users.Queries.{find_by_id, between}
use drawback_backend.Users.Profile.{save_user}

-- The condition of both queries: another user, with no block either way.
abbrev pub is_open_to : Database → ℕ → User → Bool
is_open_to db current_user_id u =
    not (u.id == current_user_id) && not (any (between current_user_id u.id) db.user_blocks)

unfoldable pub list_public : ℕ → Exec (List User)
list_public current_user_id = gets (λ w.
    sort_desc (λ u. u.created_at)
      (select (λ u. is_public u.mode && is_open_to w.db current_user_id u) w.db.users))

abbrev pub connects : ℕ → ℕ → ChatRequest → Bool
connects a b r =
    (r.from_user_id == a && r.to_user_id == b) || (r.from_user_id == b && r.to_user_id == a)

abbrev pub may_be_found : Database → ℕ → User → Bool
may_be_found db current_user_id u =
    is_public u.mode
    || u.appear_in_searches
    || any (λ r. is_accepted r.status && connects current_user_id u.id r) db.chat_requests

-- `replace(/^@/, '')`
unfoldable pub without_at : String → String
without_at String.[] = ""
without_at (String.◌∷◌ c s) = if code c == b'@' then s else String.◌∷◌ c s

unfoldable pub search_by_display_name :
    (String → String)
    → (String → String → Bool)
    → (List User → List User)
    → String
    → ℕ
    → Exec (List User)
search_by_display_name to_lower_case like by_name query current_user_id = gets (λ w.
    let pattern = append "@" (append (without_at (to_lower_case query)) "%") in
    by_name (
      select
        (λ u.
          like u.display_name pattern
          && is_open_to w.db current_user_id u
          && may_be_found w.db current_user_id u)
        w.db.users))

abbrev pub is_open_request : ChatRequest → Bool
is_open_request r = is_pending r.status || is_accepted r.status

unfoldable pub has_active_chat_request : ℕ → ℕ → Database → Bool
has_active_chat_request a b db =
    ltb 0 (count (λ r. connects a b r && is_open_request r) db.chat_requests)

-- The upload, `none` where it raises, and whether the deletion of a user's image raises.
pub record ImageStore : Type 0 where
  pub upload : ℕ → String → Option String
  pub deletion_fails : ℕ → Bool

abbrev pub with_image : String → User → User
with_image url u = record u { discovery_image_url = some url; appear_in_discovery_game = true }

abbrev pub without_image : User → User
without_image u = record u { discovery_image_url = none; appear_in_discovery_game = false }

abbrev enable : ImageStore → ℕ → Option String → User → Exec User
enable store user_id base64_image user = do
  image ←
      or_throw (non_empty base64_image)
        (bad_request "base64Image is required when enabling discovery game")
  url ← or_throw (store.upload user_id image) (error "upload failed")
  modify_db (save_user (with_image url user))
  return (with_image url user)

abbrev disable : ImageStore → ℕ → User → Exec User
disable store user_id user = do
  throw_if (is_there (non_empty user.discovery_image_url) && store.deletion_fails user_id)
      (error "deletion failed")
  modify_db (save_user (without_image user))
  return (without_image user)

unfoldable pub set_discovery_game : ImageStore → ℕ → Bool → Option String → Exec User
set_discovery_game store user_id appear_in_discovery_game base64_image = do
  found ← gets (λ w. find_by_id user_id w.db)
  user ← or_throw found (not_found "User not found")
  choose appear_in_discovery_game (enable store user_id base64_image user)
      (disable store user_id user)

abbrev pub may_be_discovered : Database → ℕ → User → Bool
may_be_discovered db current_user_id u =
    u.appear_in_discovery_game
    && is_there u.discovery_image_url
    && not (u.id == current_user_id)
    && not (any (λ r. is_open_request r && connects current_user_id u.id r) db.chat_requests)

-- `ORDER BY RAND() LIMIT 1`
unfoldable pub pick : ℕ → List User → Option User
pick random us = head_of (drop (random % length us) us)

unfoldable pub get_random_discovery_user : ℕ → User → Exec (Option User)
unfolding pick
get_random_discovery_user random current_user =
    gets (λ w. pick random (select (may_be_discovered w.db current_user.id) w.db.users))
