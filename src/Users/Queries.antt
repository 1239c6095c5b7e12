-- ===== src/Users/Queries.antt =====
-- The queries of users/users.service.ts that other services call.
use drawback_backend.Prelude.{
  ℕ, String, Bool, Option, ◌==◌, ◌&&◌, ◌||◌, ltb, count, find_one, str_eq,
}
use drawback_backend.Schema.{Database}
use drawback_backend.Schema.Entities.{User, UserBlock}

unfoldable pub find_by_id : ℕ → Database → Option User
find_by_id id db = find_one (λ u. u.id == id) db.users

abbrev pub between : ℕ → ℕ → UserBlock → Bool
between a b ub =
    (ub.blocker_id == a && ub.blocked_id == b) || (ub.blocker_id == b && ub.blocked_id == a)

unfoldable pub is_blocked : ℕ → ℕ → Database → Bool
is_blocked a b db = ltb 0 (count (between a b) db.user_blocks)

-- `toLowerCase` is taken as a parameter wherever it is called.
unfoldable pub find_by_display_name : (String → String) → String → Database → Option User
find_by_display_name to_lower_case name db =
    find_one (λ u. str_eq u.display_name (to_lower_case name)) db.users
