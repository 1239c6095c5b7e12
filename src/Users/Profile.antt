-- ===== src/Users/Profile.antt =====
-- users/users.service.ts: display names, the settings of a profile, and discovery access.
pub mod Access
use drawback_backend.Prelude.{
  ℕ, String, Bool, true, false, Option, none, some, ◌+◌, ◌*◌, ◌==◌, ◌&&◌, ◌||◌, not, ltb,
  if◌then◌else◌, find_one, str_eq, update_where,
}
use drawback_backend.Schema.{Database}
use drawback_backend.Schema.Enums.{UserMode, is_active}
use drawback_backend.Schema.Entities.{User, Subscription}
use drawback_backend.World.{
  Exec, return, gets, modify_db, ◌>>=◌, ◌>>◌, throw_if, or_throw, not_found, conflict,
}
use drawback_backend.Users.Queries.{find_by_id}

-- `save` of a loaded user: the row with the user's id is rewritten.
unfoldable pub save_user : User → Database → Database
save_user u db = record db { users = update_where (λ x. x.id == u.id) (λ _. u) db.users }

unfoldable pub subscription_of : ℕ → Database → Option Subscription
subscription_of user_id db = find_one (λ s. s.user_id == user_id) db.subscriptions

-- Whether a date is set and still to come.
abbrev pub is_after : Option ℕ → ℕ → Bool
is_after none now = false
is_after (some t) now = ltb now t

unfoldable pub has_active_subscription : Option Subscription → ℕ → Bool
has_active_subscription none now = false
has_active_subscription (some s) now = ltb now s.end_date && is_active s.status

unfoldable pub has_rewarded_discovery_access : User → ℕ → Bool
has_rewarded_discovery_access u now = is_after u.temporary_discovery_access_expires_at now

pub record Snapshot : Type 0 where
  pub has_subscription : Bool
  pub has_rewarded_access : Bool
  pub has_access : Bool
  pub expires_at : Option ℕ

unfoldable pub get_discovery_access_snapshot : User → Option Subscription → ℕ → Snapshot
unfolding has_active_subscription has_rewarded_discovery_access
get_discovery_access_snapshot u s now = record {
  has_subscription = has_active_subscription s now;
  has_rewarded_access = has_rewarded_discovery_access u now;
  has_access = has_active_subscription s now || has_rewarded_discovery_access u now;
  expires_at = u.temporary_discovery_access_expires_at;
}

abbrev holder_is : Option User → Option ℕ → Bool
holder_is none user_id = true
holder_is (some u) none = false
holder_is (some u) (some id) = u.id == id

unfoldable pub is_display_name_available : (String → String) → String → Option ℕ → Database → Bool
is_display_name_available to_lower_case name current_user_id db =
    holder_is (find_one (λ u. str_eq u.display_name (to_lower_case name)) db.users) current_user_id

unfoldable pub update_display_name : (String → String) → ℕ → String → Exec User
update_display_name to_lower_case user_id name = do
  found ← gets (λ w. find_by_id user_id w.db)
  user ← or_throw found (not_found "User not found")
  taken ← gets (λ w. find_one (λ u. str_eq u.display_name (to_lower_case name)) w.db.users)
  throw_if (not (holder_is taken (some user_id))) (conflict "Display name is already taken")
  modify_db (save_user (record user { display_name = to_lower_case name }))
  return (record user { display_name = to_lower_case name })

-- The setters load the user, set one field and save.
unfoldable pub update_user : ℕ → (User → User) → Exec User
update_user user_id change = do
  found ← gets (λ w. find_by_id user_id w.db)
  user ← or_throw found (not_found "User not found")
  modify_db (save_user (change user))
  return (change user)

unfoldable pub set_mode : ℕ → UserMode → Exec User
unfolding update_user
set_mode user_id mode = update_user user_id (λ u. record u { mode = mode })

unfoldable pub set_appear_in_searches : ℕ → Bool → Exec User
unfolding update_user
set_appear_in_searches user_id appear =
    update_user user_id (λ u. record u { appear_in_searches = appear })

-- The later of the expiry date and now.
abbrev pub baseline : Option ℕ → ℕ → ℕ
baseline none now = now
baseline (some t) now = if ltb now t then t else now

unfoldable pub grant_access : ℕ → ℕ → User → User
grant_access now minutes u = record u {
  temporary_discovery_access_expires_at =
      some (baseline u.temporary_discovery_access_expires_at now + minutes * 60 * 1000);
}

unfoldable pub grant_temporary_discovery_access : ℕ → ℕ → ℕ → Exec User
unfolding update_user
grant_temporary_discovery_access now user_id minutes =
    update_user user_id (grant_access now minutes)
