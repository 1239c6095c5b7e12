-- ===== src/Purchases.antt =====
-- purchases/: subscriptions, which the app verifies with the stores, and the stores' notifications.
-- This file has what the three services share: `update` of a row by its id. The relation `user` of a
-- subscription is the user of its `userId`.
pub mod Google
pub mod Apple
pub mod Receipts
pub mod Access
pub mod Steps
pub mod Ledger
pub mod Repeats
pub mod Endings
use drawback_backend.Prelude.{ℕ, Bool, ◌==◌, update_where}
use drawback_backend.Schema.{Database}
use drawback_backend.Schema.Entities.{User, Subscription}
use drawback_backend.World.{Exec, modify_db}

-- `subscriptionRepository.update(id, …)`
unfoldable pub change_subscription : ℕ → (Subscription → Subscription) → Database → Database
change_subscription id change db = record db {
  subscriptions = update_where (λ s. s.id == id) change db.subscriptions;
}

-- `userRepository.update(userId, { hasDiscoveryAccess })`
unfoldable pub set_discovery_access : ℕ → Bool → Database → Database
set_discovery_access user_id access db = record db {
  users =
      update_where (λ u. u.id == user_id) (λ u. record u { has_discovery_access = access })
        db.users;
}

unfoldable pub update_subscription : ℕ → (Subscription → Subscription) → Exec (Unit {0})
unfolding change_subscription
update_subscription id change = modify_db (change_subscription id change)

unfoldable pub update_access : ℕ → Bool → Exec (Unit {0})
unfolding set_discovery_access
update_access user_id access = modify_db (set_discovery_access user_id access)
