-- ===== src/Purchases/Ledger.antt =====
-- What every call on purchases keeps: at most one subscription of a user, and at most one record of
-- each notification of the App Store. A call that is repeated by the App Store does nothing.
pub mod Webhook
pub mod Receipts
pub mod Calls
use drawback_backend.Prelude.{
  ℕ, String, Bool, true, false, List, [], ◌∷◌, ◌++◌, Option, none, some, ◌≡◌, refl, ap, ◌≤◌, ◌==◌,
  count, any, find_one, str_eq, count-update_where, count-append, count-zero, any_of_find_one-none,
  find_one-append_new, Bool-cases, Option-cases, inl, inr, arith, if◌then◌else◌, subst, ==_iff, sym,
  eq_iff,
}
use drawback_backend.Schema.{Database}
use drawback_backend.Schema.Enums.{Platform, SubscriptionStatus}
use drawback_backend.Schema.Entities.{Subscription, AppleNotification}
use drawback_backend.World.{
  World, Exec, Result, ok, err, Exception, return, modify_db, choose, ◌>>=◌, ◌>>◌, error,
}
use drawback_backend.World.Preserves.{
  Preserves, modify_db-Preserves, choose-Preserves, gets-Preserves, or_throw-Preserves,
  throw_if-Preserves, throw-Preserves, if_found-Preserves, return-Preserves, bind-Preserves,
}
use drawback_backend.World.Rules.{
  Ensures, Ensures-gets, Ensures-if_found, Ensures-or_throw, Ensures-throw_if, Ensures-return,
  Ensures-bind_runs, Ensures-modify_db,
}
use drawback_backend.Users.Profile.{subscription_of}
use drawback_backend.Purchases.Steps.{WritesPreserve}
use drawback_backend.Purchases.{
  change_subscription, set_discovery_access, update_subscription, update_access,
}
use drawback_backend.Purchases.Google as Google
use drawback_backend.Purchases.Google.{GoogleSubscription, GoogleNotification}
use drawback_backend.Purchases.Apple as Apple
use drawback_backend.Purchases.Apple.{AppStore, Notification, Transaction, Renewal}

pub record IsOrdered (db : Database) : Type 0 where
  pub one_subscription : (u : ℕ) → count (λ s. s.user_id == u) db.subscriptions ≤ 1
  pub one_record :
      (uuid : String) → count (λ n. str_eq n.notification_uuid uuid) db.apple_notifications ≤ 1

pub change_subscription-IsOrdered :
    (id : ℕ) (f : Subscription → Subscription)
    → ((s : Subscription) → (f s).user_id ≡ s.user_id)
    → (db : Database) → IsOrdered db
    → IsOrdered (change_subscription id f db)
unfolding change_subscription
change_subscription-IsOrdered id f same db h = record {
  one_subscription = λ u.
      let kept =
        count-update_where (λ s. s.user_id == u) (λ s. s.id == id) f db.subscriptions
          (λ s. ap (λ x. x == u) (same s)) in
      let before = h.one_subscription u in omega (arith, kept, before);
  one_record = h.one_record;
}

pub update_subscription-Preserves :
    (id : ℕ) (f : Subscription → Subscription)
    → ((s : Subscription) → (f s).user_id ≡ s.user_id)
    → Preserves IsOrdered (update_subscription id f)
unfolding update_subscription
update_subscription-Preserves id f same =
    modify_db-Preserves IsOrdered _ (change_subscription-IsOrdered id f same)

pub update_access-Preserves : (u : ℕ) (b : Bool) → Preserves IsOrdered (update_access u b)
unfolding update_access set_discovery_access
update_access-Preserves u b =
    modify_db-Preserves IsOrdered _
      (λ db h. record { one_subscription = h.one_subscription; one_record = h.one_record })

pub writes-IsOrdered : WritesPreserve IsOrdered
writes-IsOrdered = record {
  subscription = update_subscription-Preserves;
  access = update_access-Preserves;
}
