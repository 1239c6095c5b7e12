-- ===== src/Purchases/Endings.antt =====
-- Notifications that end a subscription.
use drawback_backend.Prelude.{
  ℕ, String, true, false, Option, none, some, ◌≡◌, refl, ◌==◌, ==_refl, find_one_unique,
  bind_option, non_empty, find_one-update_found, arith,
}
use drawback_backend.Schema.{Database}
use drawback_backend.Schema.Enums.{SubscriptionStatus}
use drawback_backend.Schema.Entities.{Subscription}
use drawback_backend.World.{World, ◌>>=◌, ◌>>◌}
use drawback_backend.Users.Profile.{subscription_of, has_active_subscription}
use drawback_backend.Purchases.{
  change_subscription, set_discovery_access, update_subscription, update_access,
}
use drawback_backend.Purchases.Google.{with_status, stopped}
use drawback_backend.Purchases.Apple.{
  AppStore, Notification, Transaction, Renewal, transaction_id, find_ios, find_notification,
  record_notification, dispatch, process_notification, take_notification, handle_webhook,
  handle_expired, handle_revoked, handle_grace_period_expired,
}
use drawback_backend.Purchases.Ledger.{IsOrdered}
use drawback_backend.Purchases.Repeats.{first_run}

-- The types of notification that end a subscription, with what each makes of its row.
pub data Ending : Type 0 where
  expired grace_period_expired refund revoke : Ending

abbrev pub text_of : Ending → String
text_of Ending.expired = "EXPIRED"
text_of grace_period_expired = "GRACE_PERIOD_EXPIRED"
text_of refund = "REFUND"
text_of revoke = "REVOKE"

abbrev pub ended : Ending → Subscription → Subscription
ended Ending.expired = with_status SubscriptionStatus.expired
ended grace_period_expired = with_status SubscriptionStatus.expired
ended refund = stopped SubscriptionStatus.revoked
ended revoke = stopped SubscriptionStatus.revoked

module _ (store : AppStore) (now : ℕ) (n : Notification) (t : Option Transaction)
    (r : Option Renewal) where
  dispatch_ending :
      (e : Ending) (s : Subscription)
      → n.notification_type ≡ text_of e
      → dispatch store now n t r s
        ≡ (update_subscription s.id (ended e) >> update_access s.user_id false)
  unfolding dispatch handle_expired handle_revoked handle_grace_period_expired ◌>>=◌
  dispatch_ending Ending.expired s h = rw h refl
  dispatch_ending grace_period_expired s h = rw h refl
  dispatch_ending refund s h = rw h refl
  dispatch_ending revoke s h = rw h refl

same_user :
    (e : Ending) (s : Subscription) (x : Subscription)
    → ((ended e x).user_id == s.user_id) ≡ (x.user_id == s.user_id)
same_user Ending.expired s x = refl
same_user grace_period_expired s x = refl
same_user refund s x = refl
same_user revoke s x = refl

ended_row :
    (e : Ending) (s : Subscription) (db : Database)
    → subscription_of s.user_id db ≡ some s
    → subscription_of s.user_id (change_subscription s.id (ended e) db) ≡ some (ended e s)
unfolding subscription_of change_subscription
ended_row e s db h =
    find_one-update_found _ (λ x. x.id == s.id) (ended e) db.subscriptions s (same_user e s)
      (==_refl s.id) h

not_active :
    (e : Ending) (s : Subscription) (now : ℕ)
    → has_active_subscription (some (ended e s)) now ≡ false
unfolding has_active_subscription
not_active Ending.expired s now = ground arith
not_active grace_period_expired s now = ground arith
not_active refund s now = ground arith
not_active revoke s now = ground arith

module _ (store : AppStore) (id now : ℕ) (n : Notification) (e : Ending) (tid : String)
    (s : Subscription) (w : World) (ending : n.notification_type ≡ text_of e)
    (read : transaction_id
        (bind_option (non_empty n.signed_transaction_info) store.verify_transaction)
      ≡ some tid)
    (row : find_ios tid w.db ≡ some s) where
  taken_subscriptions :
      (take_notification store id now n w).1.db.subscriptions
      ≡ (change_subscription s.id (ended e) w.db).subscriptions
  unfolding take_notification process_notification record_notification find_ios update_subscription
      update_access set_discovery_access change_subscription ◌>>=◌
  taken_subscriptions =
      let run =
        dispatch_ending store now n
          (bind_option (non_empty n.signed_transaction_info) store.verify_transaction)
          (bind_option (non_empty n.signed_renewal_info) store.verify_renewal) e s ending in
      rw (read, row, ◌>>=◌, run) refl

  found_row : IsOrdered w.db → subscription_of s.user_id w.db ≡ some s
  unfolding subscription_of find_ios
  found_row ordered =
      find_one_unique _ _ w.db.subscriptions s (ordered.one_subscription s.user_id) row
        (==_refl s.user_id)

  taken_row :
      IsOrdered w.db
      → subscription_of s.user_id (take_notification store id now n w).1.db ≡ some (ended e s)
  unfolding subscription_of
  taken_row ordered = rw taken_subscriptions (ended_row e s w.db (found_row ordered))

-- A notification of the App Store that a subscription has expired, has left its grace period, or was
-- refunded or revoked, and that has not come before, ends the subscription that it names: from then
-- on the user has no active subscription, at any time. This asks that the user has no other one.
pub handle_webhook-ends :
    (store : AppStore) (id now later : ℕ) (payload : String) (n : Notification) (e : Ending)
    (tid : String) (s : Subscription) (w : World)
    → IsOrdered w.db
    → store.verify payload ≡ some n
    → n.notification_type ≡ text_of e
    → find_notification store n.notification_uuid w.db ≡ none
    → transaction_id (bind_option (non_empty n.signed_transaction_info) store.verify_transaction)
      ≡ some tid
    → find_ios tid w.db ≡ some s
    → has_active_subscription
        (subscription_of s.user_id (handle_webhook store true id now payload w).1.db)
        later
      ≡ false
handle_webhook-ends store id now later payload n e tid s w ordered verified ending new read row =
    rw (first_run store id now payload n w verified new)
      (rw (taken_row store id now n e tid s w ending read row ordered) (not_active e s later))
