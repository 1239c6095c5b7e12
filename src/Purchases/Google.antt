-- ===== src/Purchases/Google.antt =====
-- purchases/subscription-events.service.ts: the notifications of Google Play. `fetch` is the call
-- `purchases.subscriptions.get` of Google's client, for a subscription and a purchase token, with
-- `none` where it raises; its answer has an expiry time. A message is `none` if it cannot be parsed.
use drawback_backend.Prelude.{
  ℕ, String, Bool, true, false, Option, none, some, ◌==◌, find_one, str_eq,
}
use drawback_backend.Schema.{Database}
use drawback_backend.Schema.Enums.{SubscriptionStatus}
use drawback_backend.Schema.Entities.{Subscription}
use drawback_backend.World.{Exec, Result, ok, err, return, gets, if_found, choose, ◌>>=◌, ◌>>◌}
use drawback_backend.Purchases.{update_subscription, update_access}

-- The answer of Google, as far as it is read.
pub record GoogleSubscription : Type 0 where
  pub expiry_time_millis : ℕ
  pub auto_renewing : Bool

pub data SubscriptionNotificationType : Type 0 where
  recovered renewed canceled purchased on_hold in_grace_period restarted price_change_confirmed
        revoked expired :
      SubscriptionNotificationType

-- The values of the enumeration.
abbrev pub code_of : SubscriptionNotificationType → ℕ
code_of recovered = 1
code_of renewed = 2
code_of canceled = 3
code_of purchased = 4
code_of on_hold = 5
code_of in_grace_period = 6
code_of restarted = 7
code_of price_change_confirmed = 10
code_of revoked = 12
code_of expired = 13

pub record GoogleNotification : Type 0 where
  pub notification_type : ℕ
  pub purchase_token : String
  pub subscription_id : String

unfoldable pub find_by_purchase_token : String → Database → Option Subscription
find_by_purchase_token token db = find_one (λ s. str_eq s.purchase_token token) db.subscriptions

abbrev pub with_status : SubscriptionStatus → Subscription → Subscription
with_status status s = record s { status = status }

abbrev pub stopped : SubscriptionStatus → Subscription → Subscription
stopped status s = record s { status = status; auto_renew = false }

abbrev pub renewed_until : ℕ → Bool → Subscription → Subscription
renewed_until end_date auto_renew s = record s {
  end_date = end_date;
  status = SubscriptionStatus.active;
  auto_renew = auto_renew;
}

unfoldable pub handle_canceled : Subscription → Exec (Unit {0})
handle_canceled s = update_subscription s.id (stopped SubscriptionStatus.cancelled)

unfoldable pub handle_expired : Subscription → Exec (Unit {0})
handle_expired s = do
  update_subscription s.id (with_status SubscriptionStatus.expired)
  update_access s.user_id false

unfoldable pub handle_grace_period : Subscription → Exec (Unit {0})
handle_grace_period s = update_subscription s.id (with_status SubscriptionStatus.grace_period)

unfoldable pub handle_on_hold : Subscription → Exec (Unit {0})
handle_on_hold s = update_subscription s.id (with_status SubscriptionStatus.on_hold)

unfoldable pub handle_revoked : Subscription → Exec (Unit {0})
handle_revoked s = do
  update_subscription s.id (stopped SubscriptionStatus.revoked)
  update_access s.user_id false

module _ (fetch : String → String → Option GoogleSubscription) where
  -- An exception of the call is caught and logged.
  unfoldable pub handle_renewed : Subscription → String → String → Exec (Unit {0})
  handle_renewed s subscription_id purchase_token =
      if_found (fetch subscription_id purchase_token) (return tt)
        λ g. update_subscription s.id (renewed_until g.expiry_time_millis g.auto_renewing)

  -- The `switch`; recovered and restarted do as renewed does.
  unfoldable pub dispatch : ℕ → String → String → Subscription → Exec (Unit {0})
  dispatch type subscription_id token s =
      choose (type == code_of renewed) (handle_renewed s subscription_id token) (
        choose (type == code_of canceled) (handle_canceled s) (
          choose (type == code_of expired) (handle_expired s) (
            choose (type == code_of in_grace_period) (handle_grace_period s) (
              choose (type == code_of on_hold) (handle_on_hold s) (
                choose (type == code_of recovered) (handle_renewed s subscription_id token) (
                  choose (type == code_of restarted) (handle_renewed s subscription_id token)
                    (choose (type == code_of revoked) (handle_revoked s) (return tt))))))))

  unfoldable pub handle_subscription_notification : GoogleNotification → Exec (Unit {0})
  handle_subscription_notification n = do
    found ← gets (λ w. find_by_purchase_token n.purchase_token w.db)
    if_found found (return tt) (dispatch n.notification_type n.subscription_id n.purchase_token)

  -- Whether the message is acknowledged; it is sent again if not.
  abbrev acknowledged : Result (Unit {0}) → Bool
  acknowledged (ok x) = true
  acknowledged (err e) = false

  abbrev pub acknowledge : Exec (Unit {0}) → Exec Bool
  acknowledge m w = let (r, w') = m w in (ok (acknowledged r), w')

  unfoldable pub handle_message : Option (Option GoogleNotification) → Exec Bool
  handle_message none = return false
  handle_message (some none) = return true
  handle_message (some (some n)) = acknowledge (handle_subscription_notification n)
