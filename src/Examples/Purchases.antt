-- ===== src/Examples/Purchases.antt =====
-- The theorems on purchases at a user with one subscription of the App Store.
use drawback_backend.Prelude.{
  ℕ, true, false, List, [], ◌∷◌, none, some, ◌≡◌, refl, ◌==◌, ◌≤◌, arith, str_eq, if◌then◌else◌,
  count, find_one,
}
use drawback_backend.Schema.Enums.{SubscriptionStatus, Platform}
use drawback_backend.Schema.Entities.{Subscription}
use drawback_backend.World.{World}
use drawback_backend.Users.Profile.{subscription_of, has_active_subscription}
use drawback_backend.Purchases.Apple.{
  AppStore, Notification, find_notification, find_ios, handle_webhook,
}
use drawback_backend.Purchases.Receipts.{Stores, GooglePurchase, verify_receipt}
use drawback_backend.Purchases.Access.{ReceiptOutcome, verify_receipt-ReceiptOutcome}
use drawback_backend.Purchases.Ledger.{IsOrdered}
use drawback_backend.Purchases.Ledger.Calls.{
  PurchaseCall, user_receipt, apple_webhook, perform_all, perform_all-IsOrdered,
}
use drawback_backend.Purchases.Repeats.{handle_webhook-repeats}
use drawback_backend.Purchases.Endings.{Ending, handle_webhook-ends}
use drawback_backend.Examples.{same_text, no_rows, empty_world}

abbrev paid : Subscription
paid = record {
  id = 5;
  user_id = 1;
  platform = Platform.ios;
  tier = "monthly";
  status = SubscriptionStatus.active;
  start_date = 10;
  end_date = 5000;
  auto_renew = true;
  original_transaction_id = some "T1";
  purchase_token = "receipt";
}

abbrev shop : World
shop = record empty_world { db = record no_rows { subscriptions = paid ∷ [] } }

abbrev expiry_notice : Notification
expiry_notice = record {
  notification_type = "EXPIRED";
  subtype = none;
  notification_uuid = "N1";
  signed_transaction_info = some "signed";
  signed_renewal_info = none;
}

abbrev app_store : AppStore
app_store = record {
  verify = λ s. if str_eq s "payload" then some expiry_notice else none;
  verify_transaction =
      λ s. some (record { original_transaction_id = some "T1"; expires_date = some 5000 });
  verify_renewal = λ s. none;
  statuses = none;
}

abbrev bought : GooglePurchase
bought = record {
  payment_state = some 1;
  start_time_millis = 100;
  expiry_time_millis = 9000;
  auto_renewing = true;
  order_id = some "G1";
}

abbrev stores : Stores
stores = record {
  google_subscription_id = some "monthly";
  apple_shared_secret = none;
  google_get = λ id token. some bought;
  apple_production = λ r. none;
  apple_sandbox = λ r. none;
  jws_verifier = none;
  trim = same_text;
}

verify_receipt-ReceiptOutcome_example :
    let r = verify_receipt stores 6 200 2 (some Platform.android) "token" "monthly" shop in
    ReceiptOutcome 200 2 "monthly" shop r.0 r.1
verify_receipt-ReceiptOutcome_example =
    verify_receipt-ReceiptOutcome stores 6 200 2 (some Platform.android) "token" "monthly" shop

one_of_paid : (u : ℕ) → count (λ s. s.user_id == u) shop.db.subscriptions ≤ 1
unfolding count
one_of_paid u = ground arith

shop-IsOrdered : IsOrdered shop.db
unfolding count
shop-IsOrdered = record { one_subscription = one_of_paid; one_record = λ uuid. omega arith }

abbrev calls : List PurchaseCall
calls =
    user_receipt stores 6 200 2 (some Platform.android) "token" "monthly"
    ∷ apple_webhook app_store true 7 6000 "payload"
    ∷ []

perform_all-IsOrdered_example : IsOrdered (perform_all calls shop).db
perform_all-IsOrdered_example = perform_all-IsOrdered calls shop shop-IsOrdered

handle_webhook-repeats_example :
    (handle_webhook app_store true 8 6500 "payload"
      (handle_webhook app_store true 7 6000 "payload" shop).1).1
    ≡ (handle_webhook app_store true 7 6000 "payload" shop).1
handle_webhook-repeats_example = handle_webhook-repeats app_store true 7 8 6000 6500 "payload" shop

not_recorded : find_notification app_store "N1" shop.db ≡ none
unfolding find_notification find_one
not_recorded = refl

paid_row : find_ios "T1" shop.db ≡ some paid
unfolding find_ios find_one
paid_row = refl

handle_webhook-ends_example :
    has_active_subscription
      (subscription_of 1 (handle_webhook app_store true 7 4000 "payload" shop).1.db)
      4500
    ≡ false
handle_webhook-ends_example =
    handle_webhook-ends app_store 7 4000 4500 "payload" expiry_notice Ending.expired "T1" paid shop
      shop-IsOrdered refl refl not_recorded refl paid_row
