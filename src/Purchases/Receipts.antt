-- ===== src/Purchases/Receipts.antt =====
-- purchases/purchases.service.ts: `verifyReceipt` and what it calls. The stores' answers are
-- parameters, `none` where a call raises; numbers that come as texts are the numbers they spell, with
-- `none` for a text that spells no finite number. `trim` is a parameter.
use Prim.Native.Char.{code}
use drawback_backend.Prelude.{
  ℕ, zero, suc, String, Bool, true, false, List, [], ◌∷◌, ◌++◌, Option, none, some, ◌==◌, ◌&&◌,
  ◌||◌, not, ltb, leb, select, find_one, non_empty, non_zero, is_text, is_there, head_of, sort_desc,
  str_eq, if◌then◌else◌,
}
use drawback_backend.Schema.{Database}
use drawback_backend.Schema.Enums.{SubscriptionStatus, Platform}
use drawback_backend.Schema.Entities.{User, Subscription}
use drawback_backend.World.{
  Exec, Exception, Result, ok, err, return, throw, gets, modify_db, if_found, or_throw, throw_if,
  error, bad_request, internal_server_error, ◌>>=◌, ◌>>◌,
}
use drawback_backend.Users.Queries.{find_by_id}
use drawback_backend.Users.Profile.{subscription_of}
use drawback_backend.Realtime.Connections.{drop_prefix}
use drawback_backend.Purchases.{update_subscription, update_access}

unfoldable pub unlock_discovery_access : ℕ → Exec User
unlock_discovery_access user_id = do
  update_access user_id true
  found ← gets (λ w. find_by_id user_id w.db)
  or_throw found (error "User not found")

pub record SubscriptionDetails : Type 0 where
  pub tier : String
  pub platform : Platform
  pub start_date : ℕ
  pub end_date : ℕ
  pub auto_renew : Bool

-- The answer of Google, as far as it is read.
pub record GooglePurchase : Type 0 where
  pub payment_state : Option ℕ
  pub start_time_millis : ℕ
  pub expiry_time_millis : ℕ
  pub auto_renewing : Bool
  pub order_id : Option String

-- An expiry that is no number counts as none; a time of purchase that is there is a number, as the App
-- Store documents it.
pub record ReceiptInfo : Type 0 where
  pub product_id : Option String
  pub purchase_date_ms : Option ℕ
  pub expires_date_ms : Option ℕ
  pub original_transaction_id : Option String

pub record PendingRenewal : Type 0 where
  pub product_id : Option String
  pub auto_renew_product_id : Option String
  pub auto_renew_status : Option String
  pub original_transaction_id : Option String

pub record AppleResponse : Type 0 where
  pub status : ℕ
  pub latest_receipt_info : List ReceiptInfo
  pub pending_renewal_info : List PendingRenewal

-- The payload of a StoreKit 2 transaction.
pub record JwsTransaction : Type 0 where
  pub product_id : String
  pub expires_date : Option ℕ
  pub purchase_date : Option ℕ
  pub original_transaction_id : Option String

-- The configuration and the calls of the stores; `jws_verifier` is `none` if it is not set up.
pub record Stores : Type 0 where
  pub google_subscription_id : Option String
  pub apple_shared_secret : Option String
  pub google_get : String → String → Option GooglePurchase
  pub apple_production : String → Option AppleResponse
  pub apple_sandbox : String → Option AppleResponse
  pub jws_verifier : Option (String → Option JwsTransaction)
  pub trim : String → String

-- `substring(0, n)`
unfoldable pub substring : ℕ → String → String
substring zero s = ""
substring (suc n) String.[] = ""
substring (suc n) (String.◌∷◌ c s) = String.◌∷◌ c (substring n s)

unfoldable pub includes_dot : String → Bool
includes_dot String.[] = false
includes_dot (String.◌∷◌ c s) = code c == b'.' || includes_dot s

unfoldable pub is_jws : String → Bool
is_jws s = is_there (drop_prefix "eyJ" s) && includes_dot s

-- What a verified purchase says of the subscription.
pub record Purchase : Type 0 where
  pub platform : Platform
  pub start_time : ℕ
  pub end_time : ℕ
  pub is_auto_renewing : Bool
  pub original_transaction_id : Option String
  pub purchase_token : String

abbrev pub with_purchase : String → Purchase → Subscription → Subscription
with_purchase tier p s = record s {
  platform = p.platform;
  tier = tier;
  status = SubscriptionStatus.active;
  start_date = p.start_time;
  end_date = p.end_time;
  auto_renew = p.is_auto_renewing;
  original_transaction_id = p.original_transaction_id;
  purchase_token = p.purchase_token;
}

abbrev pub new_subscription : ℕ → ℕ → String → Purchase → Subscription
new_subscription id user_id tier p = record {
  id = id;
  user_id = user_id;
  platform = p.platform;
  tier = tier;
  status = SubscriptionStatus.active;
  start_date = p.start_time;
  end_date = p.end_time;
  auto_renew = p.is_auto_renewing;
  original_transaction_id = p.original_transaction_id;
  purchase_token = p.purchase_token;
}

unfoldable pub insert_subscription : Subscription → Database → Database
insert_subscription s db = record db { subscriptions = db.subscriptions ++ s ∷ [] }

abbrev pub details_of : String → Purchase → SubscriptionDetails
details_of tier p = record {
  tier = tier;
  platform = p.platform;
  start_date = p.start_time;
  end_date = p.end_time;
  auto_renew = p.is_auto_renewing;
}

-- The end that both flows share: update the user's subscription, or make one.
unfoldable pub upsert : ℕ → ℕ → String → Purchase → Exec SubscriptionDetails
upsert id user_id tier p = do
  existing ← gets (λ w. subscription_of user_id w.db)
  if_found existing (modify_db (insert_subscription (new_subscription id user_id tier p)))
      (λ s. update_subscription s.id (with_purchase tier p))
  update_access user_id true
  return (details_of tier p)

-- Whether an exception is one that the `catch` hands on; any other becomes a server error.
abbrev pub handed_on : String → Exception → Exception
handed_on text (bad_request m) = bad_request m
handed_on text (internal_server_error m) = internal_server_error m
handed_on text _ = internal_server_error text

abbrev pub relabel {ℓ} : {A : Type ℓ} → String → Result A → Result A
relabel text (ok a) = ok a
relabel text (err e) = err (handed_on text e)

abbrev pub rethrow {ℓ} : {A : Type ℓ} → String → Exec A → Exec A
rethrow text m w = let (r, w') = m w in (relabel text r, w')

abbrev pub or_now : ℕ → Option ℕ → ℕ
or_now now none = now
or_now now (some t) = t

unfoldable pub check_jws : ℕ → String → String → JwsTransaction → Exec Purchase
check_jws now product_id receipt t = do
  throw_if (not (str_eq t.product_id product_id)) (bad_request "Product ID mismatch")
  expires ←
      or_throw (non_zero t.expires_date) (bad_request "Transaction does not contain an expiry date")
  throw_if (leb expires now) (bad_request "Transaction has expired")
  return (record {
    platform = Platform.ios;
    start_time = or_now now (non_zero t.purchase_date);
    end_time = expires;
    is_auto_renewing = true;
    original_transaction_id = t.original_transaction_id;
    purchase_token = substring 255 receipt;
  })

abbrev pub decoded : (String → Option JwsTransaction) → ℕ → String → String → Exec Purchase
decoded verify now product_id receipt =
    or_throw (verify receipt) (error "JWS verification failed") >>= check_jws now product_id receipt

unfoldable pub verify_jws_transaction : Stores → ℕ → String → String → Exec Purchase
verify_jws_transaction stores now product_id receipt = do
  verify ← or_throw stores.jws_verifier (internal_server_error "Apple JWS verifier not initialized")
  rethrow "JWS verification failed" (decoded verify now product_id receipt)

unfoldable pub check_google : Stores → String → Exec Purchase
check_google stores receipt = do
  subscription_id ←
      or_throw (non_empty stores.google_subscription_id)
        (internal_server_error "GOOGLE_SUBSCRIPTION_ID not configured")
  p ← or_throw (stores.google_get subscription_id receipt) (error "request failed")
  throw_if (not (elim p.payment_state [ none ↦ false | some n ↦ n == 1 ]))
      (bad_request "Invalid or unpaid subscription")
  return (record {
    platform = Platform.android;
    start_time = p.start_time_millis;
    end_time = p.expiry_time_millis;
    is_auto_renewing = p.auto_renewing;
    original_transaction_id = non_empty p.order_id;
    purchase_token = receipt;
  })

-- The texts of the statuses of Apple.
unfoldable pub error_message_of : ℕ → String
error_message_of status =
    if status == 21000
    then "The App Store could not read the JSON object you provided."
    else if status == 21002
    then "The receipt-data property was malformed or missing."
    else if status == 21003
    then "The receipt could not be authenticated."
    else if status == 21004
    then "The shared secret you provided does not match the shared secret on file."
    else if status == 21005
    then "The receipt server is not currently available."
    else if status == 21006
    then "This receipt is valid but the subscription has expired."
    else if status == 21007
    then "This receipt is from the test environment."
    else if status == 21008
    then "This receipt is from the production environment."
    else if status == 21010
    then "This receipt could not be authorized."
    else "Unknown error"

abbrev pub expiry : ReceiptInfo → ℕ
expiry r = elim r.expires_date_ms [ none ↦ 0 | some n ↦ n ]

abbrev pub is_for : String → ReceiptInfo → Bool
is_for product_id r = is_text r.product_id product_id && ltb 0 (expiry r)

-- The receipt for the product that expires last.
unfoldable pub latest_receipt : String → List ReceiptInfo → Option ReceiptInfo
latest_receipt product_id rs = head_of (sort_desc expiry (select (is_for product_id) rs))

abbrev pub same_text : Option String → Option String → Bool
same_text none t = false
same_text (some s) t = is_text t s

abbrev pub is_renewal_of : String → Option String → PendingRenewal → Bool
is_renewal_of product_id original r =
    is_text r.product_id product_id
    || is_text r.auto_renew_product_id product_id
    || same_text (non_empty r.original_transaction_id) original

abbrev pub is_renewing : Option PendingRenewal → Bool
is_renewing none = false
is_renewing (some r) = is_text r.auto_renew_status "1"

-- Production first; a receipt of the sandbox is asked for there.
unfoldable pub ask_apple : Stores → String → Exec AppleResponse
ask_apple stores receipt = do
  first ← or_throw (stores.apple_production receipt) (error "request failed")
  if first.status == 21007
      then or_throw (stores.apple_sandbox receipt) (error "request failed")
      else return first

-- `receipt` is the text as it came, which is stored.
unfoldable pub check_receipt : Stores → ℕ → String → String → String → Exec Purchase
check_receipt stores now product_id receipt trimmed = do
  answer ← ask_apple stores trimmed
  throw_if (not (answer.status == 0)) (bad_request (error_message_of answer.status))
  latest ←
      or_throw (latest_receipt product_id answer.latest_receipt_info)
        (bad_request "Receipt does not contain a valid subscription for this product")
  throw_if (leb (expiry latest) now) (bad_request "Invalid or expired receipt")
  return (record {
    platform = Platform.ios;
    start_time = or_now now latest.purchase_date_ms;
    end_time = expiry latest;
    is_auto_renewing = is_renewing (
        find_one (is_renewal_of product_id latest.original_transaction_id)
          answer.pending_renewal_info);
    original_transaction_id = latest.original_transaction_id;
    purchase_token = receipt;
  })

unfoldable pub check_apple : Stores → ℕ → String → String → Exec Purchase
check_apple stores now product_id receipt = do
  _secret ←
      or_throw (non_empty stores.apple_shared_secret)
        (internal_server_error "APPLE_SHARED_SECRET not configured")
  throw_if (str_eq (stores.trim receipt) "") (bad_request "Receipt data is empty or missing")
  if is_jws (stores.trim receipt)
      then verify_jws_transaction stores now product_id (stores.trim receipt)
      else check_receipt stores now product_id receipt (stores.trim receipt)

-- `none` is a platform that is neither.
unfoldable pub check_purchase : Stores → ℕ → Option Platform → String → String → Exec Purchase
check_purchase stores now (some Platform.android) receipt product_id = check_google stores receipt
check_purchase stores now (some Platform.ios) receipt product_id =
    check_apple stores now product_id receipt
check_purchase stores now none receipt product_id = throw (bad_request "Unsupported platform")

unfoldable pub verify_receipt :
    Stores → ℕ → ℕ → ℕ → Option Platform → String → String → Exec SubscriptionDetails
verify_receipt stores id now user_id platform receipt product_id =
    rethrow "Verification failed"
      (check_purchase stores now platform receipt product_id >>= upsert id user_id product_id)
