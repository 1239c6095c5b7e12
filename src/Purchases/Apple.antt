-- ===== src/Purchases/Apple.antt =====
-- purchases/apple-subscription-events.service.ts: the notifications of the App Store. `verify`,
-- `verify_transaction` and `verify_renewal` are the calls of Apple's verifier, `none` where they
-- raise; `statuses` is the client's `getAllSubscriptionStatuses`, `none` where it raises, with the
-- signed texts of the last transaction. An empty text, or a date 0, counts as none, as in the source.
use drawback_backend.Prelude.{
  ℕ, String, Bool, true, false, [], ◌∷◌, ◌++◌, Option, none, some, ◌&&◌, not, ltb, find_one, str_eq,
  non_empty, non_zero, bind_option, is_text, is_one, first_of, if◌then◌else◌,
}
use drawback_backend.Schema.{Database}
use drawback_backend.Schema.Enums.{SubscriptionStatus, is_ios}
use drawback_backend.Schema.Entities.{Subscription, AppleNotification}
use drawback_backend.World.{
  Exec, return, gets, modify_db, if_found, or_throw, throw_if, choose, error, ◌>>=◌, ◌>>◌,
}
use drawback_backend.Purchases.{update_subscription, update_access}
use drawback_backend.Purchases.Google.{with_status, stopped, renewed_until}

pub record Transaction : Type 0 where
  pub original_transaction_id : Option String
  pub expires_date : Option ℕ

pub record Renewal : Type 0 where
  pub auto_renew_status : Option ℕ

pub record Notification : Type 0 where
  pub notification_type : String
  pub subtype : Option String
  pub notification_uuid : String
  pub signed_transaction_info : Option String
  pub signed_renewal_info : Option String

-- `data?.[0]?.lastTransactions?.[0]` of the answer.
pub record LastTransaction : Type 0 where
  pub signed_transaction_info : Option String
  pub signed_renewal_info : Option String

abbrev pub transaction_id : Option Transaction → Option String
transaction_id t = bind_option t (λ x. non_empty x.original_transaction_id)

abbrev pub expiry_of : Option Transaction → Option ℕ
expiry_of t = bind_option t (λ x. non_zero x.expires_date)

abbrev pub renews : Option Renewal → Bool
renews none = false
renews (some r) = is_one r.auto_renew_status

unfoldable pub find_ios : String → Database → Option Subscription
find_ios id db =
    find_one (λ s. is_ios s.platform && is_text s.original_transaction_id id) db.subscriptions

-- What the App Store gives, and the two clients; `statuses` is `none` where there is no client.
pub record AppStore : Type 0 where
  pub verify : String → Option Notification
  pub verify_transaction : String → Option Transaction
  pub verify_renewal : String → Option Renewal
  pub statuses : Option (String → Option LastTransaction)

-- The fresh expiry date and renewal flag of `handleRenewed`, and what it uses where the calls raise.
pub record Fresh : Type 0 where
  pub expires_date : Option ℕ
  pub auto_renew : Bool

abbrev pub stale : Fresh
stale = record { expires_date = none; auto_renew = false }

module _ (store : AppStore) where
  -- `if (renewalStatus) …`; what was read before an exception stays.
  abbrev pub with_renewal : Option String → Option ℕ → Fresh
  with_renewal none expires = record { expires_date = expires; auto_renew = false }
  with_renewal (some signed) expires = record {
    expires_date = expires;
    auto_renew = renews (store.verify_renewal signed);
  }

  abbrev pub with_transaction : Option Transaction → LastTransaction → Fresh
  with_transaction none last = stale
  with_transaction (some t) last =
      with_renewal (non_empty last.signed_renewal_info) (non_zero t.expires_date)

  -- Where there is no signed transaction the renewal is read all the same.
  abbrev pub refreshed : LastTransaction → Fresh
  refreshed last = elim (non_empty last.signed_transaction_info) [
    | none ↦ with_renewal (non_empty last.signed_renewal_info) none
    | some signed ↦ with_transaction (store.verify_transaction signed) last
  ]

  abbrev pub fresh_answer : Option LastTransaction → Fresh
  fresh_answer none = stale
  fresh_answer (some last) = refreshed last

  abbrev pub fresh_data : Option (String → Option LastTransaction) → Option String → Fresh
  fresh_data none id = stale
  fresh_data (some ask) none = stale
  fresh_data (some ask) (some id) = fresh_answer (ask id)

  abbrev pub renewal_flag : Option (String → Option LastTransaction) → Fresh → Option Renewal → Bool
  renewal_flag none fresh renewal = renews renewal
  renewal_flag (some ask) fresh renewal = fresh.auto_renew

  unfoldable pub handle_renewed :
      Subscription → Option Transaction → Option Renewal → Exec (Unit {0})
  handle_renewed s transaction renewal =
      let fresh = fresh_data store.statuses (transaction_id transaction) in
      if_found (first_of fresh.expires_date (expiry_of transaction)) (return tt) λ expires. do
        update_subscription s.id (renewed_until expires (renewal_flag store.statuses fresh renewal))
        update_access s.user_id true

  -- The status that is written is that of the loaded subscription.
  unfoldable pub handle_renewal_status_change : Subscription → Option Renewal → Exec (Unit {0})
  handle_renewal_status_change s renewal = update_subscription s.id (λ r. record r {
    auto_renew = renews renewal;
    status = if renews renewal then s.status else SubscriptionStatus.cancelled;
  })

  unfoldable pub handle_expired : Subscription → Exec (Unit {0})
  handle_expired s = do
    update_subscription s.id (with_status SubscriptionStatus.expired)
    update_access s.user_id false

  unfoldable pub handle_failed_renewal : Subscription → Option String → Exec (Unit {0})
  handle_failed_renewal s subtype =
      choose (is_text subtype "GRACE_PERIOD")
        (update_subscription s.id (with_status SubscriptionStatus.grace_period))
        (update_subscription s.id (with_status SubscriptionStatus.billing_retry))

  unfoldable pub handle_grace_period_expired : Subscription → Exec (Unit {0})
  handle_grace_period_expired s = do
    update_subscription s.id (with_status SubscriptionStatus.expired)
    update_access s.user_id false

  unfoldable pub handle_revoked : Subscription → Exec (Unit {0})
  handle_revoked s = do
    update_subscription s.id (stopped SubscriptionStatus.revoked)
    update_access s.user_id false

  unfoldable pub handle_refund_reversed : ℕ → Subscription → Option Transaction → Exec (Unit {0})
  handle_refund_reversed now s transaction = if_found (expiry_of transaction) (return tt) λ expires.
      choose (ltb now expires)
        (update_subscription s.id
            (λ r. record r { status = SubscriptionStatus.active; end_date = expires })
          >> update_access s.user_id true)
        (return tt)

  -- The `switch`.
  unfoldable pub dispatch :
      ℕ → Notification → Option Transaction → Option Renewal → Subscription → Exec (Unit {0})
  dispatch now n transaction renewal s =
      choose (str_eq n.notification_type "DID_RENEW") (handle_renewed s transaction renewal) (
        choose (str_eq n.notification_type "DID_CHANGE_RENEWAL_STATUS")
          (handle_renewal_status_change s renewal)
          (choose (str_eq n.notification_type "EXPIRED") (handle_expired s) (
            choose (str_eq n.notification_type "DID_FAIL_TO_RENEW")
              (handle_failed_renewal s n.subtype)
              (choose (str_eq n.notification_type "GRACE_PERIOD_EXPIRED")
                (handle_grace_period_expired s)
                (choose (str_eq n.notification_type "REFUND") (handle_revoked s) (
                  choose (str_eq n.notification_type "REVOKE") (handle_revoked s) (
                    choose (str_eq n.notification_type "REFUND_REVERSED")
                      (handle_refund_reversed now s transaction) (return tt))))))))

  unfoldable pub process_notification :
      ℕ → Notification → Option Transaction → Option Renewal → Exec (Unit {0})
  process_notification now n transaction renewal =
      if_found (transaction_id transaction) (return tt) λ id. do
        found ← gets (λ w. find_ios id w.db)
        if_found found (return tt) (dispatch now n transaction renewal)

  unfoldable pub find_notification : String → Database → Option AppleNotification
  find_notification uuid db = find_one (λ n. str_eq n.notification_uuid uuid) db.apple_notifications

  abbrev pub new_notification : ℕ → Notification → Option Transaction → AppleNotification
  new_notification id n transaction = record {
    id = id;
    notification_uuid = n.notification_uuid;
    notification_type = n.notification_type;
    original_transaction_id = transaction_id transaction;
  }

  unfoldable pub record_notification : AppleNotification → Database → Database
  record_notification n db = record db { apple_notifications = db.apple_notifications ++ n ∷ [] }

  -- A notification that has not come before: its signed parts are read, where one that does not
  -- verify counts as missing; then it is recorded, and then handled.
  unfoldable pub take_notification : ℕ → ℕ → Notification → Exec (Unit {0})
  take_notification id now n =
      let transaction =
        bind_option (non_empty n.signed_transaction_info) store.verify_transaction in
      let renewal = bind_option (non_empty n.signed_renewal_info) store.verify_renewal in
      do
        modify_db (record_notification (new_notification id n transaction))
        process_notification now n transaction renewal

  -- `is_enabled` says that the clients have been set up.
  unfoldable pub handle_webhook : Bool → ℕ → ℕ → String → Exec (Unit {0})
  handle_webhook is_enabled id now signed_payload = do
    throw_if (not is_enabled) (error "Apple webhook handler not initialized")
    n ← or_throw (store.verify signed_payload) (error "verification failed")
    existing ← gets (λ w. find_notification n.notification_uuid w.db)
    if_found existing (take_notification id now n) (λ _. return tt)
