-- ===== src/Purchases/Steps.antt =====
-- The notifications of the two stores, for an invariant of the database that the two writes keep.
use drawback_backend.Prelude.{ℕ, String, Bool, true, false, Option, none, some, ◌≡◌, refl}
use drawback_backend.Schema.{Database}
use drawback_backend.Schema.Entities.{Subscription}
use drawback_backend.World.{Exec, return, choose, ◌>>◌}
use drawback_backend.World.Preserves.{
  Preserves, choose-Preserves, gets-Preserves, if_found-Preserves, return-Preserves, bind-Preserves,
}
use drawback_backend.Purchases.{update_subscription, update_access}
use drawback_backend.Purchases.Google as Google
use drawback_backend.Purchases.Google.{GoogleSubscription, GoogleNotification}
use drawback_backend.Purchases.Apple.{
  AppStore, Notification, Transaction, Renewal, handle_renewed, handle_renewal_status_change,
  handle_expired, handle_failed_renewal, handle_grace_period_expired, handle_revoked,
  handle_refund_reversed, dispatch, process_notification,
}

-- A write to a subscription that leaves it with its user, and a write of a user's access.
pub record WritesPreserve (I : Database → Type 0) : Type 0 where
  pub subscription :
      (id : ℕ) (f : Subscription → Subscription)
      → ((s : Subscription) → (f s).user_id ≡ s.user_id)
      → Preserves I (update_subscription id f)
  pub access : (u : ℕ) (b : Bool) → Preserves I (update_access u b)

module _ (I : Database → Type 0) where
  either :
      (b : Bool) (m n : Exec (Unit {0}))
      → Preserves I m
      → Preserves I n
      → Preserves I (choose b m n)
  either b m n hm hn = choose-Preserves I b m n hm hn

  both : (m n : Exec (Unit {0})) → Preserves I m → Preserves I n → Preserves I (m >> n)
  both m n hm hn = bind-Preserves I m _ hm (λ _. hn)

  nothing : Preserves I (return {A = Unit {0}} tt)
  nothing = return-Preserves I tt

module _ (I : Database → Type 0) (kept : WritesPreserve I)
    (fetch : String → String → Option GoogleSubscription) where
  renewed-Preserves :
      (s : Subscription) (id token : String) → Preserves I (Google.handle_renewed fetch s id token)
  unfolding Google.handle_renewed
  renewed-Preserves s id token =
      if_found-Preserves I _ _ _ (nothing I) (λ g. kept.subscription _ _ (λ x. refl))

  dispatch-Preserves :
      (type : ℕ) (id token : String) (s : Subscription)
      → Preserves I (Google.dispatch fetch type id token s)
  unfolding Google.dispatch Google.handle_canceled Google.handle_expired Google.handle_grace_period
      Google.handle_on_hold Google.handle_revoked
  dispatch-Preserves type id token s =
      let renewed = renewed-Preserves s id token in
      either I _ _ _ renewed (
        either I _ _ _ (kept.subscription _ _ λ x. refl) (
          either I _ _ _ (both I _ _ (kept.subscription _ _ λ x. refl) (kept.access _ _)) (
            either I _ _ _ (kept.subscription _ _ λ x. refl) (
              either I _ _ _ (kept.subscription _ _ λ x. refl) (
                either I _ _ _ renewed (
                  either I _ _ _ renewed (
                    either I _ _ _ (both I _ _ (kept.subscription _ _ λ x. refl) (kept.access _ _))
                      (nothing I))))))))

  google-Preserves :
      (n : GoogleNotification) → Preserves I (Google.handle_subscription_notification fetch n)
  unfolding Google.handle_subscription_notification
  google-Preserves n = bind-Preserves I _ _ (gets-Preserves I _) λ found.
      if_found-Preserves I _ _ _ (nothing I)
        (dispatch-Preserves n.notification_type n.subscription_id n.purchase_token)

  pub message-Preserves :
      (m : Option (Option GoogleNotification)) → Preserves I (Google.handle_message fetch m)
  unfolding Google.handle_message
  message-Preserves none = return-Preserves I false
  message-Preserves (some none) = return-Preserves I true
  message-Preserves (some (some n)) = record { at = (google-Preserves n).at }

module _ (I : Database → Type 0) (kept : WritesPreserve I) (store : AppStore) where
  handle_renewed-Preserves :
      (s : Subscription) (t : Option Transaction) (r : Option Renewal)
      → Preserves I (handle_renewed store s t r)
  unfolding handle_renewed
  handle_renewed-Preserves s t r =
      if_found-Preserves I _ _ _ (nothing I)
        λ expires. both I _ _ (kept.subscription _ _ λ x. refl) (kept.access _ _)

  ended-Preserves :
      (id user : ℕ) (f : Subscription → Subscription)
      → ((x : Subscription) → (f x).user_id ≡ x.user_id)
      → Preserves I (update_subscription id f >> update_access user false)
  ended-Preserves id user f same = both I _ _ (kept.subscription id f same) (kept.access user false)

  reversed-Preserves :
      (now : ℕ) (s : Subscription) (t : Option Transaction)
      → Preserves I (handle_refund_reversed store now s t)
  unfolding handle_refund_reversed
  reversed-Preserves now s t = if_found-Preserves I _ _ _ (nothing I) λ expires.
      either I _ _ _ (both I _ _ (kept.subscription _ _ λ x. refl) (kept.access _ _)) (nothing I)

  dispatch_webhook-Preserves :
      (now : ℕ) (n : Notification) (t : Option Transaction) (r : Option Renewal) (s : Subscription)
      → Preserves I (dispatch store now n t r s)
  unfolding dispatch handle_renewal_status_change handle_expired handle_failed_renewal
      handle_grace_period_expired handle_revoked
  dispatch_webhook-Preserves now n t r s = either I _ _ _ (handle_renewed-Preserves s t r) (
      either I _ _ _ (kept.subscription _ _ λ x. refl) (
        either I _ _ _ (ended-Preserves s.id s.user_id _ λ x. refl) (
          either I _ _ _
            (either I _ _ _ (kept.subscription _ _ λ x. refl) (kept.subscription _ _ λ x. refl))
            (either I _ _ _ (ended-Preserves s.id s.user_id _ λ x. refl) (
              either I _ _ _ (ended-Preserves s.id s.user_id _ λ x. refl) (
                either I _ _ _ (ended-Preserves s.id s.user_id _ λ x. refl)
                  (either I _ _ _ (reversed-Preserves now s t) (nothing I))))))))

  pub process_notification-Preserves :
      (now : ℕ) (n : Notification) (t : Option Transaction) (r : Option Renewal)
      → Preserves I (process_notification store now n t r)
  unfolding process_notification
  process_notification-Preserves now n t r = if_found-Preserves I _ _ _ (nothing I) λ id.
      bind-Preserves I _ _ (gets-Preserves I _)
        λ found. if_found-Preserves I _ _ _ (nothing I) (dispatch_webhook-Preserves now n t r)
