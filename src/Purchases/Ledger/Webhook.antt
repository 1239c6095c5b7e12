-- ===== src/Purchases/Ledger/Webhook.antt =====
-- Every notification of the App Store keeps the purchases in order, whatever its outcome.
use drawback_backend.Prelude.{
  ℕ, String, Bool, false, none, ◌≡◌, any, str_eq, count-append_new, any_of_find_one-none, subst,
  eq_iff,
}
use drawback_backend.Schema.{Database}
use drawback_backend.Schema.Entities.{AppleNotification}
use drawback_backend.World.{World, ◌>>=◌}
use drawback_backend.World.Preserves.{
  Preserves, or_throw-Preserves, throw_if-Preserves, return-Preserves, bind-Preserves,
  gets_found-Preserves,
}
use drawback_backend.Purchases.Ledger.{IsOrdered, writes-IsOrdered}
use drawback_backend.Purchases.Steps.{process_notification-Preserves}
use drawback_backend.Purchases.Apple.{
  AppStore, Notification, find_notification, record_notification, take_notification, handle_webhook,
}

-- A record of a notification that has none.
record_notification-IsOrdered :
    (store : AppStore) (n : AppleNotification) (db : Database)
    → IsOrdered db
    → find_notification store n.notification_uuid db ≡ none
    → IsOrdered (record_notification store n db)
unfolding record_notification find_notification
record_notification-IsOrdered store n db h e = record {
  one_subscription = h.one_subscription;
  one_record = λ uuid. count-append_new _ db.apple_notifications n (h.one_record uuid) λ same.
      subst (λ u. any (λ x. str_eq x.notification_uuid u) db.apple_notifications ≡ false)
        ((eq_iff n.notification_uuid uuid).0 same) (any_of_find_one-none _ _ e);
}

module _ (store : AppStore) where
  take-IsOrdered :
      (id now : ℕ) (n : Notification) (w : World)
      → IsOrdered w.db
      → find_notification store n.notification_uuid w.db ≡ none
      → IsOrdered (take_notification store id now n w).1.db
  unfolding take_notification ◌>>=◌
  take-IsOrdered id now n w h e =
      (process_notification-Preserves IsOrdered writes-IsOrdered store now n _ _).at _
        (record_notification-IsOrdered store _ w.db h e)

  pub webhook-Preserves :
      (enabled : Bool) (id now : ℕ) (payload : String)
      → Preserves IsOrdered (handle_webhook store enabled id now payload)
  unfolding handle_webhook
  webhook-Preserves enabled id now payload =
      bind-Preserves IsOrdered _ _ (throw_if-Preserves IsOrdered _ _) λ _.
        bind-Preserves IsOrdered _ _ (or_throw-Preserves IsOrdered _ _) λ n.
          gets_found-Preserves IsOrdered _ _ _ (take-IsOrdered id now n)
            (λ _. return-Preserves IsOrdered tt)
