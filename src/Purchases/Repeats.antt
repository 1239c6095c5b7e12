-- ===== src/Purchases/Repeats.antt =====
-- Notifications of the App Store that come more than once.
use drawback_backend.Prelude.{
  ℕ, String, Bool, true, false, none, some, ◌≡◌, refl, find_one-holds, any, str_eq, eq_refl,
  any-append_holds, any_of_find_one, Option-cases, any_of_find_one-none, inl, inr, arith,
}
use drawback_backend.Schema.{Database}
use drawback_backend.Schema.Entities.{AppleNotification}
use drawback_backend.World.{World, ◌>>=◌}
use drawback_backend.World.Preserves.{modify_db-Preserves}
use drawback_backend.Purchases.{
  change_subscription, set_discovery_access, update_subscription, update_access,
}
use drawback_backend.Purchases.Steps.{WritesPreserve, process_notification-Preserves}
use drawback_backend.Purchases.Apple.{
  AppStore, Notification, find_notification, record_notification, take_notification, handle_webhook,
}

-- The notification has a record.
abbrev HasRecord : String → Database → Type 0
HasRecord uuid db = any (λ n. str_eq n.notification_uuid uuid) db.apple_notifications ≡ true

writes-HasRecord : (uuid : String) → WritesPreserve (HasRecord uuid)
unfolding update_subscription change_subscription update_access set_discovery_access
writes-HasRecord uuid = record {
  subscription = λ id f same. modify_db-Preserves (HasRecord uuid) _ (λ db h. h);
  access = λ u b. modify_db-Preserves (HasRecord uuid) _ (λ db h. h);
}

module _ (store : AppStore) where
  take-HasRecord :
      (id now : ℕ) (n : Notification) (w : World)
      → HasRecord n.notification_uuid (take_notification store id now n w).1.db
  unfolding take_notification record_notification ◌>>=◌ any
  take-HasRecord id now n w =
      let uuid = n.notification_uuid in
      (process_notification-Preserves (HasRecord uuid) (writes-HasRecord uuid) store now n _ _).at _
        (any-append_holds _ w.db.apple_notifications _ (eq_refl uuid))

  -- The run that a repetition makes of a world in which the notification has a record.
  repeated :
      (enabled : Bool) (id now : ℕ) (payload : String) (n : Notification) (v : World)
      → store.verify payload ≡ some n
      → HasRecord n.notification_uuid v.db
      → (handle_webhook store enabled id now payload v).1 ≡ v
  unfolding handle_webhook find_notification ◌>>=◌
  repeated false id now payload n v e h = refl
  repeated true id now payload n v e h =
      elim (Option-cases (find_notification store n.notification_uuid v.db)) [
        | inl none_found ↦ absurd (ground (arith, h, any_of_find_one-none _ _ none_found))
        | inr (row, found) ↦ rw (e, ◌>>=◌, found)
      ]

module _ (store : AppStore) (id now : ℕ) (payload : String) (n : Notification) (w : World)
    (e : store.verify payload ≡ some n) where
  pub first_run :
      find_notification store n.notification_uuid w.db ≡ none
      → (handle_webhook store true id now payload w).1 ≡ (take_notification store id now n w).1
  unfolding handle_webhook find_notification ◌>>=◌
  first_run new = rw (e, ◌>>=◌, new)

  later_run :
      (row : AppleNotification)
      → find_notification store n.notification_uuid w.db ≡ some row
      → (handle_webhook store true id now payload w).1 ≡ w
  unfolding handle_webhook find_notification ◌>>=◌
  later_run row found = rw (e, ◌>>=◌, found)

-- A payload of the App Store that comes a second time changes nothing, whatever became of it when it
-- came first and whenever it comes again: the world that the first call left stays as it is.
pub handle_webhook-repeats :
    (store : AppStore) (enabled : Bool) (id id' now now' : ℕ) (payload : String) (w : World)
    → (handle_webhook store enabled id' now' payload
        (handle_webhook store enabled id now payload w).1).1
      ≡ (handle_webhook store enabled id now payload w).1
unfolding handle_webhook find_notification ◌>>=◌
handle_webhook-repeats store false id id' now now' payload w = refl
handle_webhook-repeats store true id id' now now' payload w =
    elim (Option-cases (store.verify payload)) [
      | inl e ↦ rw (e, ◌>>=◌)
      | inr (n, e) ↦ elim (Option-cases (find_notification store n.notification_uuid w.db)) [
        | inl new ↦
            rw (first_run store id now payload n w e new)
              (repeated store true id' now' payload n _ e (take-HasRecord store id now n w))
        | inr (row, found) ↦ rw (later_run store id now payload n w e row found) (
            repeated store true id' now' payload n w e
              (any_of_find_one _ _ _ row found (find_one-holds _ _ row found)))
      ]
    ]
