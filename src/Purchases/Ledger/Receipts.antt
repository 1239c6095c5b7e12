-- ===== src/Purchases/Ledger/Receipts.antt =====
-- A verified purchase keeps the purchases in order: a row is made only for a user who has none.
use drawback_backend.Prelude.{
  ℕ, String, true, false, Option, none, ◌≡◌, refl, ◌==◌, any, count-append_new,
  any_of_find_one-none, Option-cases, inl, inr, subst, sym, ==_iff,
}
use drawback_backend.Schema.{Database}
use drawback_backend.Schema.Enums.{Platform}
use drawback_backend.Schema.Entities.{Subscription}
use drawback_backend.World.{◌>>=◌}
use drawback_backend.World.Preserves.{Preserves, bind-Preserves}
use drawback_backend.Users.Profile.{subscription_of}
use drawback_backend.Purchases.{change_subscription, update_subscription, update_access}
use drawback_backend.Purchases.Ledger.{
  IsOrdered, update_access-Preserves, change_subscription-IsOrdered,
}
use drawback_backend.Purchases.Receipts.{
  Stores, Purchase, new_subscription, insert_subscription, upsert, with_purchase, verify_receipt,
  check_purchase,
}
use drawback_backend.Purchases.Access.{check_purchase-Checks, Checks-world}

insert_subscription-IsOrdered :
    (s : Subscription) (db : Database)
    → IsOrdered db
    → subscription_of s.user_id db ≡ none
    → IsOrdered (insert_subscription s db)
unfolding insert_subscription subscription_of
insert_subscription-IsOrdered s db h e = record {
  one_subscription = λ u. count-append_new _ db.subscriptions s (h.one_subscription u) λ same.
      subst (λ v. any (λ x. x.user_id == v) db.subscriptions ≡ false) ((==_iff s.user_id u).0 same)
        (any_of_find_one-none _ _ e);
  one_record = h.one_record;
}

upsert-Preserves :
    (id user : ℕ) (product : String) (p : Purchase) → Preserves IsOrdered (upsert id user product p)
unfolding upsert ◌>>=◌ update_subscription update_access
upsert-Preserves id user product p = record {
  at = λ w h. elim (Option-cases (subscription_of user w.db)) [
    | inl e ↦
        rw (e, ◌>>=◌)
          ((update_access-Preserves user true).at
            (record w { db = insert_subscription (new_subscription id user product p) w.db })
            (insert_subscription-IsOrdered (new_subscription id user product p) w.db h e))
    | inr (s, e) ↦
        rw (e, ◌>>=◌)
          ((update_access-Preserves user true).at
            (record w { db = change_subscription s.id (with_purchase product p) w.db })
            (change_subscription-IsOrdered s.id (with_purchase product p) (λ x. refl) w.db h))
  ];
}

-- The check of the purchase only reads.
check-Preserves :
    (stores : Stores) (now : ℕ) (platform : Option Platform) (receipt product : String)
    → Preserves IsOrdered (check_purchase stores now platform receipt product)
check-Preserves stores now platform receipt product = record {
  at = λ w h.
      subst (λ v. IsOrdered v.db)
        (sym
          (Checks-world now w _ _ (check_purchase-Checks stores now w platform receipt product).at))
        h;
}

pub verify_receipt-Preserves :
    (stores : Stores) (id now user : ℕ) (platform : Option Platform) (receipt product : String)
    → Preserves IsOrdered (verify_receipt stores id now user platform receipt product)
unfolding verify_receipt
verify_receipt-Preserves stores id now user platform receipt product = record {
  at =
      (bind-Preserves IsOrdered _ _ (check-Preserves stores now platform receipt product)
        (upsert-Preserves id user product)).at;
}
