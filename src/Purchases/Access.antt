-- ===== src/Purchases/Access.antt =====
-- What a verified purchase gives its user.
use drawback_backend.Prelude.{
  ℕ, String, false, Option, none, some, ◌≡◌, refl, ◌==◌, ==_refl, ◌&&◌, leb, find_one-update_found,
  find_one-append_new, Option-cases, inl, inr,
}
use drawback_backend.Schema.{Database}
use drawback_backend.Schema.Enums.{SubscriptionStatus, Platform, is_ios}
use drawback_backend.Schema.Entities.{Subscription}
use drawback_backend.World.{World, Exec, Result, ok, err, or_throw, return, error, ◌>>=◌}
use drawback_backend.World.Rules.{
  Ensures, Ensures-or_throw, Ensures-or_throw_last, Ensures-return, Ensures-throw, Ensures-throw_if,
  Ensures-if, Ensures-then, Ensures-runs,
}
use drawback_backend.Users.Profile.{subscription_of}
use drawback_backend.Purchases.{
  change_subscription, set_discovery_access, update_subscription, update_access,
}
use drawback_backend.Purchases.Receipts.{
  Stores, SubscriptionDetails, Purchase, JwsTransaction, with_purchase, new_subscription,
  insert_subscription, details_of, upsert, relabel, rethrow, check_jws, verify_jws_transaction,
  check_google, ask_apple, check_receipt, check_apple, check_purchase, verify_receipt, is_jws,
}

pub Ensures-rethrow {ℓ} :
    {A : Type ℓ} {Q : Result A → World → Type 0} {w : World} (text : String) (m : Exec A)
    → Ensures (λ r v. Q (relabel text r) v) m w
    → Ensures Q (rethrow text m) w
Ensures-rethrow text m h = record { at = h.at }

-- A check of a purchase reads only; a purchase of the App Store that it lets through has not ended.
abbrev pub Checks : ℕ → World → Result Purchase → World → Type 0
Checks now w (ok p) v = (v ≡ w) × ((is_ios p.platform && leb p.end_time now) ≡ false)
Checks now w (err e) v = v ≡ w

pub Checks-world : (now : ℕ) (w v : World) (r : Result Purchase) → Checks now w r v → v ≡ w
Checks-world now w v (ok p) h = h.0
Checks-world now w v (err e) h = h

Checks-relabel :
    (now : ℕ) (w v : World) (text : String) (r : Result Purchase)
    → Checks now w r v
    → Checks now w (relabel text r) v
Checks-relabel now w v text (ok p) h = h
Checks-relabel now w v text (err e) h = h

Ensures-relabel :
    (now : ℕ) (w : World) (text : String) (m : Exec Purchase)
    → Ensures (Checks now w) m w
    → Ensures (Checks now w) (rethrow text m) w
Ensures-relabel now w text m h =
    Ensures-rethrow text m (record { at = Checks-relabel now w (m w).1 text (m w).0 h.at })

module _ (stores : Stores) (now : ℕ) (w : World) where
  check_jws-Checks :
      (product receipt : String) (t : JwsTransaction)
      → Ensures (Checks now w) (check_jws now product receipt t) w
  unfolding check_jws
  check_jws-Checks product receipt t =
      Ensures-throw_if _ _ _ (λ _. refl)
        λ _.
          Ensures-or_throw _ _ _ (λ _. refl)
            λ expires _. Ensures-throw_if _ _ _ (λ _. refl) λ late. Ensures-return _ (refl, late)

  verify_jws-Checks :
      (product receipt : String)
      → Ensures (Checks now w) (verify_jws_transaction stores now product receipt) w
  unfolding verify_jws_transaction
  verify_jws-Checks product receipt =
      Ensures-or_throw _ _ _ (λ _. refl)
        λ verify _.
          Ensures-relabel now w _ _
            (Ensures-or_throw _ _ _ (λ _. refl) λ t _. check_jws-Checks product receipt t)

  check_google-Checks : (receipt : String) → Ensures (Checks now w) (check_google stores receipt) w
  unfolding check_google
  check_google-Checks receipt =
      Ensures-or_throw _ _ _ (λ _. refl)
        λ id _.
          Ensures-or_throw _ _ _ (λ _. refl)
            λ p _. Ensures-throw_if _ _ _ (λ _. refl) λ _. Ensures-return _ (refl, refl)

  abbrev ReadsOnly : {A : Type 0} → Result A → World → Type 0
  ReadsOnly r v = v ≡ w

  ask_apple-ReadsOnly : (receipt : String) → Ensures ReadsOnly (ask_apple stores receipt) w
  unfolding ask_apple
  ask_apple-ReadsOnly receipt =
      Ensures-or_throw _ _ _ (λ _. refl)
        λ first _.
          Ensures-if (first.status == 21007)
            (or_throw (stores.apple_sandbox receipt) (error "request failed")) (return first)
            (λ _. Ensures-or_throw_last _ _ (λ _. refl) λ a _. refl) (λ _. Ensures-return _ refl)

  check_receipt-Checks :
      (product receipt trimmed : String)
      → Ensures (Checks now w) (check_receipt stores now product receipt trimmed) w
  unfolding check_receipt
  check_receipt-Checks product receipt trimmed =
      Ensures-then _ _ w (ask_apple-ReadsOnly trimmed)
        (λ answer v same.
          Ensures-throw_if _ _ _ (λ _. same)
            λ _.
              Ensures-or_throw _ _ _ (λ _. same)
                λ latest _.
                  Ensures-throw_if _ _ _ (λ _. same) λ late. Ensures-return _ (same, late))
        (λ e v same. same)

  check_apple-Checks :
      (product receipt : String) → Ensures (Checks now w) (check_apple stores now product receipt) w
  unfolding check_apple
  check_apple-Checks product receipt =
      Ensures-or_throw _ _ _ (λ _. refl)
        λ secret _.
          Ensures-throw_if _ _ _ (λ _. refl)
            λ _.
              Ensures-if (is_jws (stores.trim receipt))
                (verify_jws_transaction stores now product (stores.trim receipt))
                (check_receipt stores now product receipt (stores.trim receipt))
                (λ _. verify_jws-Checks product _) (λ _. check_receipt-Checks product receipt _)

  pub check_purchase-Checks :
      (platform : Option Platform) (receipt product : String)
      → Ensures (Checks now w) (check_purchase stores now platform receipt product) w
  unfolding check_purchase
  check_purchase-Checks none receipt product = Ensures-throw _ refl
  check_purchase-Checks (some Platform.android) receipt product = check_google-Checks receipt
  check_purchase-Checks (some Platform.ios) receipt product = check_apple-Checks product receipt

-- The subscription of the user after a purchase: it is active, of the tier that was asked for, and
-- has the dates of the answer; a purchase of the App Store has not ended.
pub record IsPaid (now user : ℕ) (product : String) (db : Database) (d : SubscriptionDetails)
    : Type 0 where
  pub row : Subscription
  pub found : subscription_of user db ≡ some row
  pub active : row.status ≡ SubscriptionStatus.active
  pub tier : row.tier ≡ product
  pub until : row.end_date ≡ d.end_date
  pub in_time : (is_ios d.platform && leb d.end_date now) ≡ false

abbrev pub ReceiptOutcome : ℕ → ℕ → String → World → Result SubscriptionDetails → World → Type 0
ReceiptOutcome now user product w (ok d) v = IsPaid now user product v.db d
ReceiptOutcome now user product w (err e) v = v ≡ w

module _ (id now user : ℕ) (product : String) (p : Purchase)
    (late : (is_ios p.platform && leb p.end_time now) ≡ false) where
  updated_row :
      (s : Subscription) (db : Database)
      → subscription_of user db ≡ some s
      → subscription_of user (change_subscription s.id (with_purchase product p) db)
        ≡ some (with_purchase product p s)
  unfolding subscription_of change_subscription
  updated_row s db e =
      find_one-update_found _ (λ x. x.id == s.id) (with_purchase product p) db.subscriptions s
        (λ y. refl) (==_refl s.id) e

  inserted_row :
      (db : Database)
      → subscription_of user db ≡ none
      → subscription_of user (insert_subscription (new_subscription id user product p) db)
        ≡ some (new_subscription id user product p)
  unfolding subscription_of insert_subscription
  inserted_row db e = find_one-append_new _ db.subscriptions _ e (==_refl user)

  upsert-IsPaid :
      (v : World) → IsPaid now user product (upsert id user product p v).1.db (details_of product p)
  unfolding upsert update_subscription update_access set_discovery_access subscription_of ◌>>=◌
  upsert-IsPaid v = elim (Option-cases (subscription_of user v.db)) [
    | inl e ↦ record {
      row = new_subscription id user product p;
      found = rw (e, ◌>>=◌) (inserted_row v.db e);
      active = refl;
      tier = refl;
      until = refl;
      in_time = late;
    }
    | inr (s, e) ↦ record {
      row = with_purchase product p s;
      found = rw (e, ◌>>=◌) (updated_row s v.db e);
      active = refl;
      tier = refl;
      until = refl;
      in_time = late;
    }
  ]

  upsert-returns : (v : World) → (upsert id user product p v).0 ≡ ok (details_of product p)
  unfolding upsert update_subscription update_access ◌>>=◌
  upsert-returns v = elim (Option-cases (subscription_of user v.db)) [
    | inl e ↦ rw (e, ◌>>=◌)
    | inr (s, e) ↦ rw (e, ◌>>=◌)
  ]

upsert_run :
    (id now user : ℕ) (product : String) (p : Purchase)
    (late : (is_ios p.platform && leb p.end_time now) ≡ false) (v : World)
    → upsert id user product p v ≡ (ok (details_of product p), (upsert id user product p v).1)
upsert_run id now user product p late v = rw (← upsert-returns id now user product p late v)

ReceiptOutcome-relabel :
    (now user : ℕ) (product : String) (w v : World) (text : String) (r : Result SubscriptionDetails)
    → ReceiptOutcome now user product w r v
    → ReceiptOutcome now user product w (relabel text r) v
ReceiptOutcome-relabel now user product w v text (ok d) h = h
ReceiptOutcome-relabel now user product w v text (err e) h = h

-- A verification that succeeds leaves the user with an active subscription of the product's tier that
-- ends when the answer says, and which has not ended yet if it is of the App Store. One that fails
-- changes nothing: no row, no message.
pub verify_receipt-ReceiptOutcome :
    (stores : Stores) (id now user : ℕ) (platform : Option Platform) (receipt product : String)
    (w : World)
    → ReceiptOutcome now user product w
        (verify_receipt stores id now user platform receipt product w).0
        (verify_receipt stores id now user platform receipt product w).1
unfolding verify_receipt
verify_receipt-ReceiptOutcome stores id now user platform receipt product w =
    let checked = check_purchase-Checks stores now w platform receipt product in
    let run : Ensures (ReceiptOutcome now user product w)
        (check_purchase stores now platform receipt product >>= upsert id user product) w =
      Ensures-then (check_purchase stores now platform receipt product) (upsert id user product) w
        checked
        (λ p v h.
          Ensures-runs (upsert_run id now user product p h.1 v)
            (upsert-IsPaid id now user product p h.1 v))
        (λ e v same. same) in
    ReceiptOutcome-relabel now user product w _ "Verification failed" _ run.at
