-- ===== src/Purchases/Ledger/Calls.antt =====
-- The calls that change purchases, as a history of them runs.
use drawback_backend.Prelude.{ℕ, String, Bool, List, [], ◌∷◌, Option}
use drawback_backend.Schema.Enums.{Platform}
use drawback_backend.World.{World}
use drawback_backend.Purchases.Google.{GoogleSubscription, GoogleNotification, handle_message}
use drawback_backend.Purchases.Apple.{AppStore, handle_webhook}
use drawback_backend.Purchases.Receipts.{Stores, verify_receipt}
use drawback_backend.Purchases.Steps.{message-Preserves}
use drawback_backend.Purchases.Ledger.{IsOrdered, writes-IsOrdered}
use drawback_backend.Purchases.Ledger.Webhook.{webhook-Preserves}
use drawback_backend.Purchases.Ledger.Receipts.{verify_receipt-Preserves}

-- A call, with the answers that the stores give while it runs.
pub data PurchaseCall : Type 0 where
  user_receipt :
      Stores → (id now user : ℕ) → Option Platform → (receipt product : String) → PurchaseCall
  google_message :
      (String → String → Option GoogleSubscription)
      → Option (Option GoogleNotification)
      → PurchaseCall
  apple_webhook : AppStore → Bool → (id now : ℕ) → String → PurchaseCall

-- The world that a call leaves, whatever it answers.
abbrev pub perform : PurchaseCall → World → World
perform (user_receipt stores id now user platform receipt product) w =
    (verify_receipt stores id now user platform receipt product w).1
perform (google_message fetch m) w = (handle_message fetch m w).1
perform (apple_webhook store enabled id now payload) w =
    (handle_webhook store enabled id now payload w).1

abbrev pub perform_all : List PurchaseCall → World → World
perform_all [] w = w
perform_all (c ∷ cs) w = perform_all cs (perform c w)

perform-IsOrdered : (c : PurchaseCall) (w : World) → IsOrdered w.db → IsOrdered (perform c w).db
perform-IsOrdered (user_receipt stores id now user platform receipt product) w h =
    (verify_receipt-Preserves stores id now user platform receipt product).at w h
perform-IsOrdered (google_message fetch m) w h =
    (message-Preserves IsOrdered writes-IsOrdered fetch m).at w h
perform-IsOrdered (apple_webhook store enabled id now payload) w h =
    (webhook-Preserves store enabled id now payload).at w h

-- Whatever receipts the users send and whatever notifications the two stores send, in any order and
-- with any outcome, a user has at most one subscription and a notification of the App Store at most
-- one record, if that was so before.
pub perform_all-IsOrdered :
    (cs : List PurchaseCall) (w : World) → IsOrdered w.db → IsOrdered (perform_all cs w).db
perform_all-IsOrdered [] w h = h
perform_all-IsOrdered (c ∷ cs) w h =
    perform_all-IsOrdered cs (perform c w) (perform-IsOrdered c w h)
