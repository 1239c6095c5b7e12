-- ===== src/Notifications/Delivery.antt =====
-- What comes of a message that is to be sent.
use drawback_backend.Prelude.{
  ℕ, zero, suc, String, Bool, true, false, [], ◌∷◌, Option, none, some, ◌≡◌, refl, ◌≤◌, length, not,
  is_there, All, Option-cases, inl, inr, arith,
}
use drawback_backend.Schema.Entities.{PushToken}
use drawback_backend.World.{World, Result, ok, ◌>>=◌}
use drawback_backend.World.Rules.{
  Ensures, Ensures-if_found, Ensures-choose, Ensures-return, Ensures-modify_db,
}
use drawback_backend.Notifications.Current.{IsCurrent, current_token-IsCurrent}
use drawback_backend.Notifications.{
  Message, Sending, Attempts, is_invalid_token_error, current_token, delete_token, send_fcm_message,
  send_to, tried, retried, no_message,
}

-- Whether the last of a number of attempts was answered without an error.
abbrev pub last_was_sent : Attempts → ℕ → Bool
last_was_sent answer zero = false
last_was_sent answer (suc n) = not (is_there (answer n))

-- Whether the first answer says that the token is not valid.
abbrev pub is_refused : Option String → Bool
is_refused none = false
is_refused (some c) = is_invalid_token_error c

abbrev pub without_refused : Bool → PushToken → World → World
without_refused true t w = record w { db = delete_token t.id w.db }
without_refused false t w = w

-- One or two attempts with one message, the last of which decides whether the message was sent; the token is deleted
-- exactly if the first is answered that it is not valid.
pub record IsDelivery (answer : Attempts) (t : PushToken) (m : Message) (w : World)
    (r : Result Sending) (w' : World) : Type 0 where
  pub outcome : Sending
  pub returns : r ≡ ok outcome
  pub some_attempt : 1 ≤ length outcome.attempts
  pub two_at_most : length outcome.attempts ≤ 2
  pub contents : All (λ x. x ≡ m) outcome.attempts
  pub sent : outcome.sent ≡ last_was_sent answer (length outcome.attempts)
  pub world : w' ≡ without_refused (is_refused (answer 0)) t w

module _ (answer : Attempts) (t : PushToken) (m : Message) (w : World) where
  once :
      (b : Bool)
      → b ≡ not (is_there (answer 0))
      → (w' : World) → w' ≡ without_refused (is_refused (answer 0)) t w
      → IsDelivery answer t m w (ok (tried (m ∷ []) b)) w'
  once b h w' same = record {
    outcome = tried (m ∷ []) b;
    returns = refl;
    some_attempt = omega arith;
    two_at_most = omega arith;
    contents = (refl, tt);
    sent = h;
    world = same;
  }

  twice :
      (o : Option String)
      → answer 1 ≡ o
      → w ≡ without_refused (is_refused (answer 0)) t w
      → IsDelivery answer t m w (ok (retried o m)) w
  twice none h same = record {
    outcome = retried none m;
    returns = refl;
    some_attempt = omega arith;
    two_at_most = omega arith;
    contents = (refl, (refl, tt));
    sent = rw h refl;
    world = same;
  }
  twice (some c) h same = record {
    outcome = retried (some c) m;
    returns = refl;
    some_attempt = omega arith;
    two_at_most = omega arith;
    contents = (refl, (refl, tt));
    sent = rw h refl;
    world = same;
  }

  send_fcm_message-IsDelivery : Ensures (IsDelivery answer t m w) (send_fcm_message answer t m) w
  unfolding send_fcm_message
  send_fcm_message-IsDelivery =
      Ensures-if_found _ _ _ (λ e. Ensures-return _ (once true (rw e refl) w (rw e refl)))
        λ c e.
          Ensures-choose _ _ _
            (λ bad.
              Ensures-modify_db _ _
                (Ensures-return _ (once false (rw e refl) _ (rw (e, bad) refl))))
            (λ good.
              Ensures-choose _ _ _
                (λ _. Ensures-return _ (once false (rw e refl) w (rw (e, good) refl)))
                (λ _. Ensures-return _ (twice (answer 1) refl (rw (e, good) refl))))

abbrev pub DeliveryOutcome :
    Attempts → (String → Message) → Option PushToken → World → Result Sending → World → Type 0
DeliveryOutcome answer message none w r w' = (r ≡ ok no_message) × (w' ≡ w)
DeliveryOutcome answer message (some t) w r w' = IsDelivery answer t (message t.token) w r w'

delivery :
    (answer : Attempts) (user : ℕ) (message : String → Message) (w : World)
    → DeliveryOutcome answer message
        (current_token user w.db)
        w
        (send_to answer user message w).0
        (send_to answer user message w).1
unfolding send_to ◌>>=◌
delivery answer user message w = elim (Option-cases (current_token user w.db)) [
  | inl e ↦ rw (e, ◌>>=◌) (refl, refl)
  | inr (t, e) ↦ rw (e, ◌>>=◌) (send_fcm_message-IsDelivery answer t (message t.token) w).at
]

-- A message to a user never raises. Where the user has no active token of Firebase nothing is sent or
-- changed; otherwise it is tried once or twice, each time with the same message, which is made for the
-- one of these tokens that was written last, the last attempt decides whether it was sent, and the
-- token is deleted exactly if Firebase answers the first attempt that it is not valid.
pub send_to-DeliveryOutcome :
    (answer : Attempts) (user : ℕ) (message : String → Message) (w : World)
    → (o : Option PushToken) × IsCurrent user w.db o
      × DeliveryOutcome answer message o w
          (send_to answer user message w).0
          (send_to answer user message w).1
send_to-DeliveryOutcome answer user message w = (
  current_token user w.db,
  current_token-IsCurrent user w.db (current_token user w.db) refl,
  delivery answer user message w,
)
