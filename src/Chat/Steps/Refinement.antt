-- ===== src/Chat/Steps/Refinement.antt =====
-- Each handler of chat/chat.service.ts that touches requests or saved chats makes the step of its
-- call, whether it returns or throws.
use drawback_backend.Prelude.{
  ℕ, String, Bool, true, false, some, ◌≡◌, refl, ◌==◌, true_of_not, any, find_one, ◌∙◌, ap,
  any_of_find_one-none, any_of_find_one, find_one-holds, arith, holds_of-none, holds_of-some,
}
use drawback_backend.Schema.{Database}
use drawback_backend.Schema.Enums.{ChatRequestStatus}
use drawback_backend.Schema.Entities.{User, ChatRequest, SavedChat}
use drawback_backend.World.{World, Exec, Result}
use drawback_backend.World.Rules.{
  Ensures, Ensures-throw_if, Ensures-return, Ensures-gets, Ensures-if_found, Ensures-or_throw,
  Ensures-modify_db, Ensures-send,
}
use drawback_backend.World.Quiet.{Ensures-quiet, return-IsQuiet}
use drawback_backend.Realtime.Rooms.Quiet.{emit_to_user-IsQuiet, force_close_room-IsQuiet}
use drawback_backend.Users.Queries.{find_by_id, find_by_display_name}
use drawback_backend.Chat.Requests.{
  find_request, set_request_status, request_from_to, create_request, respond, respond_to_request,
  cancel, cancel_request, accepted_room, get_accepted_room_for_user, remove_accepted,
  remove_accepted_chat,
}
use drawback_backend.Chat.Requests.Access.{Ensures-refuse_if_blocked}
use drawback_backend.Chat.Saved.{
  saved_for, insert_saved, save_request, save_chat, unsave, delete_saved_chat,
}
use drawback_backend.Chat.Steps
use drawback_backend.Chat.Steps.{
  RequestCall, RequestStep, takes_effect, may_ask, stay, ask, accept, reject, drop_answered,
  withdraw, drop_entered, remove, save,
}

module _ (lower : String → String) where
  abbrev pub MakesStep {ℓ} : {A : Type ℓ} → RequestCall → Exec A → World → Type 0
  MakesStep {A} c m w = Ensures (λ (r : Result A) w'. RequestStep lower w.db w'.db c) m w

  cancel-MakesStep :
      (k user : ℕ) (r : ChatRequest) (w : World)
      → find_request k w.db ≡ some r
      → MakesStep (RequestCall.cancels k user) (cancel r user) w
  unfolding cancel takes_effect
  cancel-MakesStep k user r w f =
      Ensures-throw_if _ _ _ (λ other. stay (holds_of-some _ _ r f (ground arith)) refl)
        λ own.
          Ensures-throw_if _ _ _ (λ done. stay (holds_of-some _ _ r f (ground arith)) refl)
            λ open'. Ensures-modify_db _ _ (
              Ensures-return _ (withdraw k user r f (true_of_not _ own) (true_of_not _ open') refl))

  pub cancel_request-MakesStep :
      (request user : ℕ) (w : World)
      → MakesStep (RequestCall.cancels request user) (cancel_request request user) w
  unfolding cancel_request takes_effect
  cancel_request-MakesStep request user w = Ensures-gets _ _ (
      Ensures-if_found _ _ _ (λ e. Ensures-return _ (stay (holds_of-none _ _ e) refl))
        λ r e. cancel-MakesStep request user r w e)

  accepted_room-MakesStep :
      (k user : ℕ) (r : ChatRequest) (w : World)
      → find_request k w.db ≡ some r
      → MakesStep (RequestCall.enters k user) (accepted_room r user) w
  unfolding accepted_room takes_effect
  accepted_room-MakesStep k user r w f =
      Ensures-throw_if _ _ _ (λ other. stay (holds_of-some _ _ r f (ground arith)) refl)
        λ part.
          Ensures-throw_if _ _ _ (λ no. stay (holds_of-some _ _ r f (ground arith)) refl)
            λ acc.
              Ensures-refuse_if_blocked r _ w
                (λ b. drop_entered k user r f (true_of_not _ part) (true_of_not _ acc) b refl)
                λ free. Ensures-return _ (stay (holds_of-some _ _ r f (ground arith)) refl)

  pub get_accepted_room_for_user-MakesStep :
      (request user : ℕ) (w : World)
      → MakesStep (RequestCall.enters request user) (get_accepted_room_for_user request user) w
  unfolding get_accepted_room_for_user takes_effect
  get_accepted_room_for_user-MakesStep request user w = Ensures-gets _ _ (
      Ensures-if_found _ _ _ (λ e. Ensures-return _ (stay (holds_of-none _ _ e) refl))
        λ r e. accepted_room-MakesStep request user r w e)

  remove_accepted-MakesStep :
      (k user : ℕ) (r : ChatRequest) (w : World)
      → find_request k w.db ≡ some r
      → MakesStep (RequestCall.removes k user) (remove_accepted r user) w
  unfolding remove_accepted takes_effect
  remove_accepted-MakesStep k user r w f =
      Ensures-throw_if _ _ _ (λ other. stay (holds_of-some _ _ r f (ground arith)) refl)
        λ part.
          Ensures-throw_if _ _ _ (λ no. stay (holds_of-some _ _ r f (ground arith)) refl)
            λ acc. Ensures-quiet _ _ (force_close_room-IsQuiet _) λ _ w' e.
              Ensures-modify_db _ _ (
                Ensures-return _
                  (remove k user r f (true_of_not _ part) (true_of_not _ acc) (rw e)))

  pub remove_accepted_chat-MakesStep :
      (request user : ℕ) (w : World)
      → MakesStep (RequestCall.removes request user) (remove_accepted_chat request user) w
  unfolding remove_accepted_chat takes_effect
  remove_accepted_chat-MakesStep request user w = Ensures-gets _ _ (
      Ensures-if_found _ _ _ (λ e. Ensures-return _ (stay (holds_of-none _ _ e) refl))
        λ r e. remove_accepted-MakesStep request user r w e)

  -- The freshness of the id is what the database guarantees of a new primary key.
  request_from_to-MakesStep :
      (id now u : ℕ) (name : String) (a b : User) (w : World)
      → any (λ r. r.id == id) w.db.chat_requests ≡ false
      → find_by_id u w.db ≡ some a
      → find_by_display_name lower name w.db ≡ some b
      → MakesStep (RequestCall.creates id now u name) (request_from_to id now a b) w
  unfolding request_from_to takes_effect
  request_from_to-MakesStep id now u name a b w fresh fa fb =
      Ensures-throw_if _ _ _ (λ self. refused (ground arith))
        λ ne. Ensures-gets _ _ (
          Ensures-throw_if _ _ _ (λ blocked. refused (ground arith))
            λ free.
              Ensures-throw_if _ _ _ (λ unlisted. refused (ground arith))
                λ listed. Ensures-gets _ _ (
                  Ensures-throw_if _ _ _ (λ old. refused (ground arith))
                    λ new. Ensures-modify_db _ _ (
                      Ensures-quiet _ _ (emit_to_user-IsQuiet _ _) λ _ w' e. Ensures-send _ _ (
                        Ensures-return _
                          (ask id now u name a b fresh fa fb ne free (ground arith) new e)))))
    where
      refused :
          may_ask w.db a b ≡ false → RequestStep lower w.db w.db (RequestCall.creates id now u name)
      refused h = stay (holds_of-some _ _ a fa (holds_of-some _ _ b fb h)) refl

  pub create_request-MakesStep :
      (id now from_user : ℕ) (name : String) (w : World)
      → any (λ r. r.id == id) w.db.chat_requests ≡ false
      → MakesStep
          (RequestCall.creates id now from_user name)
          (create_request lower id now from_user name)
          w
  unfolding create_request takes_effect
  create_request-MakesStep id now from_user name w fresh = Ensures-gets _ _ (
      Ensures-or_throw _ _ _ (λ e. stay (holds_of-none _ _ e) refl)
        λ a fa. Ensures-gets _ _ (
          Ensures-if_found _ _ _
            (λ e. Ensures-return _ (stay (holds_of-some _ _ a fa (holds_of-none _ _ e)) refl))
            λ b fb. request_from_to-MakesStep id now from_user name a b w fresh fa fb))

  respond-MakesStep :
      (k user : ℕ) (r : ChatRequest) (b : Bool) (w : World)
      → find_request k w.db ≡ some r
      → MakesStep (RequestCall.responds k user b) (respond r user b) w
  unfolding respond takes_effect
  respond-MakesStep k user r true w f =
      Ensures-throw_if _ _ _ (λ other. stay (holds_of-some _ _ r f (ground arith)) refl)
        λ own.
          Ensures-throw_if _ _ _ (λ done. stay (holds_of-some _ _ r f (ground arith)) refl)
            λ pend.
              Ensures-refuse_if_blocked r _ w
                (λ b. drop_answered k user r f (true_of_not _ own) (true_of_not _ pend) b refl)
                λ free. Ensures-modify_db _ _ (
                  Ensures-quiet _ _ (emit_to_user-IsQuiet _ _) λ _ w1 e1.
                    Ensures-quiet _ _ (emit_to_user-IsQuiet _ _) λ _ w2 e2.
                      Ensures-return _
                        (accept k user r f (true_of_not _ own) (true_of_not _ pend) free (e2 ∙ e1)))
  respond-MakesStep k user r false w f =
      Ensures-throw_if _ _ _ (λ other. stay (holds_of-some _ _ r f (ground arith)) refl)
        λ own.
          Ensures-throw_if _ _ _ (λ done. stay (holds_of-some _ _ r f (ground arith)) refl)
            λ pend. Ensures-quiet _ _ (return-IsQuiet tt) λ _ w0 e0. Ensures-modify_db _ _ (
              Ensures-quiet _ _ (emit_to_user-IsQuiet _ _) λ _ w1 e1.
                Ensures-quiet _ _ (emit_to_user-IsQuiet _ _) λ _ w2 e2. Ensures-return _ (
                  reject k user r f (true_of_not _ own) (true_of_not _ pend)
                    (e2 ∙ e1 ∙ ap (set_request_status r.id ChatRequestStatus.rejected) e0)))

  pub respond_to_request-MakesStep :
      (request user : ℕ) (b : Bool) (w : World)
      → MakesStep (RequestCall.responds request user b) (respond_to_request request user b) w
  unfolding respond_to_request takes_effect
  respond_to_request-MakesStep request user b w = Ensures-gets _ _ (
      Ensures-if_found _ _ _ (λ e. Ensures-return _ (stay (holds_of-none _ _ e) refl))
        λ r e. respond-MakesStep request user r b w e)

  already_saved :
      (k u : ℕ) (db : Database) (s : SavedChat)
      → find_one (saved_for k u) db.saved_chats ≡ some s
      → any (saved_for k u) db.saved_chats ≡ true
  already_saved k u db s e =
      any_of_find_one _ (saved_for k u) db.saved_chats s e (find_one-holds _ db.saved_chats s e)

  save_request-MakesStep :
      (id now request user : ℕ) (r : ChatRequest) (w : World)
      → find_request request w.db ≡ some r
      → MakesStep (RequestCall.saves id now request user) (save_request id now r request user) w
  unfolding save_request insert_saved takes_effect
  save_request-MakesStep id now request user r w f =
      Ensures-throw_if _ _ _ (λ other. stay (holds_of-some _ _ r f (ground arith)) refl)
        λ part.
          Ensures-throw_if _ _ _ (λ no. stay (holds_of-some _ _ r f (ground arith)) refl)
            λ acc. Ensures-gets _ _ (
              Ensures-if_found _ _ _
                (λ new. Ensures-modify_db _ _ (
                  Ensures-return _ (
                    save id now request user r f (true_of_not _ part) (true_of_not _ acc)
                      (any_of_find_one-none _ w.db.saved_chats new) refl)))
                (λ s e.
                  let old = already_saved request user w.db s e in
                  Ensures-return _ (stay (holds_of-some _ _ r f (ground arith)) refl)))

  pub save_chat-MakesStep :
      (id now request user : ℕ) (w : World)
      → MakesStep (RequestCall.saves id now request user) (save_chat id now request user) w
  unfolding save_chat takes_effect
  save_chat-MakesStep id now request user w = Ensures-gets _ _ (
      Ensures-if_found _ _ _ (λ e. Ensures-return _ (stay (holds_of-none _ _ e) refl))
        λ r e. save_request-MakesStep id now request user r w e)

  unsave-MakesStep :
      (k user : ℕ) (s : SavedChat) (w : World)
      → find_one (λ x. x.id == k) w.db.saved_chats ≡ some s
      → MakesStep (RequestCall.unsaves k user) (unsave s user) w
  unfolding unsave takes_effect
  unsave-MakesStep k user s w f =
      Ensures-throw_if _ _ _ (λ other. stay (holds_of-some _ _ s f (ground arith)) refl)
        λ own.
          Ensures-modify_db _ _
            (Ensures-return _ (Steps.unsave k user s f (true_of_not _ own) refl))

  pub delete_saved_chat-MakesStep :
      (saved user : ℕ) (w : World)
      → MakesStep (RequestCall.unsaves saved user) (delete_saved_chat saved user) w
  unfolding delete_saved_chat takes_effect
  delete_saved_chat-MakesStep saved user w = Ensures-gets _ _ (
      Ensures-if_found _ _ _ (λ e. Ensures-return _ (stay (holds_of-none _ _ e) refl))
        λ s e. unsave-MakesStep saved user s w e)
