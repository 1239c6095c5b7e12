-- ===== src/Chat/Steps.antt =====
-- The chat requests and the saved chats as an abstract state machine: which call of
-- chat/chat.service.ts may change what, with all that must hold before it, and when none may change
-- anything. The ids and the times of new rows come with a call.
pub mod Refinement
pub mod Soundness
use drawback_backend.Prelude.{
  ℕ, String, Bool, true, false, some, ◌≡◌, ◌==◌, ◌&&◌, ◌||◌, not, any, find_one, holds_of,
}
use drawback_backend.Schema.{Database, delete_chat_request}
use drawback_backend.Schema.Enums.{ChatRequestStatus, is_public, is_pending, is_accepted}
use drawback_backend.Schema.Entities.{User, ChatRequest, SavedChat}
use drawback_backend.Users.Queries.{find_by_id, find_by_display_name, is_blocked}
use drawback_backend.Chat.Requests.{
  find_request, is_participant, pending_from_to, new_request, insert_request, set_request_status,
}
use drawback_backend.Chat.Saved.{saved_for, new_saved_chat, insert_saved_chat, delete_saved}

-- The calls about requests and saved chats.
pub data RequestCall : Type 0 where
  creates : (id now from_user : ℕ) → (name : String) → RequestCall
  responds : (request user : ℕ) → (accept : Bool) → RequestCall
  cancels : (request user : ℕ) → RequestCall
  enters : (request user : ℕ) → RequestCall
  removes : (request user : ℕ) → RequestCall
  saves : (id now request user : ℕ) → RequestCall
  unsaves : (saved user : ℕ) → RequestCall

abbrev pub may_ask : Database → User → User → Bool
may_ask db a b =
    not (b.id == a.id)
    && not (is_blocked a.id b.id db)
    && (is_public b.mode || b.appear_in_searches)
    && not (any (pending_from_to a.id b.id) db.chat_requests)

abbrev pub is_bound : ℕ → ChatRequest → Bool
is_bound user r = is_participant user r && is_accepted r.status

-- Whether a call changes the tables.
unfoldable pub takes_effect : (String → String) → RequestCall → Database → Bool
takes_effect lower (creates id now u name) db =
    holds_of (find_by_id u db)
      (λ a. holds_of (find_by_display_name lower name db) (λ b. may_ask db a b))
takes_effect lower (responds id u b) db =
    holds_of (find_request id db) (λ r. r.to_user_id == u && is_pending r.status)
takes_effect lower (cancels id u) db =
    holds_of (find_request id db) (λ r. r.from_user_id == u && is_pending r.status)
takes_effect lower (enters id u) db =
    holds_of (find_request id db) (λ r. is_bound u r && is_blocked r.from_user_id r.to_user_id db)
takes_effect lower (removes id u) db = holds_of (find_request id db) (is_bound u)
takes_effect lower (saves id now k u) db =
    holds_of (find_request k db) (λ r. is_bound u r && not (any (saved_for k u) db.saved_chats))
takes_effect lower (unsaves id u) db =
    holds_of (find_one (λ s. s.id == id) db.saved_chats) (λ s. s.saved_by_user_id == u)

pub data RequestStep (to_lower_case : String → String) (db db' : Database)
    : RequestCall → Type 0 where
  stay :
      {c : RequestCall}
      → takes_effect to_lower_case c db ≡ false
      → db' ≡ db
      → RequestStep to_lower_case db db' c
  ask :
      (id now u : ℕ) (name : String) (a b : User)
      → any (λ r. r.id == id) db.chat_requests ≡ false
      → find_by_id u db ≡ some a
      → find_by_display_name to_lower_case name db ≡ some b
      → (b.id == a.id) ≡ false
      → is_blocked a.id b.id db ≡ false
      → (is_public b.mode || b.appear_in_searches) ≡ true
      → any (pending_from_to a.id b.id) db.chat_requests ≡ false
      → db' ≡ insert_request (new_request id now a.id b.id) db
      → RequestStep to_lower_case db db' (creates id now u name)
  accept :
      (k u : ℕ) (r : ChatRequest)
      → find_request k db ≡ some r
      → (r.to_user_id == u) ≡ true
      → is_pending r.status ≡ true
      → is_blocked r.from_user_id r.to_user_id db ≡ false
      → db' ≡ set_request_status r.id ChatRequestStatus.accepted db
      → RequestStep to_lower_case db db' (responds k u true)
  reject :
      (k u : ℕ) (r : ChatRequest)
      → find_request k db ≡ some r
      → (r.to_user_id == u) ≡ true
      → is_pending r.status ≡ true
      → db' ≡ set_request_status r.id ChatRequestStatus.rejected db
      → RequestStep to_lower_case db db' (responds k u false)
  drop_answered :
      (k u : ℕ) (r : ChatRequest)
      → find_request k db ≡ some r
      → (r.to_user_id == u) ≡ true
      → is_pending r.status ≡ true
      → is_blocked r.from_user_id r.to_user_id db ≡ true
      → db' ≡ delete_chat_request r.id db
      → RequestStep to_lower_case db db' (responds k u true)
  withdraw :
      (k u : ℕ) (r : ChatRequest)
      → find_request k db ≡ some r
      → (r.from_user_id == u) ≡ true
      → is_pending r.status ≡ true
      → db' ≡ delete_chat_request r.id db
      → RequestStep to_lower_case db db' (cancels k u)
  drop_entered :
      (k u : ℕ) (r : ChatRequest)
      → find_request k db ≡ some r
      → is_participant u r ≡ true
      → is_accepted r.status ≡ true
      → is_blocked r.from_user_id r.to_user_id db ≡ true
      → db' ≡ delete_chat_request r.id db
      → RequestStep to_lower_case db db' (enters k u)
  remove :
      (k u : ℕ) (r : ChatRequest)
      → find_request k db ≡ some r
      → is_participant u r ≡ true
      → is_accepted r.status ≡ true
      → db' ≡ delete_chat_request r.id db
      → RequestStep to_lower_case db db' (removes k u)
  save :
      (id now k u : ℕ) (r : ChatRequest)
      → find_request k db ≡ some r
      → is_participant u r ≡ true
      → is_accepted r.status ≡ true
      → any (saved_for k u) db.saved_chats ≡ false
      → db' ≡ insert_saved_chat (new_saved_chat id now k u) db
      → RequestStep to_lower_case db db' (saves id now k u)
  unsave :
      (k u : ℕ) (s : SavedChat)
      → find_one (λ x. x.id == k) db.saved_chats ≡ some s
      → (s.saved_by_user_id == u) ≡ true
      → db' ≡ delete_saved s.id db
      → RequestStep to_lower_case db db' (unsaves k u)
