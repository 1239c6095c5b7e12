-- ===== src/Chat/Saved.antt =====
-- chat/chat.service.ts: the lists of requests, and saved chats.
use drawback_backend.Prelude.{
  ℕ, Bool, true, false, List, [], ◌∷◌, ◌++◌, Option, none, some, ◌==◌, ◌&&◌, not, select,
  remove_where, find_one, sort_desc,
}
use drawback_backend.Schema.{Database}
use drawback_backend.Schema.Enums.{is_accepted}
use drawback_backend.Schema.Entities.{ChatRequest, SavedChat}
use drawback_backend.World.{
  Exec, return, gets, modify_db, ◌>>=◌, ◌>>◌, throw_if, if_found, bad_request, forbidden,
}
use drawback_backend.Chat.Requests.{find_request, is_participant}

unfoldable pub get_sent_requests : ℕ → Exec (List ChatRequest)
get_sent_requests user_id = gets (λ w.
    sort_desc (λ r. r.created_at) (select (λ r. r.from_user_id == user_id) w.db.chat_requests))

unfoldable pub get_received_requests : ℕ → Exec (List ChatRequest)
get_received_requests user_id =
    gets (λ w.
      sort_desc (λ r. r.created_at) (select (λ r. r.to_user_id == user_id) w.db.chat_requests))

abbrev pub saved_for : ℕ → ℕ → SavedChat → Bool
saved_for request_id user_id s = s.chat_request_id == request_id && s.saved_by_user_id == user_id

abbrev pub new_saved_chat : ℕ → ℕ → ℕ → ℕ → SavedChat
new_saved_chat id now request_id user_id = record {
  id = id;
  chat_request_id = request_id;
  saved_by_user_id = user_id;
  saved_at = now;
}

unfoldable pub insert_saved_chat : SavedChat → Database → Database
insert_saved_chat s db = record db { saved_chats = db.saved_chats ++ s ∷ [] }

unfoldable pub delete_saved : ℕ → Database → Database
delete_saved id db = record db { saved_chats = remove_where (λ s. s.id == id) db.saved_chats }

unfoldable pub insert_saved : ℕ → ℕ → ℕ → ℕ → Exec (Option SavedChat)
insert_saved id now request_id user_id = do
  modify_db (insert_saved_chat (new_saved_chat id now request_id user_id))
  return (some (new_saved_chat id now request_id user_id))

unfoldable pub save_request : ℕ → ℕ → ChatRequest → ℕ → ℕ → Exec (Option SavedChat)
unfolding insert_saved
save_request id now request request_id user_id = do
  throw_if (not (is_participant user_id request)) (forbidden "You are not part of this chat")
  throw_if (not (is_accepted request.status)) (bad_request "Only accepted chats can be saved")
  existing ← gets (λ w. find_one (saved_for request_id user_id) w.db.saved_chats)
  if_found existing (insert_saved id now request_id user_id) (λ s. return (some s))

unfoldable pub save_chat : ℕ → ℕ → ℕ → ℕ → Exec (Option SavedChat)
unfolding save_request
save_chat id now request_id user_id = do
  request ← gets (λ w. find_request request_id w.db)
  if_found request (return none) (λ r. save_request id now r request_id user_id)

unfoldable pub get_saved_chats : ℕ → Exec (List SavedChat)
get_saved_chats user_id = gets (λ w.
    sort_desc (λ s. s.saved_at) (select (λ s. s.saved_by_user_id == user_id) w.db.saved_chats))

unfoldable pub unsave : SavedChat → ℕ → Exec Bool
unsave saved user_id = do
  throw_if (not (saved.saved_by_user_id == user_id))
      (forbidden "You can only delete your own saved chats")
  modify_db (delete_saved saved.id)
  return true

unfoldable pub delete_saved_chat : ℕ → ℕ → Exec Bool
unfolding unsave
delete_saved_chat saved_chat_id user_id = do
  saved ← gets (λ w. find_one (λ s. s.id == saved_chat_id) w.db.saved_chats)
  if_found saved (return false) (λ s. unsave s user_id)
