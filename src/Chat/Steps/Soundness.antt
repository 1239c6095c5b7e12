-- ===== src/Chat/Steps/Soundness.antt =====
-- What every step of the state machine keeps.
use drawback_backend.Prelude.{
  ==_iff, subst, sym, String, ℕ, ◌≤◌, Bool, true, false, List, [], ◌∷◌, ◌++◌, some, ◌≡◌, refl, ◌==◌,
  ◌&&◌, any, All, count, find_one, remove_where, update_where, arith, count-append,
  count-remove_where-le, count-zero, All-append, All-remove_where, All-update_where, All-mono,
  All-remove_where_mono, any_of_find_one, find_one-holds, any-append,
}
use drawback_backend.Schema.{Database, delete_chat_request}
use drawback_backend.Schema.Enums.{ChatRequestStatus, is_pending, is_accepted}
use drawback_backend.Schema.Entities.{ChatRequest, SavedChat}
use drawback_backend.Chat.Requests.{
  find_request, is_participant, pending_from_to, new_request, insert_request, set_request_status,
}
use drawback_backend.Chat.Saved.{new_saved_chat, saved_for, insert_saved_chat, delete_saved}
use drawback_backend.Chat.Steps.{
  RequestCall, RequestStep, stay, ask, accept, reject, drop_answered, withdraw, drop_entered,
  remove, save, unsave,
}

-- The accepted request of one of its two users that a saved chat refers to.
abbrev pub backs : SavedChat → ChatRequest → Bool
backs s r =
    r.id == s.chat_request_id && (is_accepted r.status && is_participant s.saved_by_user_id r)

pub record IsSound (db : Database) : Type 0 where
  pub one_id : (k : ℕ) → count (λ r. r.id == k) db.chat_requests ≤ 1
  pub two_users : All (λ r. (r.to_user_id == r.from_user_id) ≡ false) db.chat_requests
  pub one_pending : (a b : ℕ) → count (pending_from_to a b) db.chat_requests ≤ 1
  pub backed : All (λ s. any (backs s) db.chat_requests ≡ true) db.saved_chats
  pub one_saved : (k u : ℕ) → count (saved_for k u) db.saved_chats ≤ 1

module _ (s : ChatRequestStatus) (k : ℕ) where
  abbrev with_status : List ChatRequest → List ChatRequest
  with_status = update_where (λ r. r.id == k) (λ r. record r { status = s })

  count_id-with_status :
      (j : ℕ) (rs : List ChatRequest)
      → count (λ r. r.id == j) (with_status rs) ≡ count (λ r. r.id == j) rs
  unfolding count update_where
  count_id-with_status j [] = refl
  count_id-with_status j (r ∷ rs) = ground (arith, count_id-with_status j rs)

  count_pending-with_status :
      (a b : ℕ) (rs : List ChatRequest)
      → is_pending s ≡ false
      → count (pending_from_to a b) (with_status rs) ≤ count (pending_from_to a b) rs
  unfolding count update_where
  count_pending-with_status a b [] h = omega arith
  count_pending-with_status a b (r ∷ rs) h = ground (arith, count_pending-with_status a b rs)

  with_status-none : (rs : List ChatRequest) → count (λ r. r.id == k) rs ≡ 0 → with_status rs ≡ rs
  unfolding count update_where
  with_status-none [] h = refl
  with_status-none (r ∷ rs) h = ground (arith, with_status-none rs)

  -- The one row that changes was pending, and no saved chat refers to it.
  backs-with_status :
      (c : SavedChat) (rs : List ChatRequest) (r : ChatRequest)
      → find_one (λ x. x.id == k) rs ≡ some r
      → is_pending r.status ≡ true
      → count (λ x. x.id == k) rs ≤ 1
      → any (backs c) rs ≡ true
      → any (backs c) (with_status rs) ≡ true
  unfolding any find_one count update_where
  backs-with_status c [] r f p one h = h
  backs-with_status c (x ∷ rs) r f p one h =
      ground (arith, backs-with_status c rs r, with_status-none rs)

-- A settled request keeps its users; the new one has two.
set_request_status-IsSound :
    (s : ChatRequestStatus) (r : ChatRequest) (db : Database)
    → find_request r.id db ≡ some r
    → is_pending r.status ≡ true
    → is_pending s ≡ false
    → IsSound db
    → IsSound (set_request_status r.id s db)
unfolding set_request_status find_request
set_request_status-IsSound s r db f p q h = record {
  one_id = λ k. omega (arith, count_id-with_status s r.id k db.chat_requests, h.one_id k);
  two_users = All-update_where _ _ _ db.chat_requests (λ x e _. e) h.two_users;
  one_pending = λ a b.
      omega (arith, count_pending-with_status s r.id a b db.chat_requests q, h.one_pending a b);
  backed =
      All-mono db.saved_chats
        (λ c e. backs-with_status s r.id c db.chat_requests r f p (h.one_id r.id) e) h.backed;
  one_saved = h.one_saved;
}

backs-insert :
    (c : SavedChat) (rs : List ChatRequest) (r : ChatRequest)
    → any (backs c) rs ≡ true
    → any (backs c) (rs ++ r ∷ []) ≡ true
backs-insert c rs r h = ground (arith, any-append (backs c) rs (r ∷ []))

count_pending-new :
    (a b : ℕ) (id now c d : ℕ) (rs : List ChatRequest)
    → any (pending_from_to c d) rs ≡ false
    → count (pending_from_to a b) rs ≤ 1
    → count (pending_from_to a b) (rs ++ new_request id now c d ∷ []) ≤ 1
unfolding count any
count_pending-new a b id now c d [] h k = ground arith
count_pending-new a b id now c d (r ∷ rs) h k = ground (
  arith,
  count_pending-new a b id now c d rs,
  count-zero (pending_from_to c d) rs,
  count-append (pending_from_to a b) rs (new_request id now c d ∷ []),
)

count_id-new :
    (k id now c d : ℕ) (rs : List ChatRequest)
    → any (λ r. r.id == id) rs ≡ false
    → count (λ r. r.id == k) rs ≤ 1
    → count (λ r. r.id == k) (rs ++ new_request id now c d ∷ []) ≤ 1
unfolding count any
count_id-new k id now c d [] h j = ground arith
count_id-new k id now c d (r ∷ rs) h j = ground (
  arith,
  count_id-new k id now c d rs,
  count-zero (λ r. r.id == id) rs,
  count-append (λ r. r.id == k) rs (new_request id now c d ∷ []),
)

count_saved-new :
    (k u : ℕ) (s : SavedChat) (ss : List SavedChat)
    → any (saved_for s.chat_request_id s.saved_by_user_id) ss ≡ false
    → count (saved_for k u) ss ≤ 1
    → count (saved_for k u) (ss ++ s ∷ []) ≤ 1
unfolding count any
count_saved-new k u s [] h j = ground arith
count_saved-new k u s (x ∷ ss) h j = ground (
  arith,
  count_saved-new k u s ss,
  count-zero (saved_for s.chat_request_id s.saved_by_user_id) ss,
  count-append (saved_for k u) ss (s ∷ []),
)

insert_request-IsSound :
    (id now a b : ℕ) (db : Database)
    → any (λ r. r.id == id) db.chat_requests ≡ false
    → (b == a) ≡ false
    → any (pending_from_to a b) db.chat_requests ≡ false
    → IsSound db
    → IsSound (insert_request (new_request id now a b) db)
unfolding insert_request
insert_request-IsSound id now a b db fresh ne new h = record {
  one_id = λ k. count_id-new k id now a b db.chat_requests fresh (h.one_id k);
  two_users = All-append _ db.chat_requests _ h.two_users (ne, tt);
  one_pending = λ c d. count_pending-new c d id now a b db.chat_requests new (h.one_pending c d);
  backed = All-mono db.saved_chats (λ c e. backs-insert c db.chat_requests _ e) h.backed;
  one_saved = h.one_saved;
}

backs-remove :
    (id : ℕ) (c : SavedChat) (rs : List ChatRequest)
    → (c.chat_request_id == id) ≡ false
    → any (backs c) rs ≡ true
    → any (backs c) (remove_where (λ r. r.id == id) rs) ≡ true
unfolding any remove_where
backs-remove id c [] e h = h
backs-remove id c (r ∷ rs) e h = ground (arith, backs-remove id c rs)

delete_chat_request-IsSound :
    (id : ℕ) (db : Database) → IsSound db → IsSound (delete_chat_request id db)
unfolding delete_chat_request
delete_chat_request-IsSound id db h = record {
  one_id =
      λ k. omega (arith, h.one_id k, count-remove_where-le _ (λ r. r.id == k) db.chat_requests);
  two_users = All-remove_where _ _ db.chat_requests h.two_users;
  one_pending = λ a b.
      omega
        (arith, h.one_pending a b, count-remove_where-le _ (pending_from_to a b) db.chat_requests);
  backed =
      All-remove_where_mono _ db.saved_chats (λ c e ne. backs-remove id c db.chat_requests ne e)
        h.backed;
  one_saved =
      λ k u. omega (arith, h.one_saved k u, count-remove_where-le _ (saved_for k u) db.saved_chats);
}

backs_of_find :
    (c : SavedChat) (r : ChatRequest) (db : Database)
    → find_request c.chat_request_id db ≡ some r
    → is_participant c.saved_by_user_id r ≡ true
    → is_accepted r.status ≡ true
    → any (backs c) db.chat_requests ≡ true
unfolding find_request
backs_of_find c r db f p a =
    any_of_find_one _ (backs c) db.chat_requests r f
      (ground (arith, find_one-holds (λ x. x.id == c.chat_request_id) db.chat_requests r f))

insert_saved_chat-IsSound :
    (s : SavedChat) (r : ChatRequest) (db : Database)
    → find_request s.chat_request_id db ≡ some r
    → is_participant s.saved_by_user_id r ≡ true
    → is_accepted r.status ≡ true
    → any (saved_for s.chat_request_id s.saved_by_user_id) db.saved_chats ≡ false
    → IsSound db
    → IsSound (insert_saved_chat s db)
unfolding insert_saved_chat
insert_saved_chat-IsSound s r db f p a new h = record {
  one_id = h.one_id;
  two_users = h.two_users;
  one_pending = h.one_pending;
  backed = All-append _ db.saved_chats _ h.backed (backs_of_find s r db f p a, tt);
  one_saved = λ k u. count_saved-new k u s db.saved_chats new (h.one_saved k u);
}

delete_saved-IsSound : (id : ℕ) (db : Database) → IsSound db → IsSound (delete_saved id db)
unfolding delete_saved
delete_saved-IsSound id db h = record {
  one_id = h.one_id;
  two_users = h.two_users;
  one_pending = h.one_pending;
  backed = All-remove_where _ _ db.saved_chats h.backed;
  one_saved =
      λ k u. omega (arith, h.one_saved k u, count-remove_where-le _ (saved_for k u) db.saved_chats);
}

-- Every step keeps the ids distinct, the two users of a request apart, at most one pending request
-- from one user to another, at most one saved chat of a user for a request, and each saved chat
-- backed by an accepted request of the user who saved it.

-- The row that was found has the id that was asked for.
find_request_self :
    (id : ℕ) (db : Database) (r : ChatRequest)
    → find_request id db ≡ some r
    → find_request r.id db ≡ some r
unfolding find_request
find_request_self id db r e =
    let same : r.id ≡ id = (==_iff r.id id).0 (find_one-holds _ db.chat_requests r e) in
    subst (λ k. find_one (λ x. x.id == k) db.chat_requests ≡ some r) (sym same) e

pub RequestStep-IsSound :
    (lower : String → String) (c : RequestCall) (db db' : Database)
    → RequestStep lower db db' c
    → IsSound db
    → IsSound db'
RequestStep-IsSound lower c db db' (stay idle e) h = rw e h
RequestStep-IsSound lower c db db' (ask id now u name a b fresh fa fb ne free listed new e) h =
    rw e (insert_request-IsSound id now a.id b.id db fresh ne new h)
RequestStep-IsSound lower c db db' (accept k u r f own p free e) h = rw e (
    set_request_status-IsSound ChatRequestStatus.accepted r db (find_request_self k db r f) p refl
      h)
RequestStep-IsSound lower c db db' (reject k u r f own p e) h = rw e (
    set_request_status-IsSound ChatRequestStatus.rejected r db (find_request_self k db r f) p refl
      h)
RequestStep-IsSound lower c db db' (drop_answered k u r f own p b e) h =
    rw e (delete_chat_request-IsSound r.id db h)
RequestStep-IsSound lower c db db' (withdraw k u r f own p e) h =
    rw e (delete_chat_request-IsSound r.id db h)
RequestStep-IsSound lower c db db' (drop_entered k u r f part acc b e) h =
    rw e (delete_chat_request-IsSound r.id db h)
RequestStep-IsSound lower c db db' (remove k u r f part acc e) h =
    rw e (delete_chat_request-IsSound r.id db h)
RequestStep-IsSound lower c db db' (save id now k u r f part acc new e) h =
    rw e (insert_saved_chat-IsSound (new_saved_chat id now k u) r db f part acc new h)
RequestStep-IsSound lower c db db' (unsave k u s f own e) h = rw e (delete_saved-IsSound s.id db h)
