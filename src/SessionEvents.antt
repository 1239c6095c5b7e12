-- ===== src/SessionEvents.antt =====
-- session-events/session-events.service.ts: the log of sockets and rooms. No foreign key binds an
-- event to its user. A day is one of 24 hours.
pub mod Statistics
use drawback_backend.Prelude.{
  ℕ, String, Bool, true, false, List, [], ◌∷◌, ◌++◌, Option, none, some, ◌-◌, ◌*◌, ◌==◌, ◌&&◌, ◌||◌,
  ltb, leb, length, find_one, select, remove_where, count, take, drop, sort_desc, str_eq, non_empty,
  is_text,
}
use drawback_backend.Schema.{Database}
use drawback_backend.Schema.Entities.{User, SessionEvent}
use drawback_backend.World.{Exec, return, gets, modify_db, if_found, ◌>>=◌, ◌>>◌}
use drawback_backend.Schema.Enums.{SessionEventType}

unfoldable pub insert_event : SessionEvent → Database → Database
insert_event e db = record db { session_events = db.session_events ++ e ∷ [] }

-- The write may fail, which is logged and forgotten.
unfoldable pub log_event : Bool → SessionEvent → Exec (Unit {0})
log_event true e = return tt
log_event false e = modify_db (insert_event e)

pub record EventFilters : Type 0 where
  pub user : Option String
  pub event_type : Option SessionEventType
  pub socket_id : Option String
  pub room_id : Option String
  pub request_id : Option String
  pub start_date : Option ℕ
  pub end_date : Option ℕ

-- A filter that is not set lets all events through.
abbrev pub if_given {ℓ} : {A : Type ℓ} → Option A → (A → Bool) → Bool
if_given none p = true
if_given (some a) p = p a

abbrev pub same_type : SessionEventType → SessionEventType → Bool
same_type SessionEventType.connect SessionEventType.connect = true
same_type SessionEventType.disconnect SessionEventType.disconnect = true
same_type SessionEventType.chat_joined SessionEventType.chat_joined = true
same_type SessionEventType.chat_left SessionEventType.chat_left = true
same_type _ _ = false

unfoldable pub is_shown : EventFilters → Option ℕ → SessionEvent → Bool
is_shown f user_id e =
    if_given user_id (λ u. e.user_id == u)
    && if_given f.event_type (same_type e.event_type)
    && if_given (non_empty f.socket_id) (is_text e.socket_id)
    && if_given (non_empty f.room_id) (is_text e.room_id)
    && if_given (non_empty f.request_id) (is_text e.request_id)
    && if_given f.start_date (λ t. leb t e.created_at)
    && if_given f.end_date (λ t. leb e.created_at t)

pub record FoundEvents : Type 0 where
  pub events : List SessionEvent
  pub total : ℕ

abbrev pub found_events : EventFilters → Option ℕ → (limit offset : ℕ) → Database → FoundEvents
found_events f user_id limit offset db =
    let shown = sort_desc (λ e. e.created_at) (select (is_shown f user_id) db.session_events) in
    record { events = take limit (drop offset shown); total = length shown }

abbrev pub no_events : FoundEvents
no_events = record { events = []; total = 0 }

-- The user is looked up by display name or address.
unfoldable pub find_named_user : (String → String) → String → Database → Option User
find_named_user to_lower_case name db =
    find_one
      (λ u. str_eq u.display_name (to_lower_case name) || str_eq u.email (to_lower_case name))
      db.users

unfoldable pub find_events :
    (String → String) → EventFilters → (limit offset : ℕ) → Exec FoundEvents
find_events to_lower_case f limit offset =
    if_found (non_empty f.user) (gets (λ w. found_events f none limit offset w.db)) λ name. do
      found ← gets (λ w. find_named_user to_lower_case name w.db)
      if_found found (return no_events)
          λ u. gets (λ w. found_events f (some u.id) limit offset w.db)

abbrev pub days : ℕ → ℕ
days n = n * 24 * 60 * 60 * 1000

-- `LessThan(date)`
abbrev pub is_older : ℕ → SessionEvent → Bool
is_older t e = ltb e.created_at t

unfoldable pub delete_older : ℕ → Database → Database
delete_older t db = record db { session_events = remove_where (is_older t) db.session_events }

-- An exception of the deletion is logged and forgotten.
unfoldable pub cleanup_old_events : Bool → ℕ → Exec (Unit {0})
cleanup_old_events true now = return tt
cleanup_old_events false now = modify_db (delete_older (now - days 30))

pub record EventStats : Type 0 where
  pub total : ℕ
  pub last_24_hours : ℕ
  pub last_7_days : ℕ
  pub by_type : SessionEventType → ℕ

unfoldable pub get_event_stats : ℕ → Database → EventStats
get_event_stats now db = record {
  total = count (λ _. true) db.session_events;
  last_24_hours = count (is_older (now - days 1)) db.session_events;
  last_7_days = count (is_older (now - days 7)) db.session_events;
  by_type = λ t. count (λ e. same_type e.event_type t) db.session_events;
}
