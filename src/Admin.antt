-- ===== src/Admin.antt =====
-- admin/admin.service.ts: pages of users, bans, password resets and the list of sockets; the export is
-- in Export. `like` is SQL's LIKE, of a value and a pattern. A page and a limit are at least 1, by
-- their DTO. The number of rows that an update affects is that of the rows that it matches.
pub mod Export
pub mod Reader
pub mod Csv
pub mod Bans
use drawback_backend.Prelude.{
  ℕ, suc, String, Bool, true, false, List, [], ◌∷◌, ◌++◌, Option, none, some, ◌+◌, ◌-◌, ◌*◌, ◌==◌,
  ◌&&◌, not, length, find_one, select, count, any, take, drop, map, update_where, sort_desc,
  non_empty, str_eq, if◌then◌else◌,
}
use Prim.Native.String.{◌++◌ as append}
use drawback_backend.Schema.{Database}
use drawback_backend.Schema.Enums.{UserMode, AdminAction, is_public}
use drawback_backend.Schema.Entities.{User, AuditLog}
use drawback_backend.World.{
  World, Exec, return, gets, modify_db, send, mail_password_reset, ◌>>=◌, ◌>>◌,
}
use drawback_backend.World.Realtime.{RoomId}
use drawback_backend.Users.Queries.{find_by_id}
use drawback_backend.Users.Profile.{save_user}
use drawback_backend.Auth.{hours, reset_token_ttl_hours}
use drawback_backend.Realtime.Sockets.{SocketInfo, get_active_sockets_metadata}

pub record Page {ℓ} (A : Type ℓ) : Type ℓ where
  pub rows : List A
  pub total : ℕ
  pub page : ℕ
  pub limit : ℕ

-- `skip` and `take` of a query, and the number of all its rows.
unfoldable pub page_of {ℓ} : {A : Type ℓ} → (page limit : ℕ) → List A → Page A
page_of page limit xs = record {
  rows = take limit (drop ((page - 1) * limit) xs);
  total = length xs;
  page = page;
  limit = limit;
}

unfoldable pub list_users : (page limit : ℕ) → Exec (Page User)
list_users page limit = gets (λ w. page_of page limit (sort_desc (λ u. u.created_at) w.db.users))

pub record UserFilter : Type 0 where
  pub mode : Option UserMode
  pub appear_in_searches : Option Bool
  pub appear_in_discovery_game : Option Bool
  pub is_blocked : Option Bool
  pub is_activated : Option Bool

abbrev pub same_bool : Bool → Bool → Bool
same_bool true b = b
same_bool false b = not b

-- A test of a column against a value that may be missing.
abbrev pub allows : Option Bool → Bool → Bool
allows none b = true
allows (some a) b = same_bool a b

abbrev pub allows_mode : Option UserMode → UserMode → Bool
allows_mode none m = true
allows_mode (some a) m = same_bool (is_public a) (is_public m)

unfoldable pub matches : UserFilter → User → Bool
matches f u =
    allows_mode f.mode u.mode
    && allows f.appear_in_searches u.appear_in_searches
    && allows f.appear_in_discovery_game u.appear_in_discovery_game
    && allows f.is_blocked u.is_blocked
    && allows f.is_activated u.is_activated

unfoldable pub filter_users : UserFilter → (page limit : ℕ) → Exec (Page User)
filter_users f page limit =
    gets (λ w. page_of page limit (sort_desc (λ u. u.created_at) (select (matches f) w.db.users)))

pub data SearchField : Type 0 where
  display_name email : SearchField

abbrev pub meets : (String → String) → (String → String → Bool) → SearchField → String → User → Bool
meets to_lower_case like SearchField.display_name q u =
    like u.display_name (append (to_lower_case q) "%")
meets to_lower_case like SearchField.email q u = like u.email (append "%" (append q "%"))

unfoldable pub search_users :
    (String → String)
    → (String → String → Bool)
    → SearchField
    → String
    → (page limit : ℕ) → Exec (Page User)
search_users to_lower_case like field q page limit = gets (λ w.
    page_of page limit
      (sort_desc (λ u. u.created_at) (select (meets to_lower_case like field q) w.db.users)))

unfoldable pub get_user_details : ℕ → Exec (Option User)
get_user_details user_id = gets (λ w. find_by_id user_id w.db)

-- `In(ids)`
abbrev pub is_one_of : List ℕ → User → Bool
is_one_of ids u = any (λ i. i == u.id) ids

unfoldable pub change_users : List ℕ → (User → User) → Database → Database
change_users ids change db = record db { users = update_where (is_one_of ids) change db.users }

unfoldable pub insert_log : AuditLog → Database → Database
insert_log l db = record db { audit_logs = db.audit_logs ++ l ∷ [] }

abbrev pub new_log : ℕ → ℕ → ℕ → AdminAction → List ℕ → Option String → List ℕ → AuditLog
new_log id now admin_id action ids reason failed = record {
  id = id;
  admin_id = admin_id;
  action = action;
  target_user_ids = ids;
  reason = reason;
  failed_user_ids = failed;
  created_at = now;
}

abbrev pub banned : ℕ → Option String → User → User
banned now reason u = record u { is_blocked = true; blocked_at = some now; blocked_reason = reason }

abbrev pub unbanned : User → User
unbanned u = record u { is_blocked = false; blocked_at = none; blocked_reason = none }

unfoldable pub ban_users : ℕ → ℕ → User → List ℕ → Option String → Exec ℕ
ban_users id now admin ids reason = do
  affected ← gets (λ w. count (is_one_of ids) w.db.users)
  modify_db (change_users ids (banned now (non_empty reason)))
  modify_db (insert_log (new_log id now admin.id AdminAction.ban_user ids (non_empty reason) []))
  return affected

unfoldable pub unban_users : ℕ → ℕ → User → List ℕ → Exec ℕ
unban_users id now admin ids = do
  affected ← gets (λ w. count (is_one_of ids) w.db.users)
  modify_db (change_users ids unbanned)
  modify_db (insert_log (new_log id now admin.id AdminAction.unban_user ids none []))
  return affected

pub record Resets : Type 0 where
  pub emails_sent : ℕ
  pub failed : List ℕ

abbrev pub with_reset : ℕ → ℕ → User → User
with_reset now token u = record u {
  reset_token = some token;
  reset_token_expiry = some (now + hours reset_token_ttl_hours);
}

-- The loop: the row is saved before the mail goes out. `token` is the token made for a user, and
-- `mail_fails` says whether the mail to an address raises.
unfoldable pub reset_all : ℕ → (ℕ → ℕ) → (String → Bool) → List User → Resets → Exec Resets
reset_all now token mail_fails [] r = return r
reset_all now token mail_fails (u ∷ us) r =
    modify_db (save_user (with_reset now (token u.id) u))
    >> (if mail_fails u.email
        then reset_all now token mail_fails us (record r { failed = r.failed ++ u.id ∷ [] })
        else (send (mail_password_reset u.email (token u.id) u.display_name)
            >> reset_all now token mail_fails us (record r { emails_sent = suc r.emails_sent })))

abbrev pub no_resets : Resets
no_resets = record { emails_sent = 0; failed = [] }

unfoldable pub reset_user_passwords :
    ℕ → ℕ → (ℕ → ℕ) → (String → Bool) → User → List ℕ → Exec Resets
reset_user_passwords id now token mail_fails admin ids = do
  users ← gets (λ w. select (is_one_of ids) w.db.users)
  r ← reset_all now token mail_fails users no_resets
  modify_db (insert_log (new_log id now admin.id AdminAction.reset_password ids none r.failed))
  return r

-- A socket with its user, whose address and name are `unknown` if there is none or if they are empty.
pub record SocketView : Type 0 where
  pub user_id : ℕ
  pub user_email : String
  pub user_display_name : String
  pub socket_id : ℕ
  pub connected_at : ℕ
  pub current_room : Option RoomId
  pub ip_address : String
  pub user_agent : String

abbrev pub or_unknown : Option String → String
or_unknown none = "unknown"
or_unknown (some s) = if str_eq s "" then "unknown" else s

abbrev pub email_of : Option User → Option String
email_of none = none
email_of (some u) = some u.email

abbrev pub name_of : Option User → Option String
name_of none = none
name_of (some u) = some u.display_name

abbrev pub socket_view : Database → SocketInfo → SocketView
socket_view db s = record {
  user_id = s.user_id;
  user_email = or_unknown (email_of (find_by_id s.user_id db));
  user_display_name = or_unknown (name_of (find_by_id s.user_id db));
  socket_id = s.socket_id;
  connected_at = s.connected_at;
  current_room = s.current_room;
  ip_address = s.ip_address;
  user_agent = s.user_agent;
}

abbrev pub map_page {ℓ κ} : {A : Type ℓ} {B : Type κ} → (A → B) → Page A → Page B
map_page f p = record { rows = map f p.rows; total = p.total; page = p.page; limit = p.limit }

-- `keys` is Redis's answer.
unfoldable pub get_active_sockets : List ℕ → (page limit : ℕ) → Exec (Page SocketView)
get_active_sockets keys page limit = do
  all ← get_active_sockets_metadata keys
  gets (λ w. map_page (socket_view w.db) (page_of page limit (sort_desc (λ s. s.connected_at) all)))
