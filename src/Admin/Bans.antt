-- ===== src/Admin/Bans.antt =====
-- What a ban does to the requests of a user, and what lifting it does.
use drawback_backend.Prelude.{
  ℕ, String, true, false, List, Option, some, ◌≡◌, refl, ◌==◌, find_one-update_found, non_empty,
}
use drawback_backend.Schema.{Database}
use drawback_backend.Schema.Entities.{User}
use drawback_backend.World.{World, ok, err, unauthorized, ◌>>=◌}
use drawback_backend.Users.Queries.{find_by_id}
use drawback_backend.Realtime.Connections.{
  JwtPayload, handle_connection, refuse_connection, check_user,
}
use drawback_backend.Auth.{validate}
use drawback_backend.Admin.{
  is_one_of, change_users, insert_log, banned, unbanned, ban_users, unban_users,
}

module _ (id now : ℕ) (admin : User) (ids : List ℕ) (p : JwtPayload) (u : User)
    (named : is_one_of ids u ≡ true) where
  changed :
      (f : User → User) (db : Database)
      → ((x : User) → (f x).id ≡ x.id)
      → find_by_id p.sub db ≡ some u
      → find_by_id p.sub (change_users ids f db) ≡ some (f u)
  unfolding find_by_id change_users
  changed f db same h =
      find_one-update_found _ (is_one_of ids) f db.users u (λ x. rw (same x) refl) named h

  ban_row :
      (reason : Option String) (w : World)
      → find_by_id p.sub w.db ≡ some u
      → find_by_id p.sub (ban_users id now admin ids reason w).1.db
        ≡ some (banned now (non_empty reason) u)
  unfolding ban_users find_by_id insert_log ◌>>=◌
  ban_row reason w h = changed (banned now (non_empty reason)) w.db (λ x. refl) h

unban_row :
    (id now : ℕ) (admin : User) (ids : List ℕ) (p : JwtPayload) (u : User) (w : World)
    → is_one_of ids u ≡ true
    → find_by_id p.sub w.db ≡ some u
    → find_by_id p.sub (unban_users id now admin ids w).1.db ≡ some (unbanned u)
unfolding unban_users find_by_id insert_log ◌>>=◌
unban_row id now admin ids p u w named h =
    changed id now admin ids p u named unbanned w.db (λ x. refl) h

refused :
    (p : JwtPayload) (u : User) (w : World)
    → find_by_id p.sub w.db ≡ some u
    → u.is_activated ≡ true
    → u.is_blocked ≡ true
    → validate p w ≡ (err (unauthorized "Account has been blocked"), w)
unfolding validate ◌>>=◌
refused p u w h active blocked = rw (h, active, blocked, ◌>>=◌) refl

connection_refused :
    (p : JwtPayload) (u : User) (w : World)
    → find_by_id p.sub w.db ≡ some u
    → u.is_blocked ≡ true
    → (now socket : ℕ) (address agent : String)
    → handle_connection now socket (some p) address agent w
      ≡ refuse_connection socket "Account has been blocked" w
unfolding handle_connection check_user ◌>>=◌
connection_refused p u w h blocked now socket address agent = rw (h, blocked, ◌>>=◌) refl

accepted :
    (p : JwtPayload) (u : User) (w : World)
    → find_by_id p.sub w.db ≡ some u
    → u.is_activated ≡ true
    → u.is_blocked ≡ false
    → (p.session_version == u.session_version) ≡ true
    → validate p w ≡ (ok u, w)
unfolding validate ◌>>=◌
accepted p u w h active free version = rw (h, active, free, version, ◌>>=◌) refl

-- After an activated user is banned by an admin, with or without others, the guard refuses every
-- token of the user, of whatever session, and the gateway drops every socket that connects with one.
pub ban_users-refuses :
    (id now time socket : ℕ) (admin : User) (ids : List ℕ) (reason : Option String)
    (address agent : String) (p : JwtPayload) (u : User) (w : World)
    → find_by_id p.sub w.db ≡ some u
    → is_one_of ids u ≡ true
    → u.is_activated ≡ true
    → let w' = (ban_users id now admin ids reason w).1 in
      (validate p w' ≡ (err (unauthorized "Account has been blocked"), w'))
      × (handle_connection time socket (some p) address agent w'
          ≡ refuse_connection socket "Account has been blocked" w')
ban_users-refuses id now time socket admin ids reason address agent p u w h named active =
    let row = ban_row id now admin ids p u named reason w h in
    (refused p _ _ row active refl, connection_refused p _ _ row refl time socket address agent)

-- After the ban of an activated user is lifted, by whichever admin, the guard accepts the tokens of
-- the session that the user had before the ban, and no log in is needed.
pub unban_users-accepts :
    (id id' now now' : ℕ) (admin admin' : User) (ids ids' : List ℕ) (reason : Option String)
    (p : JwtPayload) (u : User) (w : World)
    → find_by_id p.sub w.db ≡ some u
    → is_one_of ids u ≡ true
    → is_one_of ids' u ≡ true
    → u.is_activated ≡ true
    → (p.session_version == u.session_version) ≡ true
    → let w' = (unban_users id' now' admin' ids' (ban_users id now admin ids reason w).1).1 in
      validate p w' ≡ (ok (unbanned (banned now (non_empty reason) u)), w')
unban_users-accepts id id' now now' admin admin' ids ids' reason p u w h named named' active
      version =
    let row = ban_row id now admin ids p u named reason w h in
    let lifted = unban_row id' now' admin' ids' p (banned now (non_empty reason) u) _ named' row in
    accepted p _ _ lifted active refl version
