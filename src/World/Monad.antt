-- ===== src/World/Monad.antt =====
-- Handlers as functions of the world: a result or an exception, and the world that is left. What was
-- written before an exception stays written.
use drawback_backend.Prelude.{ℕ, String, Bool, true, false, List, [], ◌∷◌, ◌++◌, Option, none, some}
use drawback_backend.Schema.{Database}
use drawback_backend.Schema.Enums.{SessionEventType}
use drawback_backend.World.Realtime.{Realtime, RoomId, Map}

-- Nest's HTTP exceptions, with their messages; `error` is a plain `Error`.
pub data Exception : Type 0 where
  bad_request unauthorized forbidden not_found conflict internal_server_error error :
      String → Exception

pub data Result {ℓ} (A : Type ℓ) : Type ℓ where
  ok : A → Result A
  err : Exception → Result A

-- The events that sockets receive, with the parts of their payloads that depend on the state.
pub data Event : Type 0 where
  chat_requested : (request from : ℕ) → String → Event
  chat_response : (request : ℕ) → (accepted : Bool) → Option RoomId → (other : ℕ) → Event
  group_invite : (invitation group : ℕ) → String → (inviter : ℕ) → String → Event
  group_invite_response :
      (invitation group : ℕ) → String → (invitee : ℕ) → String → (accepted : Bool) → Event
  group_deleted : (group : ℕ) → Event
  group_removed : RoomId → Event
  group_member_left : (user : ℕ) → Event
  group_member_joined : (user : ℕ) → Event
  group_joined : RoomId → (group : ℕ) → (peers : List ℕ) → Event
  chat_joined : RoomId → (request : ℕ) → (peers : List ℕ) → Event
  room_closed : Event
  peer_left : Option ℕ → Event
  peer_joined : ℕ → Event
  peer_waiting : RoomId → (request waiting : ℕ) → Event
  left : Event
  stroke : (user : Option ℕ) → (drawing : String) → Event
  emote : (user : Option ℕ) → (drawing : String) → Event
  clear : (user : Option ℕ) → Event
  error_event : Exception → Event
  error_message : String → Event

-- Who receives an event: one socket, a room, or a room but for one socket.
pub data Target : Type 0 where
  socket : ℕ → Target
  room : RoomId → Target
  others : RoomId → ℕ → Target

-- What goes out: events, push notifications (notifications.service.ts), mails (mail.service.ts),
-- and rows of the session log (session-events.service.ts).
pub data Effect : Type 0 where
  emit : Target → Event → Effect
  push_chat_request : (to request from : ℕ) → String → Effect
  push_group_invite : (to invitation group : ℕ) → String → String → Effect
  push_peer_waiting : (to request : ℕ) → RoomId → (waiting : ℕ) → Option String → Effect
  mail_activation : String → ℕ → String → Effect
  mail_password_reset : String → ℕ → String → Effect
  mail_account_deletion : String → ℕ → String → Effect
  session_event : ℕ → SessionEventType → Effect

pub record World : Type 0 where
  pub db : Database
  pub realtime : Realtime
  -- The WebAuthn challenges of auth.service.ts, `challenge:<user>` in Redis.
  pub challenges : Map String
  pub outbox : List Effect

abbrev pub Exec {ℓ} : Type ℓ → Type ℓ
Exec A = World → Result A × World

module _ {ℓ} {A : Type ℓ} where
  unfoldable pub return : A → Exec A
  return a w = (ok a, w)

  unfoldable pub throw : Exception → Exec A
  throw e w = (err e, w)

  unfoldable pub gets : (World → A) → Exec A
  gets f w = (ok (f w), w)

  -- A missing value raises the exception.
  unfoldable pub or_throw : Option A → Exception → Exec A
  or_throw none e w = (err e, w)
  or_throw (some a) e w = (ok a, w)

unfoldable pub modify_db : (Database → Database) → Exec (Unit {0})
modify_db f w = (ok tt, record w { db = f w.db })

unfoldable pub modify_realtime : (Realtime → Realtime) → Exec (Unit {0})
modify_realtime f w = (ok tt, record w { realtime = f w.realtime })

unfoldable pub send : Effect → Exec (Unit {0})
send e w = (ok tt, record w { outbox = w.outbox ++ e ∷ [] })

unfoldable pub modify_challenges : (Map String → Map String) → Exec (Unit {0})
modify_challenges f w = (ok tt, record w { challenges = f w.challenges })

-- A guard of the source: `if (test) throw e`.
unfoldable pub throw_if : Bool → Exception → Exec (Unit {0})
throw_if true e w = (err e, w)
throw_if false e w = (ok tt, w)

-- `if (test) …; else …`, shut, so that rules find its parts.
unfoldable pub choose {ℓ} : {A : Type ℓ} → Bool → Exec A → Exec A → Exec A
choose true m n = m
choose false m n = n

module _ {ℓ κ} {A : Type ℓ} {B : Type κ} where
  -- `if (!x) …; else …`
  unfoldable pub if_found : Option A → Exec B → (A → Exec B) → Exec B
  if_found none m f = m
  if_found (some a) m f = f a

  abbrev pub continue : Result A → (A → Exec B) → Exec B
  continue (ok a) f w = f a w
  continue (err e) f w = (err e, w)

  infixl 10 ◌>>=◌
  -- Opening this opens the other actions too.
  unfoldable pub ◌>>=◌ : Exec A → (A → Exec B) → Exec B
  unfolding return throw gets or_throw modify_db modify_realtime modify_challenges send throw_if
      if_found choose
  ◌>>=◌ m f w = let (r, w') = m w in continue r f w'

infixl 10 ◌>>◌
abbrev pub ◌>>◌ {κ} : {B : Type κ} → Exec (Unit {0}) → Exec B → Exec B
m >> n = m >>= λ _. n
