-- ===== src/Lib.antt =====
-- The drawback backend: a chat server in NestJS in which two users, or a group, draw together.
--
-- src/chat/chat.service.ts keeps chat requests, saved chats and groups in a database and tells the
-- gateway of src/realtime/draw.gateway.ts whom to notify and which rooms to close. The gateway holds
-- one socket for each user, the rooms, and the limits on drawing; it asks the chat service who may
-- enter a room. src/users/users.service.ts has the accounts' settings, blocks and discovery access,
-- src/auth/auth.service.ts registration, login, passkeys and tokens, src/reports/reports.service.ts
-- reports. src/purchases has the subscriptions: what the app buys is verified with the stores, whose
-- notifications then change it; users.service.ts reads from it who has access. src/notifications
-- sends what the gateway cannot deliver to the users' devices. src/admin changes users from outside,
-- so that auth.service.ts and the gateway refuse them; src/app-config keeps the settings.
-- src/session-events logs what the sockets do, and src/backup keeps dumps of the database.
--
-- The files:
-- - Prelude: tests, lists and tables, sorting, and the lemmas on them.
-- - Schema: the rows and tables of the database (the entities and enums under src/), and what a
--   deletion takes with it.
-- - World: a handler as a function of the world (database, gateway, effects sent so far) to a result
--   or an exception and the world that is left; rules for postconditions of handlers.
-- - Users: users.service.ts. Realtime: draw.gateway.ts. Chat: chat.service.ts, with the abstract
--   machines of requests (Steps) and of groups (GroupSteps) and the histories of calls (Machine).
--   Auth: auth.service.ts and jwt.strategy.ts, with Auth/Passkeys. Reports: reports.service.ts.
-- - Purchases: purchases.service.ts (Receipts, Access), apple-subscription-events.service.ts (Apple)
--   and subscription-events.service.ts (Google); Steps and Ledger have the invariant of their calls,
--   Repeats and Endings what notifications of the App Store do.
-- - Config: app-config.service.ts. Notifications: notifications.service.ts. Admin: admin.service.ts,
--   with the export of users (Export) and a reader of it (Reader, Csv). SessionEvents:
--   session-events.service.ts. Backup: backup.service.ts and mongo-backup.repository.ts, on a state of
--   their own.
-- - Examples: the theorems at concrete worlds.
--
-- Ids, tokens and times are natural numbers; times are milliseconds. `null` and `undefined` are
-- `none`. The time, the ids of new rows and random tokens are arguments of the operations, and where
-- it matters a new id is one that no row has. A table is the list of its rows, a query a predicate. A
-- Redis hash and a Map are functions of the key, and the keys do not expire. Each handler runs to its
-- end before the next begins. What is sent to sockets, mailers and the push service is appended to
-- the world's `outbox`. `toLowerCase`, bcrypt, the signing and checking of tokens, WebAuthn,
-- the stores, Firebase, the tools of MySQL, SQL's LIKE and the storage of images are parameters; where
-- a call of theirs may raise, its answer is an `Option`.
-- A row that is saved keeps the values of fields that are `undefined`, and a column whose relation was
-- loaded is written from the relation, as TypeORM does.
-- There is no fuel: all loops of these parts run over lists.
--
-- Not modelled: the set-up of the clients of the stores and of Firebase, the listener of Google's
-- messages, the text of mails, the storage of images, the tools of MySQL and the schedule of backups,
-- the cache, migrations, the controllers and the validation of requests by decorators: they hand
-- calls on to other systems. Interleavings of two handlers are left out too.
pub mod Prelude
pub mod Schema
pub mod World
pub mod Users
pub mod Realtime
pub mod Chat
pub mod Reports
pub mod Auth
pub mod Purchases
pub mod Config
pub mod Notifications
pub mod Admin
pub mod SessionEvents
pub mod Backup
pub mod Examples
