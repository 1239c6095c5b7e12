-- ===== src/World.antt =====
-- The state that a request of the server changes: the database, the sockets with what the gateway
-- keeps about them (its Maps, the Redis keys, the rooms), and the messages that go out.
mod Monad
pub mod Realtime
pub mod Rules
pub mod Quiet
pub mod Preserves
unfoldable pub use Monad.*
