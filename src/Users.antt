-- ===== src/Users.antt =====
-- users/users.service.ts.
pub mod Queries
pub mod Discovery
pub mod Found
pub mod Profile
pub mod Blocks
