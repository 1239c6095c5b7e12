-- ===== src/Chat.antt =====
-- chat/chat.service.ts.
pub mod Requests
pub mod Saved
pub mod Groups
pub mod Steps
pub mod GroupSteps
pub mod Machine
