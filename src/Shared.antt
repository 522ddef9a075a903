-- ===== src/Shared.antt =====
-- The value objects of internal/core/shared.
pub mod Channel
pub mod Id
pub mod Priority
pub mod Recipient
pub mod Cursor
