-- ===== src/Parrot.antt =====
-- The guests' chat with the parrot (frontend/src/features/parrot).
pub mod Chat
pub mod Admin
mod Tests
