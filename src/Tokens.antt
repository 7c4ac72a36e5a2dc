-- ===== src/Tokens.antt =====
-- The entertainment tokens of the web app (frontend/src/features/tokens).
pub mod Rules
pub mod Wallet
mod Tests
