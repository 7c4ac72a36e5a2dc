-- ===== src/Client.antt =====
-- The frontend's client of the services' APIs (frontend/src/lib/api-client.ts).
pub mod Errors
pub mod Sharing
mod Tests
