-- ===== src/Hub.antt =====
-- The broadcast service (services/broadcast/src): the event bus, and the routes that post to it.
pub mod Bus
pub mod Routes
pub mod Admin
pub mod Streams
pub mod Publishing
mod Tests
