-- ===== src/Island.antt =====
-- The island in the frontend: the zones of the map, the session and the quests of a guest, and the
-- simulated guests (frontend/src/features/map, stores/session-store.ts, features/quests and
-- features/simulation).
pub mod Zones
pub mod Session
pub mod Quests
pub mod Days
pub mod Simulation
mod Tests
