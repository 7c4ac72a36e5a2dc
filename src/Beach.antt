-- ===== src/Beach.antt =====
-- The beach as the frontend has it (frontend/src/mocks/handlers/beach.ts and features/beach): the
-- handlers that keep the activities, and the page that books them with tokens.
pub mod Activities
pub mod Booking
pub mod Listing
mod Tests
