-- ===== src/Hotel.antt =====
-- The hotel service (services/hotel): its data and database interface, the reservation and room
-- operations, and, in the children of those, their theorems.
pub mod Types
pub mod Prisma
pub mod Airport
pub mod Events
pub mod Party
pub mod Reservations
pub mod Clock
pub mod Rooms
mod Tests
