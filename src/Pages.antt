-- ===== src/Pages.antt =====
-- The pages of the web app (frontend/src/features and frontend/src/app): what they show for what the
-- hooks answer, and what their buttons do. A view is a value: the texts that say something, the lists
-- and the buttons with whether they can be pressed; icons and styles are left out.
pub mod Panels
pub mod Lighthouse
pub mod MapView
pub mod RewardCat
pub mod Guide
pub mod Visit
pub mod Conversation
pub mod RoomSummary
mod Tests
