-- ===== src/Feed.antt =====
-- The frontend's live feed: the events that the broadcast service streams, read, put under channels
-- and kept (frontend/src/types/broadcast.ts, features/broadcast/hooks/use-broadcast.ts and
-- stores/events-store.ts).
pub mod Channels
pub mod Normalize
pub mod Store
pub mod Connection
pub mod Journey
pub mod Tests
