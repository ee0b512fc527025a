-- ===== src/Reader.antt =====
-- apps/web/src/pages/ReaderPage.tsx: the reading position, its conflict-checked synchronisation with
-- the server, and moving between sections and editions.
pub mod State
pub mod Position
pub mod Saving
pub mod Navigation
pub mod Server
pub mod Display
pub mod Settings
pub mod Chrome
mod Tests
