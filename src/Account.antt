-- ===== src/Account.antt =====
-- The account pages of apps/web/src/pages.
pub mod Devices
pub mod Sessions
