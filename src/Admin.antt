-- ===== src/Admin.antt =====
-- The administration of readers, apps/web/src/pages/AdminReadersPage.tsx.
pub mod ReaderDetail
pub mod ReaderList
pub mod Issuing
pub mod Security
pub mod Site
mod Tests
