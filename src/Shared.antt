-- ===== src/Shared.antt =====
-- apps/web/src/shared: the image whose file needs the access token.
pub mod ProtectedImage
mod Tests
