-- ===== src/Api.antt =====
-- apps/web/src/api: the HTTP client and its endpoints.
pub mod Types
pub mod Client
pub mod Endpoints
mod Tests
