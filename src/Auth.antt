-- ===== src/Auth.antt =====
-- apps/web/src/auth and the routes of apps/web/src/App.tsx.
pub mod Routes
pub mod Provider
pub mod Joint
pub mod ClientInstance
pub mod Webauthn
pub mod Shell
pub mod Login
mod Tests
mod SessionTests
