-- ===== src/Upload.antt =====
-- The pages that upload files: apps/web/src/pages/UploadPage.tsx and
-- apps/web/src/pages/SeriesUploadPage.tsx.
pub mod Import
pub mod Series
mod Tests
