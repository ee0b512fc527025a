-- ===== src/Catalogue.antt =====
-- The books, series and editions of apps/web/src: their forms and pages.
pub mod EditionForm
pub mod SeriesDetail
pub mod SeriesList
pub mod BookDetail
