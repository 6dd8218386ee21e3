-- ===== src/Pages.antt =====
-- catalog/query.go: the gallery's pages.
pub mod Cursor
pub mod Page
pub mod Order
pub mod Complete
