-- ===== src/Store.antt =====
-- catalog/store.go, catalog/query.go, catalog/types.go: the SQLite catalogue as tables of rows.
-- A nullable column is an Option; a statement is a function on the tables, in the order in which
-- SQLite keeps the rows. Clocks are arguments: `now` is the formatted UTC stamp.
pub mod Rows
pub mod Select
pub mod Discard
pub mod Edits
pub mod Chosen
pub mod Columns
