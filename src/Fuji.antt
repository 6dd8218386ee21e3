-- ===== src/Fuji.antt =====
-- catalog/fuji.go: the Fujifilm maker note.
pub mod Bytes
pub mod Note
pub mod Tables
pub mod Decode
pub mod Recipes
pub mod Vocabulary
pub mod Reads
pub mod Safe
