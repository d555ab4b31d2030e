-- ===== src/Data.antt =====
-- skyhook/data.go: the data of items.
pub mod Slices
pub mod Detection
pub mod Synchronized
