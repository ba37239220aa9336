-- ===== src/Save/RoundTrip.antt =====
-- What is saved is what is loaded.
pub mod Chunks
pub mod Entries
pub mod Order
pub mod Build
pub mod Slots
pub mod Records
pub mod Dropped
pub mod Undo
pub mod History
pub mod Whole
