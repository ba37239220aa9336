-- ===== src/Save/AnyFile.antt =====
-- src/SerializationLoad.cpp: what a load gives, whatever the file holds.
pub mod Yields
pub mod Lists
pub mod Undo
pub mod Records
pub mod Whole
