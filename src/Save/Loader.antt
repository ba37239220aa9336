-- ===== src/Save/Loader.antt =====
-- The load of a co-save: src/SerializationLoad.cpp.
pub mod Entries
pub mod Build
pub mod Undo
