-- ===== src/Save.antt =====
-- The save of the state: src/SerializationSave.cpp and SerializationLoad.cpp.
pub mod Bytes
pub mod Format
pub mod Writer
pub mod Loader
pub mod Load
pub mod RoundTrip
pub mod AnyFile
