-- ===== src/Registration.antt =====
-- Registration of items and its undo: src/Registration*.cpp.
pub mod Store
pub mod Game
pub mod Keys
pub mod TccGate
pub mod QuickList
pub mod Exclusion
pub mod UndoList
