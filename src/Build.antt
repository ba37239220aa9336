-- ===== src/Build.antt =====
-- The build system: include/CodexOfPowerNG/BuildTypes.h and src/Build*.cpp.
pub mod Types
pub mod Catalog
pub mod Slots
pub mod Tiers
pub mod Magnitude
pub mod StateStore
pub mod Progression
pub mod History
pub mod Migration
