-- ===== src/Effects.antt =====
-- src/BuildEffectRuntime.cpp: the effects of the active options on the player's actor values.
pub mod Deltas
pub mod Totals
pub mod Sync
pub mod Turn
pub mod Accounts
