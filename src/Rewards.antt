-- ===== src/Rewards.antt =====
-- The rewards' synchronisation with the player: src/Rewards*.cpp and their headers.
pub mod Sync
pub mod Caps
pub mod Totals
