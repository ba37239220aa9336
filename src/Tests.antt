-- ===== src/Tests.antt =====
-- Runs of the model at concrete inputs, and the theorems at inputs that meet their hypotheses.
mod Build
mod Migration
mod Registration
mod Rewards
mod QuickList
mod Inventory
mod Builder
mod Events
mod Values
mod Save
mod Effects
mod Flows
