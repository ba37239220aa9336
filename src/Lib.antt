-- ===== src/Lib.antt =====
-- The core of Codex of Power NG, a plugin for Skyrim in C++: the player registers items, which are
-- consumed; each registration adds to the score and to the build points of a discipline; build
-- points unlock options, which the player puts into the slots of a build; the newest registrations
-- can be undone; and saves of older versions are migrated.
--
-- The parts and how they meet. All components share one state, `RuntimeState` of
-- include/CodexOfPowerNG/State.h (State), under one mutex. An operation of a state store takes the
-- mutex for its whole body, so it is one function from a state to a state and a result. The
-- contributions and rollbacks of src/BuildProgression.cpp are several such calls, and are modelled
-- as one run of them without another thread's call in between. A registration asks the
-- register key of the item, adds it to the registered items, applies the contribution and pushes
-- an undo record; an undo pops the record, removes the item, rolls the contribution back and clears
-- the slots that are no longer reached; a load replaces the state by a snapshot that the migration
-- has normalised.
--
-- Files and code:
-- - Base: shared names, Boolean tests, lists, signed and machine-width numbers, maps with number
--   keys as lists (Keyed).
-- - State, State/Snapshot: include/CodexOfPowerNG/State.h, RegistrationUndoTypes.h,
--   SerializationStateStore.h and SerializationStateStoreOps.h.
-- - Build/Types, Build/Catalog, Build/Tiers: include/CodexOfPowerNG/BuildTypes.h and the table and
--   the tiers of src/BuildOptionCatalog.cpp.
-- - Build/Slots, Build/StateStore: src/BuildStateStore.cpp (SetActiveSlot is `set_active_slot`).
-- - Build/Progression: src/BuildProgression.cpp, contributions and their rollback; Build/History
--   runs its operations and those of the slots in any order.
-- - Build/Migration: src/BuildProgression.cpp, NormalizeLoadedSnapshot, TryFinalizePendingMigration
--   and ConsumeMigrationNotice.
-- - Registration/Store: src/RegistrationStateStore.cpp, the registered and blocked items and the
--   undo history.
-- - Registration/Game: what the plugin reads of the game's forms, a parameter, since the game's
--   library is not in the repository. A pointer to a form is the form's number.
-- - Registration/Keys: GetRegisterKey of src/RegistrationInternalMaps.cpp.
-- - Registration/Exclusion: the exclusion tests of src/RegistrationInternalMaps.cpp and
--   src/RegistrationRules.cpp.
-- - Registration/TccGate: include/CodexOfPowerNG/RegistrationTccGate.h and EvaluateTccGate of
--   src/RegistrationInternalTcc.cpp.
-- - Registration/QuickList: the pages and the cache of src/RegistrationQuickRegister.cpp, and the
--   builder of the list, src/RegistrationQuickListBuilder.cpp; QuickList/Cache lets threads
--   invalidate the cache, build and store in any order.
-- - Registration/UndoList: BuildRecentUndoList of src/RegistrationUndo.cpp.
-- - Events: the loot notification of src/Events.cpp, with the queries of src/Registration.cpp.
-- - Inventory: SelectSafeRemoval of src/Inventory.cpp.
-- - Rewards/Sync: include/CodexOfPowerNG/RewardsSyncPolicy.h and RewardsSyncRuntime.h, whose state is
--   not under the mutex: a function is its first atomic access and the list of the stores that
--   follow it, and Rewards/Sync/Threads interleaves them. Only the two loads of a decision are of
--   one state.
-- - Game: the arithmetic of singles and the numbers of the actor values, both parameters.
-- - Rewards/Caps: include/CodexOfPowerNG/RewardCaps.h. Rewards/Totals: RewardStateStoreOps.h, and
--   RollbackRewardDeltas of src/Rewards.cpp.
-- - Build/Magnitude: the scaled magnitudes and effect bundles of src/BuildOptionCatalog.cpp.
-- - Effects: src/BuildEffectRuntime.cpp, from the active options to the player's actor values.
-- - Flows: TryRegisterItem of src/RegistrationQuickRegister.cpp (Flows/Register) and
--   TryUndoRegistration of src/RegistrationUndo.cpp (Flows/Undo), each as one run. The game is the
--   list of the calls made to it; what it answers is any function of them.
-- - Save/Bytes, Save/Format: the bytes of words, and the constants of the records.
-- - Save/Writer: src/SerializationSave.cpp and SerializationWriteFlow.h. A record is the sequence of
--   its writes, any of which the interface can refuse.
-- - Save/Loader, Save/Load: src/SerializationLoad.cpp, and Revert. A record is what the file announces
--   of it and the bytes that can be read, which are fewer in a damaged file.
-- - Save/RoundTrip: what a load makes of the bytes of a save. Save/AnyFile: what it makes of any bytes.
-- - Tests: runs at concrete inputs.
-- A C++ name in camel case is written here in snake case; a field keeps its name in the same way.
--
-- Numbers. Unsigned words are natural numbers with their wrap-around written out (`add32`,
-- `add64`, `sub32`); the ranges of the totals are hypotheses or part of an invariant. Signed
-- deltas are `ℤ`. A float is its bits in the state, and a number of thousandths in the table
-- of options; the operations on floats are the fields of `FloatOps`.
--
-- Bounds and fuel. The loop of GetRegisterKey takes at most eight steps in the source, and that is
-- the fuel of `walk_variants`. The reader of pages is run with one more step than the list has
-- items. The loops of a load are recursions on the counts that they read, and stop where the
-- record ends. Every other loop is a recursion on the list that it reads.
--
-- Not modelled. The grants of random rewards and the sync engine (src/Rewards.cpp,
-- RewardsSyncEngine.cpp), the settings (src/Config.cpp), the quest guard, which is an argument of the
-- flows; in a load, the function Skip, which only moves on within a record; the user interface
-- (src/PrismaUI*.cpp and PrismaUI/views) and the threads, which are calls of the game's and of the
-- interface's libraries; log lines and texts, of which a result keeps only the reason. The flows are
-- runs without another thread's call in between. Hash maps and sets are lists in an order that no
-- result may depend on, except where an order is stated.
pub mod Base
pub mod Build
pub mod State
pub mod Game
pub mod Effects
pub mod Flows
pub mod Registration
pub mod Rewards
pub mod Save
pub mod Events
pub mod Inventory
mod Tests
