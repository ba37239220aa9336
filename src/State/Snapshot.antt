-- ===== src/State/Snapshot.antt =====
-- include/CodexOfPowerNG/SerializationStateStore.h and SerializationStateStoreOps.h: the copy of the
-- state that is saved and loaded.
use codex_of_power_ng.Base.{ℕ, List, []}
use codex_of_power_ng.Build.Types.{
  BuildMigrationState, BuildMigrationNoticeSnapshot, not_started, empty_notice,
}
use codex_of_power_ng.Build.Slots.{Slots, no_slots}
use codex_of_power_ng.State.{FormId, ActorValue, Float32, UndoRecord, RuntimeState}

pub record Snapshot : Type 0 where
  pub registered_items : List (FormId × ℕ)
  pub blocked_items : List FormId
  pub notified_items : List FormId
  pub reward_totals : List (ActorValue × Float32)
  pub build_applied_effect_totals : List (ActorValue × Float32)
  pub attack_score : ℕ
  pub defense_score : ℕ
  pub utility_score : ℕ
  pub attack_build_points_centi : ℕ
  pub defense_build_points_centi : ℕ
  pub utility_build_points_centi : ℕ
  pub active_build_slots : Slots
  pub build_migration_version : ℕ
  pub build_migration_state : BuildMigrationState
  pub build_migration_notice : BuildMigrationNoticeSnapshot
  pub undo_history : List UndoRecord
  pub undo_next_action_id : ℕ

unfoldable pub snapshot_state : RuntimeState → Snapshot
snapshot_state state = record {
  registered_items = state.registered_items;
  blocked_items = state.blocked_items;
  notified_items = state.notified_items;
  reward_totals = state.reward_totals;
  build_applied_effect_totals = state.build_applied_effect_totals;
  attack_score = state.attack_score;
  defense_score = state.defense_score;
  utility_score = state.utility_score;
  attack_build_points_centi = state.attack_build_points_centi;
  defense_build_points_centi = state.defense_build_points_centi;
  utility_build_points_centi = state.utility_build_points_centi;
  active_build_slots = state.active_build_slots;
  build_migration_version = state.build_migration_version;
  build_migration_state = state.build_migration_state;
  build_migration_notice = state.build_migration_notice;
  undo_history = state.undo_history;
  undo_next_action_id = state.undo_next_action_id;
}

-- The state is overwritten field by field.
unfoldable pub replace_state : RuntimeState → Snapshot → RuntimeState
replace_state state snapshot = record state {
  registered_items = snapshot.registered_items;
  blocked_items = snapshot.blocked_items;
  notified_items = snapshot.notified_items;
  reward_totals = snapshot.reward_totals;
  build_applied_effect_totals = snapshot.build_applied_effect_totals;
  attack_score = snapshot.attack_score;
  defense_score = snapshot.defense_score;
  utility_score = snapshot.utility_score;
  attack_build_points_centi = snapshot.attack_build_points_centi;
  defense_build_points_centi = snapshot.defense_build_points_centi;
  utility_build_points_centi = snapshot.utility_build_points_centi;
  active_build_slots = snapshot.active_build_slots;
  build_migration_version = snapshot.build_migration_version;
  build_migration_state = snapshot.build_migration_state;
  build_migration_notice = snapshot.build_migration_notice;
  undo_history = snapshot.undo_history;
  undo_next_action_id = snapshot.undo_next_action_id;
}

unfoldable pub clear : RuntimeState → ℕ → RuntimeState
clear state reset_undo_next_action_id = record state {
  registered_items = [];
  blocked_items = [];
  notified_items = [];
  reward_totals = [];
  build_applied_effect_totals = [];
  attack_score = 0;
  defense_score = 0;
  utility_score = 0;
  attack_build_points_centi = 0;
  defense_build_points_centi = 0;
  utility_build_points_centi = 0;
  active_build_slots = no_slots;
  build_migration_version = 0;
  build_migration_state = not_started;
  build_migration_notice = empty_notice;
  undo_history = [];
  undo_next_action_id = reset_undo_next_action_id;
}

-- `Snapshot{}`
abbrev pub empty_snapshot : Snapshot
empty_snapshot = record {
  registered_items = [];
  blocked_items = [];
  notified_items = [];
  reward_totals = [];
  build_applied_effect_totals = [];
  attack_score = 0;
  defense_score = 0;
  utility_score = 0;
  attack_build_points_centi = 0;
  defense_build_points_centi = 0;
  utility_build_points_centi = 0;
  active_build_slots = no_slots;
  build_migration_version = 0;
  build_migration_state = not_started;
  build_migration_notice = empty_notice;
  undo_history = [];
  undo_next_action_id = 1;
}
