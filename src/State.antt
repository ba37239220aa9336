-- ===== src/State.antt =====
-- include/CodexOfPowerNG/State.h and RegistrationUndoTypes.h: the state that all components share.
-- A float is its 32-bit pattern, and an `RE::ActorValue` or `RE::FormID` is its number.
pub mod Snapshot
use codex_of_power_ng.Base.{ℕ, Option, List, []}
use codex_of_power_ng.Base.Int.{ℤ}
use codex_of_power_ng.Build.Types.{
  BuildDiscipline, BuildMigrationState, BuildMigrationNoticeSnapshot, not_started, empty_notice,
}
use codex_of_power_ng.Build.Slots.{Slots, no_slots}

abbrev pub FormId : Type 0
FormId = ℕ

abbrev pub ActorValue : Type 0
ActorValue = ℕ

-- The bits of an IEEE single.
abbrev pub Float32 : Type 0
Float32 = ℕ

abbrev pub undo_history_limit : ℕ
undo_history_limit = 10

pub record RewardDelta : Type 0 where
  pub av : ActorValue
  pub delta : Float32

pub record BuildScoreContribution : Type 0 where
  pub discipline : BuildDiscipline
  pub record_delta : ℤ
  pub points_delta_centi : ℤ

pub record UndoRecord : Type 0 where
  pub action_id : ℕ
  pub form_id : FormId
  pub reg_key : FormId
  pub group : ℕ
  pub build_contribution : Option BuildScoreContribution
  pub reward_deltas : List RewardDelta

-- A map is a list of pairs and a set is a list, in the order in which the container happens to
-- give them; the undo history has the oldest record first.
pub record RuntimeState : Type 0 where
  pub registered_items : List (FormId × ℕ)
  pub blocked_items : List FormId
  pub notified_items : List FormId
  pub reward_totals : List (ActorValue × Float32)
  pub build_applied_effect_totals : List (ActorValue × Float32)
  pub attack_score : ℕ
  pub defense_score : ℕ
  pub utility_score : ℕ
  pub attack_build_points_centi : ℕ
  pub defense_build_points_centi : ℕ
  pub utility_build_points_centi : ℕ
  pub active_build_slots : Slots
  pub build_migration_version : ℕ
  pub build_migration_state : BuildMigrationState
  pub build_migration_notice : BuildMigrationNoticeSnapshot
  pub undo_history : List UndoRecord
  pub undo_next_action_id : ℕ

-- `RuntimeState{}`
abbrev pub initial_state : RuntimeState
initial_state = record {
  registered_items = [];
  blocked_items = [];
  notified_items = [];
  reward_totals = [];
  build_applied_effect_totals = [];
  attack_score = 0;
  defense_score = 0;
  utility_score = 0;
  attack_build_points_centi = 0;
  defense_build_points_centi = 0;
  utility_build_points_centi = 0;
  active_build_slots = no_slots;
  build_migration_version = 0;
  build_migration_state = not_started;
  build_migration_notice = empty_notice;
  undo_history = [];
  undo_next_action_id = 1;
}
