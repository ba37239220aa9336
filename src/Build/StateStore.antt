-- ===== src/Build/StateStore.antt =====
-- src/BuildStateStore.cpp: the accessors of the build state. Each runs under the state's mutex, so
-- it is one function from the state to the state.
pub mod Validity
pub mod SetSlot
use codex_of_power_ng.Base.{
  ℕ, Bool, true, false, Option, none, some, String, ltb, is_empty, not, if◌then◌else◌,
}
use codex_of_power_ng.Build.Types.{
  BuildDiscipline, BuildSlotId, BuildOptionDef, BuildMigrationState, not_started, pending_cleanup,
  complete, BuildMigrationNoticeSnapshot,
}
use codex_of_power_ng.Build.Slots.{find_option, is_slot_compatible, no_slots, slot_at, set_slot}
use codex_of_power_ng.State.{RuntimeState}

unfoldable pub score_for_discipline : RuntimeState → BuildDiscipline → ℕ
score_for_discipline state BuildDiscipline.attack = state.attack_score
score_for_discipline state BuildDiscipline.defense = state.defense_score
score_for_discipline state BuildDiscipline.utility = state.utility_score
score_for_discipline state (BuildDiscipline.other n) = 0

unfoldable pub build_points_for_discipline : RuntimeState → BuildDiscipline → ℕ
build_points_for_discipline state BuildDiscipline.attack = state.attack_build_points_centi
build_points_for_discipline state BuildDiscipline.defense = state.defense_build_points_centi
build_points_for_discipline state BuildDiscipline.utility = state.utility_build_points_centi
build_points_for_discipline state (BuildDiscipline.other n) = 0

unfoldable pub get_active_slot : RuntimeState → BuildSlotId → Option String
get_active_slot state slot_id =
    let value = slot_at state.active_build_slots slot_id in
    if is_empty value then none else some value

abbrev pub is_pending : BuildMigrationState → Bool
is_pending pending_cleanup = true
is_pending _ = false

store_slot : BuildSlotId → String → RuntimeState → RuntimeState
store_slot slot_id option_id state = record state {
  active_build_slots = set_slot slot_id option_id state.active_build_slots;
}

-- The tests that follow the lookup of the option.
set_found_slot : BuildSlotId → String → Option BuildOptionDef → RuntimeState → RuntimeState × Bool
unfolding store_slot build_points_for_discipline
set_found_slot slot_id option_id none state = (state, false)
set_found_slot slot_id option_id (some option) state =
    if not (is_slot_compatible option slot_id)
    then (state, false)
    else if ltb (build_points_for_discipline state option.discipline) option.unlock_points_centi
    then (state, false)
    else (store_slot slot_id option_id state, true)

unfoldable pub set_active_slot : BuildSlotId → String → RuntimeState → RuntimeState × Bool
unfolding set_found_slot
set_active_slot slot_id option_id state =
    if is_pending state.build_migration_state
    then (state, false)
    else set_found_slot slot_id option_id (find_option option_id) state

unfoldable pub clear_active_slot : BuildSlotId → RuntimeState → RuntimeState
unfolding store_slot
clear_active_slot slot_id state = store_slot slot_id "" state

unfoldable pub clear_active_slots : RuntimeState → RuntimeState
clear_active_slots state = record state { active_build_slots = no_slots }

unfoldable pub set_migration_state : BuildMigrationState → RuntimeState → RuntimeState
set_migration_state migration_state state = record state { build_migration_state = migration_state }

unfoldable pub set_migration_version : ℕ → RuntimeState → RuntimeState
set_migration_version version state = record state { build_migration_version = version }

unfoldable pub set_migration_notice_snapshot :
    BuildMigrationNoticeSnapshot → RuntimeState → RuntimeState
set_migration_notice_snapshot snapshot state = record state { build_migration_notice = snapshot }
