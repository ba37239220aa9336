-- ===== src/Build/Progression/Rollback.antt =====
-- src/BuildProgression.cpp: `RollbackRegistrationContributionDetailed`.
pub mod Settle
pub mod Validity
use codex_of_power_ng.Base.{
  ℕ, ◌+◌, ◌-◌, Bool, true, false, ◌||◌, not, Option, none, some, List, [], ◌∷◌, String, ltb, ◌==◌,
  if◌then◌else◌,
}
use codex_of_power_ng.Build.Types.{BuildSlotId, BuildOptionDef}
use codex_of_power_ng.Build.Catalog.{initial_build_slot_layout}
use codex_of_power_ng.Build.Slots.{find_option, is_slot_compatible}
use codex_of_power_ng.Build.StateStore.{
  score_for_discipline, build_points_for_discipline, get_active_slot, clear_active_slot,
}
use codex_of_power_ng.Build.Progression.Contribution.{shift, saturating_sub, is_rejected}
use codex_of_power_ng.State.{RuntimeState, BuildScoreContribution}

pub record RollbackContributionResult : Type 0 where
  pub score_changed : Bool
  pub deactivated_slots : ℕ

-- `!option || !IsSlotCompatible(...) || CurrentBuildPointsCenti(...) < option->unlockPointsCenti`
should_deactivate : RuntimeState → BuildSlotId → Option BuildOptionDef → Bool
unfolding build_points_for_discipline
should_deactivate state slot_id none = true
should_deactivate state slot_id (some option) =
    not (is_slot_compatible option slot_id)
    || ltb (build_points_for_discipline state option.discipline) option.unlock_points_centi

-- One round of the loop over the slots, with the count of slots deactivated so far.
visit_slot : BuildSlotId → RuntimeState × ℕ → RuntimeState × ℕ
unfolding get_active_slot clear_active_slot should_deactivate
visit_slot slot_id (state, count) = elim (get_active_slot state slot_id) [
  | none ↦ (state, count)
  | some active_option ↦
      if should_deactivate state slot_id (find_option active_option)
      then (clear_active_slot slot_id state, count + 1)
      else (state, count)
]

pub visit_slots : List BuildSlotId → RuntimeState × ℕ → RuntimeState × ℕ
visit_slots [] acc = acc
visit_slots (slot_id ∷ rest) acc = visit_slots rest (visit_slot slot_id acc)

scores_differ : BuildScoreContribution → RuntimeState → RuntimeState → Bool
unfolding score_for_discipline build_points_for_discipline
scores_differ c s t =
    not (score_for_discipline t c.discipline == score_for_discipline s c.discipline)
    || not
        (build_points_for_discipline t c.discipline == build_points_for_discipline s c.discipline)

unfoldable pub rollback_registration_contribution_detailed :
    BuildScoreContribution → RuntimeState → RuntimeState × RollbackContributionResult
unfolding shift visit_slots visit_slot scores_differ
rollback_registration_contribution_detailed c state =
    if is_rejected c
    then (state, record { score_changed = false; deactivated_slots = 0 })
    else let lowered = shift saturating_sub c state in
      let (final, count) = visit_slots initial_build_slot_layout (lowered, 0) in
      (final, record { score_changed = scores_differ c state lowered; deactivated_slots = count })

unfoldable pub rollback_registration_contribution :
    BuildScoreContribution → RuntimeState → RuntimeState × ℕ
unfolding rollback_registration_contribution_detailed
rollback_registration_contribution c state =
    let (final, result) = rollback_registration_contribution_detailed c state in
    (final, result.deactivated_slots)
