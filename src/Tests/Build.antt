-- ===== src/Tests/Build.antt =====
-- The build state, its progression and its migration at concrete inputs.
use codex_of_power_ng.Base.Word.{u32_max}
use codex_of_power_ng.Build.Progression.Rollback.Settle.{dropped_slots}
use codex_of_power_ng.Base.{◌≢◌, ◌-◌, ◌↔◌, ◌<◌, ◌≡◌, ◌≤◌, refl, true, none, List, [], ◌∷◌, arith}
use codex_of_power_ng.Base.Int.{pos}
use codex_of_power_ng.Build.Types.{
  BuildDiscipline, attack1, attack2, build_option_def, pending_cleanup, not_started,
}
use codex_of_power_ng.Build.Slots.{no_slots, find_option, is_slot_compatible}
use codex_of_power_ng.Build.StateStore.{
  build_points_for_discipline, score_for_discipline, set_active_slot,
}
use codex_of_power_ng.Build.StateStore.SetSlot.{set_active_slot_correct}
use codex_of_power_ng.Build.StateStore.Validity.{MayStand, IsValidBuild}
use codex_of_power_ng.Build.Tiers.{
  get_next_build_points_threshold_centi, next_tier_correct, next_threshold_above_iff,
}
use codex_of_power_ng.Build.Progression.FormTypes.{try_resolve_discipline_from_form_type, weapon}
use codex_of_power_ng.Build.Progression.Contribution.{
  apply_registration_contribution, shift, saturating_sub, make_registration_contribution,
}
use codex_of_power_ng.Build.Progression.Rollback.{rollback_registration_contribution_detailed}
use codex_of_power_ng.Build.Progression.Rollback.Validity.{
  rollback-IsValidBuild, rollback_slots_exact,
}
use codex_of_power_ng.Build.Progression.RoundTrip.{
  make_registration_contribution_correct, apply-rollback, apply-rollback_totals,
}
use codex_of_power_ng.Build.History.{
  IsSound, run, run-IsSound, initial_state-IsSound, set_slot, contribute, roll_back, BuildCall,
}
use codex_of_power_ng.State.{BuildScoreContribution, RuntimeState, initial_state}

-- A weapon's registration.
abbrev weapon_contribution : BuildScoreContribution
weapon_contribution = record {
  discipline = BuildDiscipline.attack;
  record_delta = pos 1;
  points_delta_centi = pos 70;
}

-- A player with 500 attack centipoints and one attack option.
abbrev fighter : RuntimeState
fighter = record initial_state {
  attack_score = 6;
  attack_build_points_centi = 440;
  active_build_slots = record no_slots { at0 = "build.attack.ferocity" };
}

set_active_slot-fighter : (set_active_slot attack2 "build.attack.reserve" fighter).1 ≡ true
unfolding set_active_slot find_option build_option_def is_slot_compatible
set_active_slot-fighter = refl

-- 70 points less, and the option is no longer reached.
rollback_fighter :
    (rollback_registration_contribution_detailed weapon_contribution fighter).1.deactivated_slots
    ≡ 1
unfolding rollback_registration_contribution_detailed find_option build_option_def
    is_slot_compatible
rollback_fighter = refl

abbrev calls : List BuildCall
calls =
    contribute weapon_contribution
    ∷ set_slot attack1 "build.attack.ferocity"
    ∷ roll_back weapon_contribution
    ∷ []

run-IsSound_example : IsSound (run calls initial_state)
run-IsSound_example =
    run-IsSound calls initial_state (omega arith, (tt, (omega arith, tt))) initial_state-IsSound

rollback-IsValidBuild_example :
    IsValidBuild (rollback_registration_contribution_detailed weapon_contribution fighter).0
rollback-IsValidBuild_example = rollback-IsValidBuild weapon_contribution fighter refl

rollback_slots_exact_example :
    (rollback_registration_contribution_detailed weapon_contribution fighter).1.deactivated_slots
    ≡ dropped_slots
        (build_points_for_discipline (shift saturating_sub weapon_contribution fighter))
        fighter.active_build_slots
rollback_slots_exact_example = (rollback_slots_exact weapon_contribution fighter attack1 refl).3

initial_state-IsValidBuild : IsValidBuild initial_state
initial_state-IsValidBuild = initial_state-IsSound.build

apply-rollback_example :
    let (back, result) =
      rollback_registration_contribution_detailed weapon_contribution
        (apply_registration_contribution weapon_contribution initial_state).0 in
    (back ≡ initial_state) × (result.deactivated_slots ≡ 0)
unfolding score_for_discipline build_points_for_discipline
apply-rollback_example =
    apply-rollback weapon_contribution initial_state refl (omega arith, omega arith)
      initial_state-IsValidBuild

-- Nearly full totals: the round trip loses 70 points.
abbrev veteran : RuntimeState
veteran = record initial_state { attack_score = 9; attack_build_points_centi = u32_max }

apply-rollback_totals_example :
    let back =
      (rollback_registration_contribution_detailed weapon_contribution
        (apply_registration_contribution weapon_contribution veteran).0).0 in
    (back.attack_score ≡ 9) × (back.attack_build_points_centi ≡ u32_max - 70)
unfolding score_for_discipline build_points_for_discipline
apply-rollback_totals_example =
    apply-rollback_totals weapon_contribution veteran refl (omega arith) (omega arith)

set_active_slot_correct_example :
    ((set_active_slot attack2 "build.attack.reserve" fighter).1 ≡ true) ↔ (
      (not_started ≢ pending_cleanup)
      × MayStand (build_points_for_discipline fighter) attack2 (find_option "build.attack.reserve"))
set_active_slot_correct_example = (set_active_slot_correct attack2 "build.attack.reserve" fighter).0

next_tier_correct_example : get_next_build_points_threshold_centi 799 ≤ 1600
next_tier_correct_example = (next_tier_correct 799 (omega arith)).2 1600 (omega arith) refl

next_threshold_above_iff_example :
    (u32_max < get_next_build_points_threshold_centi u32_max) ↔ (u32_max < 4294967200)
next_threshold_above_iff_example = next_threshold_above_iff u32_max (omega arith)

make_registration_contribution_correct_example :
    (make_registration_contribution 0 weapon ≢ none)
    ↔ ((0 ≤ 5) × (try_resolve_discipline_from_form_type weapon ≢ none))
make_registration_contribution_correct_example = (make_registration_contribution_correct weapon 0).0
