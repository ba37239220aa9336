-- ===== src/Build/Progression/Rollback/Validity.antt =====
-- The build after a contribution is applied or rolled back.
use codex_of_power_ng.Base.{ℕ, ◌≤◌, ◌≡◌, refl, false, arith, Bool-cases, inl, inr}
use codex_of_power_ng.Base.Word.{u32_max}
use codex_of_power_ng.Build.Types.{BuildDiscipline, BuildSlotId}
use codex_of_power_ng.Build.Slots.{slot_at}
use codex_of_power_ng.Build.StateStore.{build_points_for_discipline}
use codex_of_power_ng.Build.StateStore.Validity.{IsValidSlot, IsValidBuild, IsValidSlot-mono}
use codex_of_power_ng.Build.StateStore.SetSlot.{points_of_slots}
use codex_of_power_ng.Build.Progression.Contribution.{
  shift, saturating_add, saturating_sub, is_rejected, apply_registration_contribution,
}
use codex_of_power_ng.Build.Progression.Rollback.{rollback_registration_contribution_detailed}
use codex_of_power_ng.Build.Progression.Rollback.Settle.{
  visit_layout_lem, settled, dropped_slots, settled-IsValidSlot, settle-IsValidSlot,
  settle-not_valid, slot_at-settled,
}
use codex_of_power_ng.State.{RuntimeState, BuildScoreContribution}
use mathlib.Core.Path.{fun_ext}

-- The state that an accepted rollback ends in.
pub rollback-state :
    (c : BuildScoreContribution) (s : RuntimeState)
    → is_rejected c ≡ false
    → let lowered = shift saturating_sub c s in
      ((rollback_registration_contribution_detailed c s).0 ≡ record lowered {
        active_build_slots =
            settled (build_points_for_discipline lowered) lowered.active_build_slots;
      })
      × ((rollback_registration_contribution_detailed c s).1.deactivated_slots
          ≡ dropped_slots (build_points_for_discipline lowered) lowered.active_build_slots)
unfolding rollback_registration_contribution_detailed
rollback-state c s h =
    rw (h, rollback_registration_contribution_detailed, visit_layout_lem (shift saturating_sub c s))
      (refl, refl)

-- An accepted rollback leaves a valid build, whatever build it found.
pub rollback-IsValidBuild :
    (c : BuildScoreContribution) (s : RuntimeState)
    → is_rejected c ≡ false
    → IsValidBuild (rollback_registration_contribution_detailed c s).0
rollback-IsValidBuild c s h slot_id =
    let lowered = shift saturating_sub c s in
    rw (rollback-state c s h).0 (
      rw
        (fun_ext (
          points_of_slots lowered
            (settled (build_points_for_discipline lowered) lowered.active_build_slots)))
        (settled-IsValidSlot (build_points_for_discipline lowered) lowered.active_build_slots
          slot_id))

shift-slots :
    (step : ℕ → ℕ → ℕ) (c : BuildScoreContribution) (s : RuntimeState)
    → (shift step c s).active_build_slots ≡ s.active_build_slots
unfolding shift
shift-slots step c s = ground arith

-- More points or as many, when the total fits its word.
apply-points :
    (c : BuildScoreContribution) (s : RuntimeState) (d : BuildDiscipline)
    → build_points_for_discipline s d ≤ u32_max
    → build_points_for_discipline s d ≤ build_points_for_discipline (shift saturating_add c s) d
unfolding shift
apply-points c s d h = ground arith

-- A contribution that is applied keeps a valid build valid.
pub apply-IsValidBuild :
    (c : BuildScoreContribution) (s : RuntimeState)
    → ((d : BuildDiscipline) → build_points_for_discipline s d ≤ u32_max)
    → IsValidBuild s
    → IsValidBuild (apply_registration_contribution c s).0
unfolding apply_registration_contribution
apply-IsValidBuild c s fits h slot_id = elim (Bool-cases (is_rejected c)) [
  | inl e ↦ rw (e, apply_registration_contribution) (h slot_id)
  | inr e ↦
      rw (e, apply_registration_contribution, shift-slots saturating_add c s)
        (IsValidSlot-mono _ _ s.active_build_slots slot_id (λ d. apply-points c s d (fits d))
          (h slot_id))
]

-- What an accepted rollback does to each slot: one that is still valid at the lowered points keeps
-- its text, and any other is emptied. Nothing but the slots differs from the lowered state, and the
-- number reported is that of the slots emptied.
pub rollback_slots_exact :
    (c : BuildScoreContribution) (s : RuntimeState) (slot_id : BuildSlotId)
    → is_rejected c ≡ false
    → let lowered = shift saturating_sub c s in
      let (final, result) = rollback_registration_contribution_detailed c s in
      (IsValidSlot (build_points_for_discipline lowered) s.active_build_slots slot_id
        → slot_at final.active_build_slots slot_id ≡ slot_at s.active_build_slots slot_id)
      × (¬ IsValidSlot (build_points_for_discipline lowered) s.active_build_slots slot_id
          → slot_at final.active_build_slots slot_id ≡ "")
      × (final ≡ record lowered { active_build_slots = final.active_build_slots })
      × (result.deactivated_slots
          ≡ dropped_slots (build_points_for_discipline lowered) s.active_build_slots)
unfolding shift
rollback_slots_exact c s slot_id e =
    let lowered = shift saturating_sub c s in
    let points = build_points_for_discipline lowered in
    rw
      (
        (rollback-state c s e).0,
        (rollback-state c s e).1,
        slot_at-settled points lowered.active_build_slots slot_id,
        shift-slots saturating_sub c s,
      )
      (
        λ h. (settle-IsValidSlot points s.active_build_slots slot_id h).0,
        λ h. (settle-not_valid points s.active_build_slots slot_id h).0,
        refl,
        refl,
      )
