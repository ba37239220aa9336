-- ===== src/Build/Progression/RoundTrip.antt =====
-- A registration's contribution, applied and rolled back.
use codex_of_power_ng.Base.{ℕ, ◌+◌, ◌-◌, ◌≤◌, ◌≡◌, refl, false, arith, min, some, none, ◌≢◌, ◌↔◌}
use codex_of_power_ng.Base.Int.{ℤ, pos, pos_part}
use codex_of_power_ng.Base.Word.{u32_max}
use codex_of_power_ng.Build.Types.{
  BuildDiscipline, BuildSlotId, attack1, attack2, defense1, utility1, utility2, wildcard1,
}
use codex_of_power_ng.Build.Slots.{Slots, slot_at}
use codex_of_power_ng.Build.StateStore.{build_points_for_discipline, score_for_discipline}
use codex_of_power_ng.Build.StateStore.Validity.{IsValidBuild}
use codex_of_power_ng.Build.Progression.FormTypes.{
  FormType, convert_legacy_group_to_discipline, resolve_build_points_for_form_type,
  try_resolve_discipline_from_form_type, group_from_form_type,
}
use codex_of_power_ng.Build.Progression.Contribution.{
  shift, saturating_add, saturating_sub, is_rejected, apply_registration_contribution,
  make_registration_contribution,
}
use codex_of_power_ng.Build.Progression.Rollback.{rollback_registration_contribution_detailed}
use codex_of_power_ng.Build.Progression.Rollback.Settle.{
  settle, dropped, settled, dropped_slots, settle-IsValidSlot,
}
use codex_of_power_ng.Build.Progression.Rollback.Validity.{rollback-state}
use codex_of_power_ng.State.{RuntimeState, BuildScoreContribution}

-- Neither total of the contribution's discipline passes the largest 32-bit number.
abbrev pub NoOverflow : BuildScoreContribution → RuntimeState → Type 0
NoOverflow c s =
    (score_for_discipline s c.discipline + pos_part c.record_delta ≤ u32_max)
    × (build_points_for_discipline s c.discipline + pos_part c.points_delta_centi ≤ u32_max)

shift_back :
    (c : BuildScoreContribution) (s : RuntimeState)
    → NoOverflow c s
    → shift saturating_sub c (shift saturating_add c s) ≡ s
unfolding shift
shift_back c s h = ground arith

settled_valid :
    (s : RuntimeState)
    → IsValidBuild s
    → (settled (build_points_for_discipline s) s.active_build_slots ≡ s.active_build_slots)
      × (dropped_slots (build_points_for_discipline s) s.active_build_slots ≡ 0)
settled_valid s h = (
  λ i. record {
    at0 = (kept attack1).0 i;
    at1 = (kept attack2).0 i;
    at2 = (kept defense1).0 i;
    at3 = (kept utility1).0 i;
    at4 = (kept utility2).0 i;
    at5 = (kept wildcard1).0 i;
  },
  omega (
    arith,
    (kept attack1).1,
    (kept attack2).1,
    (kept defense1).1,
    (kept utility1).1,
    (kept utility2).1,
    (kept wildcard1).1,
  ),
)
  where
    kept :
        (j : BuildSlotId)
        → (settle (build_points_for_discipline s) j (slot_at s.active_build_slots j)
            ≡ slot_at s.active_build_slots j)
          × (dropped (build_points_for_discipline s) j (slot_at s.active_build_slots j) ≡ 0)
    kept j = settle-IsValidSlot (build_points_for_discipline s) s.active_build_slots j (h j)

-- Applying a contribution and rolling it back restores the whole state and deactivates no slot, if
-- the build was valid and no total overflows.
pub apply-rollback :
    (c : BuildScoreContribution) (s : RuntimeState)
    → is_rejected c ≡ false
    → NoOverflow c s
    → IsValidBuild s
    → let (back, result) =
        rollback_registration_contribution_detailed c (apply_registration_contribution c s).0 in
      (back ≡ s) × (result.deactivated_slots ≡ 0)
unfolding apply_registration_contribution
apply-rollback c s e fits h =
    let applied = shift saturating_add c s in
    rw
      (
        e,
        apply_registration_contribution,
        (rollback-state c applied e).0,
        (rollback-state c applied e).1,
        shift_back c s fits,
        (settled_valid s h).0,
        (settled_valid s h).1,
      )
      (refl, refl)

sub-add : (x d : ℕ) → x ≤ u32_max → saturating_sub (saturating_add x d) d ≡ min x (u32_max - d)
sub-add x d h = ground arith

shift_totals :
    (d : BuildDiscipline) (r p : ℤ) (s : RuntimeState) (slots : Slots)
    → score_for_discipline s d ≤ u32_max
    → build_points_for_discipline s d ≤ u32_max
    → let c : BuildScoreContribution = record {
      discipline = d;
      record_delta = r;
      points_delta_centi = p;
    } in
      let back = record (shift saturating_sub c (shift saturating_add c s)) {
        active_build_slots = slots;
      } in
      (score_for_discipline back d ≡ min (score_for_discipline s d) (u32_max - pos_part r))
      × (build_points_for_discipline back d
          ≡ min (build_points_for_discipline s d) (u32_max - pos_part p))
unfolding shift
shift_totals BuildDiscipline.attack r p s slots fs fp = (sub-add _ _ fs, sub-add _ _ fp)
shift_totals BuildDiscipline.defense r p s slots fs fp = (sub-add _ _ fs, sub-add _ _ fp)
shift_totals BuildDiscipline.utility r p s slots fs fp = (sub-add _ _ fs, sub-add _ _ fp)
shift_totals (BuildDiscipline.other n) r p s slots fs fp = (omega arith, omega arith)

-- In any case the totals come back capped: by what saturation lost, and to nothing more.
pub apply-rollback_totals :
    (c : BuildScoreContribution) (s : RuntimeState)
    → is_rejected c ≡ false
    → score_for_discipline s c.discipline ≤ u32_max
    → build_points_for_discipline s c.discipline ≤ u32_max
    → let back =
        (rollback_registration_contribution_detailed c (apply_registration_contribution c s).0).0 in
      (score_for_discipline back c.discipline
        ≡ min (score_for_discipline s c.discipline) (u32_max - pos_part c.record_delta))
      × (build_points_for_discipline back c.discipline
          ≡ min
              (build_points_for_discipline s c.discipline)
              (u32_max - pos_part c.points_delta_centi))
unfolding apply_registration_contribution
apply-rollback_totals c s e fs fp =
    let applied = shift saturating_add c s in
    let lowered = shift saturating_sub c applied in
    rw (e, apply_registration_contribution, (rollback-state c applied e).0)
      (shift_totals c.discipline c.record_delta c.points_delta_centi s
        (settled (build_points_for_discipline lowered) lowered.active_build_slots) fs fp)

-- A form type that has a group below 6 is worth points, its registration is accepted by the code
-- that applies it, and the group and the form type name the same discipline.
pub make_registration_contribution_correct :
    (t : FormType) (group : ℕ)
    → ((make_registration_contribution group t ≢ none)
        ↔ ((group ≤ 5) × (try_resolve_discipline_from_form_type t ≢ none)))
      × (group_from_form_type t ≤ 5
          → try_resolve_discipline_from_form_type t
            ≡ some (convert_legacy_group_to_discipline (group_from_form_type t)))
      × ((c : BuildScoreContribution)
          → make_registration_contribution group t ≡ some c
          → (is_rejected c ≡ false)
            × (c.discipline ≡ convert_legacy_group_to_discipline group)
            × (c.record_delta ≡ pos 1)
            × (c.points_delta_centi ≡ pos (resolve_build_points_for_form_type t)))
unfolding make_registration_contribution try_resolve_discipline_from_form_type group_from_form_type
make_registration_contribution_correct t group = (ground arith, ground arith, λ c h. ground arith)
