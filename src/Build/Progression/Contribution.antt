-- ===== src/Build/Progression/Contribution.antt =====
-- src/BuildProgression.cpp: what a registration adds to the scores and points.
use codex_of_power_ng.Base.{
  ℕ, ◌+◌, ◌-◌, Bool, true, false, ◌||◌, Option, none, some, ltb, ◌==◌, if◌then◌else◌,
}
use codex_of_power_ng.Base.Int.{pos, pos_part, leb_ℤ}
use codex_of_power_ng.Base.Word.{u32_max}
use codex_of_power_ng.Build.Types.{BuildDiscipline}
use codex_of_power_ng.Build.StateStore.{score_for_discipline, build_points_for_discipline}
use codex_of_power_ng.Build.Progression.FormTypes.{
  FormType, convert_legacy_group_to_discipline, resolve_build_points_for_form_type,
}
use codex_of_power_ng.State.{RuntimeState, BuildScoreContribution}

unfoldable pub set_score : BuildDiscipline → ℕ → RuntimeState → RuntimeState
set_score BuildDiscipline.attack score state = record state { attack_score = score }
set_score BuildDiscipline.defense score state = record state { defense_score = score }
set_score BuildDiscipline.utility score state = record state { utility_score = score }
set_score (BuildDiscipline.other n) score state = state

unfoldable pub set_build_points_centi : BuildDiscipline → ℕ → RuntimeState → RuntimeState
set_build_points_centi BuildDiscipline.attack p state = record state {
  attack_build_points_centi = p;
}
set_build_points_centi BuildDiscipline.defense p state = record state {
  defense_build_points_centi = p;
}
set_build_points_centi BuildDiscipline.utility p state = record state {
  utility_build_points_centi = p;
}
set_build_points_centi (BuildDiscipline.other n) p state = state

unfoldable pub make_registration_contribution : ℕ → FormType → Option BuildScoreContribution
unfolding resolve_build_points_for_form_type convert_legacy_group_to_discipline
make_registration_contribution group form_type =
    if ltb 5 group
    then none
    else let points_centi = resolve_build_points_for_form_type form_type in
      if points_centi == 0
      then none
      else some (record {
        discipline = convert_legacy_group_to_discipline group;
        record_delta = pos 1;
        points_delta_centi = pos points_centi;
      })

-- `current > max - delta ? max : current + delta`
abbrev pub saturating_add : ℕ → ℕ → ℕ
saturating_add current delta = if ltb (u32_max - delta) current then u32_max else current + delta

-- `current > delta ? current - delta : 0`
abbrev pub saturating_sub : ℕ → ℕ → ℕ
saturating_sub current delta = if ltb delta current then current - delta else 0

-- A contribution with a delta of zero or less is turned away.
abbrev pub is_rejected : BuildScoreContribution → Bool
is_rejected c = leb_ℤ c.record_delta (pos 0) || leb_ℤ c.points_delta_centi (pos 0)

-- The score and the points of the contribution's discipline, each stepped by its delta.
unfoldable pub shift : (ℕ → ℕ → ℕ) → BuildScoreContribution → RuntimeState → RuntimeState
unfolding set_score set_build_points_centi score_for_discipline build_points_for_discipline
shift step c state =
    let scored =
      set_score c.discipline
        (step (score_for_discipline state c.discipline) (pos_part c.record_delta)) state in
    set_build_points_centi c.discipline
      (step (build_points_for_discipline scored c.discipline) (pos_part c.points_delta_centi))
      scored

unfoldable pub apply_registration_contribution :
    BuildScoreContribution → RuntimeState → RuntimeState × Bool
unfolding shift
apply_registration_contribution c state =
    if is_rejected c then (state, false) else (shift saturating_add c state, true)
