-- ===== src/Build/Migration/Derived.antt =====
-- src/BuildProgression.cpp: scores and points derived from the registered items of an old save.
use codex_of_power_ng.Base.{ℕ, Option, none, some, List, [], ◌∷◌, ltb, if◌then◌else◌}
use codex_of_power_ng.Base.Word.{add32}
use codex_of_power_ng.Build.Types.{BuildDiscipline}
use codex_of_power_ng.Build.Progression.FormTypes.{
  FormType, resolve_build_points_for_form_type, try_resolve_discipline_from_form_type,
  try_resolve_legacy_discipline,
}
use codex_of_power_ng.State.{FormId}
use codex_of_power_ng.State.Snapshot.{Snapshot}

apply_derived_score : BuildDiscipline → Snapshot → Snapshot
apply_derived_score BuildDiscipline.attack s = record s { attack_score = add32 s.attack_score 1 }
apply_derived_score BuildDiscipline.defense s = record s { defense_score = add32 s.defense_score 1 }
apply_derived_score BuildDiscipline.utility s = record s { utility_score = add32 s.utility_score 1 }
apply_derived_score (BuildDiscipline.other n) s = s

apply_derived_build_points : BuildDiscipline → ℕ → Snapshot → Snapshot
apply_derived_build_points BuildDiscipline.attack p s = record s {
  attack_build_points_centi = add32 s.attack_build_points_centi p;
}
apply_derived_build_points BuildDiscipline.defense p s = record s {
  defense_build_points_centi = add32 s.defense_build_points_centi p;
}
apply_derived_build_points BuildDiscipline.utility p s = record s {
  utility_build_points_centi = add32 s.utility_build_points_centi p;
}
apply_derived_build_points (BuildDiscipline.other n) p s = s

unfoldable pub apply_derived_contribution : BuildDiscipline → ℕ → Snapshot → Snapshot
unfolding apply_derived_score apply_derived_build_points
apply_derived_contribution discipline points_centi s =
    apply_derived_build_points discipline points_centi (apply_derived_score discipline s)

resolve_fallback_build_points_centi : BuildDiscipline → ℕ
resolve_fallback_build_points_centi BuildDiscipline.attack = 50
resolve_fallback_build_points_centi BuildDiscipline.defense = 30
resolve_fallback_build_points_centi BuildDiscipline.utility = 10
resolve_fallback_build_points_centi (BuildDiscipline.other n) = 0

default_resolve_legacy_discipline : (FormId → Option FormType) → FormId → Option BuildDiscipline
default_resolve_legacy_discipline lookup_form form_id = elim (lookup_form form_id) [
  | none ↦ none
  | some form_type ↦ try_resolve_discipline_from_form_type form_type
]

-- The discipline and points of a form type, if it has both.
by_form_type : Option FormType → Option (BuildDiscipline × ℕ)
by_form_type none = none
by_form_type (some form_type) = elim (try_resolve_discipline_from_form_type form_type) [
  | none ↦ none
  | some discipline ↦
      if ltb 0 (resolve_build_points_for_form_type form_type)
      then some (discipline, resolve_build_points_for_form_type form_type)
      else none
]

with_fallback_points : Option BuildDiscipline → Option (BuildDiscipline × ℕ)
unfolding resolve_fallback_build_points_centi
with_fallback_points none = none
with_fallback_points (some discipline) =
    some (discipline, resolve_fallback_build_points_centi discipline)

-- What one registered item contributes: by its form type where no resolver is given and the game
-- knows the form, else by its group or the resolver; nothing if that fails too.
unfoldable pub resolve_item :
    (FormId → Option FormType)
    → Option (FormId → Option BuildDiscipline)
    → FormId × ℕ
    → Option (BuildDiscipline × ℕ)
unfolding by_form_type with_fallback_points default_resolve_legacy_discipline
resolve_item lookup_form none (form_id, group) = elim (by_form_type (lookup_form form_id)) [
  | some contribution ↦ some contribution
  | none ↦
      with_fallback_points (
        try_resolve_legacy_discipline (default_resolve_legacy_discipline lookup_form) form_id group)
]
resolve_item lookup_form (some resolver) (form_id, group) =
    with_fallback_points (try_resolve_legacy_discipline resolver form_id group)

-- One round of the loop, with the count of items that were not resolved.
unfoldable pub visit_item : Option (BuildDiscipline × ℕ) → Snapshot × ℕ → Snapshot × ℕ
unfolding apply_derived_contribution
visit_item none (s, unresolved) = (s, add32 unresolved 1)
visit_item (some (discipline, points_centi)) (s, unresolved) =
    (apply_derived_contribution discipline points_centi s, unresolved)

unfoldable pub derive_items :
    (FormId → Option FormType)
    → Option (FormId → Option BuildDiscipline)
    → List (FormId × ℕ)
    → Snapshot × ℕ
    → Snapshot × ℕ
unfolding visit_item resolve_item
derive_items lookup_form resolver [] acc = acc
derive_items lookup_form resolver (item ∷ rest) acc =
    derive_items lookup_form resolver rest (visit_item (resolve_item lookup_form resolver item) acc)
