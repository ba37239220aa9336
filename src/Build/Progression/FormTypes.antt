-- ===== src/Build/Progression/FormTypes.antt =====
-- src/BuildProgression.cpp and src/RegistrationRules.cpp: what each form type is worth.
use codex_of_power_ng.Base.{ℕ, Option, none, some, leb, ◌==◌, if◌then◌else◌}
use codex_of_power_ng.Build.Types.{BuildDiscipline}

-- The enumerators of `RE::FormType` that the source names; `other` is any further one.
pub data FormType : Type 0 where
  weapon ammo armor alchemy_item ingredient book scroll soul_gem misc : FormType
  other : ℕ → FormType

unfoldable pub convert_legacy_group_to_discipline : ℕ → BuildDiscipline
convert_legacy_group_to_discipline legacy_group =
    if legacy_group == 0
    then BuildDiscipline.attack
    else if legacy_group == 1
    then BuildDiscipline.defense
    else BuildDiscipline.utility

unfoldable pub resolve_build_points_for_form_type : FormType → ℕ
resolve_build_points_for_form_type weapon = 70
resolve_build_points_for_form_type ammo = 20
resolve_build_points_for_form_type armor = 30
resolve_build_points_for_form_type alchemy_item = 25
resolve_build_points_for_form_type ingredient = 10
resolve_build_points_for_form_type book = 8
resolve_build_points_for_form_type scroll = 18
resolve_build_points_for_form_type soul_gem = 30
resolve_build_points_for_form_type misc = 5
resolve_build_points_for_form_type (other n) = 0

unfoldable pub try_resolve_discipline_from_form_type : FormType → Option BuildDiscipline
try_resolve_discipline_from_form_type weapon = some BuildDiscipline.attack
try_resolve_discipline_from_form_type ammo = some BuildDiscipline.attack
try_resolve_discipline_from_form_type armor = some BuildDiscipline.defense
try_resolve_discipline_from_form_type alchemy_item = some BuildDiscipline.utility
try_resolve_discipline_from_form_type ingredient = some BuildDiscipline.utility
try_resolve_discipline_from_form_type book = some BuildDiscipline.utility
try_resolve_discipline_from_form_type scroll = some BuildDiscipline.utility
try_resolve_discipline_from_form_type soul_gem = some BuildDiscipline.utility
try_resolve_discipline_from_form_type misc = some BuildDiscipline.utility
try_resolve_discipline_from_form_type (other n) = none

abbrev pub unknown_group : ℕ
unknown_group = 255

-- `RegistrationRules::GroupFromFormType`
unfoldable pub group_from_form_type : FormType → ℕ
group_from_form_type weapon = 0
group_from_form_type ammo = 0
group_from_form_type armor = 1
group_from_form_type alchemy_item = 2
group_from_form_type ingredient = 3
group_from_form_type book = 4
group_from_form_type scroll = 5
group_from_form_type soul_gem = 5
group_from_form_type misc = 5
group_from_form_type (other n) = unknown_group

-- `TryResolveLegacyDiscipline`, with the resolver that is in force.
unfoldable pub try_resolve_legacy_discipline :
    (ℕ → Option BuildDiscipline) → ℕ → ℕ → Option BuildDiscipline
unfolding convert_legacy_group_to_discipline
try_resolve_legacy_discipline resolver reg_key legacy_group =
    if leb legacy_group 5
    then some (convert_legacy_group_to_discipline legacy_group)
    else resolver reg_key
