-- ===== src/Build/Catalog/Defense.antt =====
-- src/BuildOptionCatalog.cpp: the defense options of `kBuildOptions`, run by run of one theme.
use codex_of_power_ng.Base.{List, [], ◌∷◌}
use codex_of_power_ng.Base.Int.{pos}
use codex_of_power_ng.Build.Types.{
  BuildDiscipline, BuildEffectType, BuildOptionDef, build_option_def, slotted, same_discipline_only,
  same_or_wildcard, once_only, float,
}

abbrev pub guard_options : List BuildOptionDef
unfolding build_option_def
guard_options =
    build_option_def "build.defense.guard" BuildDiscipline.defense "guard"
      "build.theme.defense.guard" "signpost" slotted 5 same_discipline_only
      BuildEffectType.actor_value "damage_resist" (float (pos 8000)) (float (pos 1500)) "" once_only
      "build.defense.guard.title" "build.defense.guard.description"
    ∷ build_option_def "build.defense.bulwark" BuildDiscipline.defense "guard"
        "build.theme.defense.guard" "standard" slotted 20 same_or_wildcard
        BuildEffectType.actor_value "health" (float (pos 6000)) (float (pos 2500)) "" once_only
        "build.defense.bulwark.title" "build.defense.bulwark.description"
    ∷ build_option_def "build.defense.recovery" BuildDiscipline.defense "guard"
        "build.theme.defense.guard" "standard" slotted 30 same_or_wildcard
        BuildEffectType.actor_value "heal_rate" (float (pos 10)) (float (pos 5)) "" once_only
        "build.defense.recovery.title" "build.defense.recovery.description"
    ∷ build_option_def "build.defense.restoration" BuildDiscipline.defense "guard"
        "build.theme.defense.guard" "special" slotted 40 same_or_wildcard
        BuildEffectType.actor_value "restoration_modifier" (float (pos 50)) (float (pos 10)) ""
        once_only "build.defense.restoration.title" "build.defense.restoration.description"
    ∷ []

abbrev pub bastion_options : List BuildOptionDef
unfolding build_option_def
bastion_options =
    build_option_def "build.defense.bastion" BuildDiscipline.defense "bastion"
      "build.theme.defense.bastion" "standard" slotted 15 same_or_wildcard
      BuildEffectType.actor_value "block_power_modifier" (float (pos 5000)) (float (pos 750)) ""
      once_only "build.defense.bastion.title" "build.defense.bastion.description"
    ∷ build_option_def "build.defense.reprisal" BuildDiscipline.defense "bastion"
        "build.theme.defense.bastion" "special" slotted 25 same_or_wildcard
        BuildEffectType.actor_value "reflect_damage" (float (pos 100)) (float (pos 50)) "" once_only
        "build.defense.reprisal.title" "build.defense.reprisal.description"
    ∷ build_option_def "build.defense.alteration" BuildDiscipline.defense "bastion"
        "build.theme.defense.bastion" "special" slotted 30 same_or_wildcard
        BuildEffectType.actor_value "alteration_modifier" (float (pos 50)) (float (pos 10)) ""
        once_only "build.defense.alteration.title" "build.defense.alteration.description"
    ∷ []

abbrev pub guard_late_options : List BuildOptionDef
unfolding build_option_def
guard_late_options =
    build_option_def "build.defense.endurance" BuildDiscipline.defense "guard"
      "build.theme.defense.guard" "special" slotted 35 same_or_wildcard BuildEffectType.actor_value
      "stamina" (float (pos 10000)) (float (pos 3000)) "" once_only "build.defense.endurance.title"
      "build.defense.endurance.description"
    ∷ []

abbrev pub resistance_options : List BuildOptionDef
unfolding build_option_def
resistance_options =
    build_option_def "build.defense.warding" BuildDiscipline.defense "resistance"
      "build.theme.defense.resistance" "signpost" slotted 10 same_discipline_only
      BuildEffectType.actor_value "magic_resist_bundle" (float (pos 2000)) (float (pos 500)) ""
      once_only "build.defense.warding.title" "build.defense.warding.description"
    ∷ build_option_def "build.defense.elementalWard" BuildDiscipline.defense "resistance"
        "build.theme.defense.resistance" "standard" slotted 20 same_or_wildcard
        BuildEffectType.actor_value "elemental_resist_bundle" (float (pos 2000)) (float (pos 500))
        "" once_only "build.defense.elementalWard.title" "build.defense.elementalWard.description"
    ∷ build_option_def "build.defense.purification" BuildDiscipline.defense "resistance"
        "build.theme.defense.resistance" "standard" slotted 25 same_or_wildcard
        BuildEffectType.actor_value "status_resist_bundle" (float (pos 2000)) (float (pos 500)) ""
        once_only "build.defense.purification.title" "build.defense.purification.description"
    ∷ build_option_def "build.defense.absorption" BuildDiscipline.defense "resistance"
        "build.theme.defense.resistance" "special" slotted 35 same_or_wildcard
        BuildEffectType.actor_value "absorb_chance" (float (pos 1000)) (float (pos 500)) ""
        once_only "build.defense.absorption.title" "build.defense.absorption.description"
    ∷ []
