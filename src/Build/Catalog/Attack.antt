-- ===== src/Build/Catalog/Attack.antt =====
-- src/BuildOptionCatalog.cpp: the attack options of `kBuildOptions`, run by run of one theme.
use codex_of_power_ng.Base.{List, [], ◌∷◌}
use codex_of_power_ng.Base.Int.{pos}
use codex_of_power_ng.Build.Types.{
  BuildDiscipline, BuildEffectType, BuildOptionDef, build_option_def, slotted, same_discipline_only,
  same_or_wildcard, once_only, float,
}

abbrev pub devastation_options : List BuildOptionDef
unfolding build_option_def
devastation_options =
    build_option_def "build.attack.ferocity" BuildDiscipline.attack "devastation"
      "build.theme.attack.devastation" "signpost" slotted 5 same_discipline_only
      BuildEffectType.actor_value "attack_damage_mult" (float (pos 3000)) (float (pos 500)) ""
      once_only "build.attack.ferocity.title" "build.attack.ferocity.description"
    ∷ build_option_def "build.attack.brawler" BuildDiscipline.attack "devastation"
        "build.theme.attack.devastation" "special" slotted 25 same_or_wildcard
        BuildEffectType.actor_value "unarmed_damage" (float (pos 200)) (float (pos 100)) ""
        once_only "build.attack.brawler.title" "build.attack.brawler.description"
    ∷ build_option_def "build.attack.destruction" BuildDiscipline.attack "devastation"
        "build.theme.attack.devastation" "special" slotted 30 same_or_wildcard
        BuildEffectType.actor_value "destruction_modifier" (float (pos 60)) (float (pos 10)) ""
        once_only "build.attack.destruction.title" "build.attack.destruction.description"
    ∷ []

abbrev pub precision_options : List BuildOptionDef
unfolding build_option_def
precision_options =
    build_option_def "build.attack.precision" BuildDiscipline.attack "precision"
      "build.theme.attack.precision" "standard" slotted 15 same_discipline_only
      BuildEffectType.actor_value "weapon_speed_mult" (float (pos 2500)) (float (pos 350)) ""
      once_only "build.attack.precision.title" "build.attack.precision.description"
    ∷ build_option_def "build.attack.pinpoint" BuildDiscipline.attack "precision"
        "build.theme.attack.precision" "standard" slotted 20 same_or_wildcard
        BuildEffectType.actor_value "critical_chance" (float (pos 1500)) (float (pos 300)) ""
        once_only "build.attack.pinpoint.title" "build.attack.pinpoint.description"
    ∷ build_option_def "build.attack.vitals" BuildDiscipline.attack "precision"
        "build.theme.attack.precision" "special" slotted 35 same_or_wildcard
        BuildEffectType.actor_value "melee_damage" (float (pos 2000)) (float (pos 500)) "" once_only
        "build.attack.vitals.title" "build.attack.vitals.description"
    ∷ []

abbrev pub fury_options : List BuildOptionDef
unfolding build_option_def
fury_options =
    build_option_def "build.attack.reserve" BuildDiscipline.attack "fury" "build.theme.attack.fury"
      "signpost" slotted 5 same_discipline_only BuildEffectType.actor_value "reserve_bundle"
      (float (pos 8000)) (float (pos 2000)) "" once_only "build.attack.reserve.title"
      "build.attack.reserve.description"
    ∷ build_option_def "build.attack.secondwind" BuildDiscipline.attack "fury"
        "build.theme.attack.fury" "standard" slotted 10 same_or_wildcard BuildEffectType.actor_value
        "stamina_rate" (float (pos 100)) (float (pos 50)) "" once_only
        "build.attack.secondwind.title" "build.attack.secondwind.description"
    ∷ []
