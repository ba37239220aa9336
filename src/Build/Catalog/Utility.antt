-- ===== src/Build/Catalog/Utility.antt =====
-- src/BuildOptionCatalog.cpp: the utility options of `kBuildOptions`, run by run of one theme.
use codex_of_power_ng.Base.{List, [], ◌∷◌}
use codex_of_power_ng.Base.Int.{pos, negsuc}
use codex_of_power_ng.Build.Types.{
  BuildDiscipline, BuildEffectType, BuildOptionDef, build_option_def, slotted, same_discipline_only,
  same_or_wildcard, once_only, float, int32,
}

abbrev pub livelihood_options : List BuildOptionDef
unfolding build_option_def
livelihood_options =
    build_option_def "build.utility.cache" BuildDiscipline.utility "livelihood"
      "build.theme.utility.livelihood" "signpost" slotted 10 same_discipline_only
      BuildEffectType.carry_weight "carry_weight" (float (pos 20000)) (float (pos 1000)) ""
      once_only "build.utility.cache.title" "build.utility.cache.description"
    ∷ build_option_def "build.utility.barter" BuildDiscipline.utility "livelihood"
        "build.theme.utility.livelihood" "standard" slotted 25 same_or_wildcard
        BuildEffectType.economy "speechcraft_modifier" (int32 (pos 8)) (int32 (pos 1)) "" once_only
        "build.utility.barter.title" "build.utility.barter.description"
    ∷ build_option_def "build.utility.smithing" BuildDiscipline.utility "livelihood"
        "build.theme.utility.livelihood" "standard" slotted 20 same_or_wildcard
        BuildEffectType.actor_value "smithing_modifier" (float (pos 30)) (float (pos 5)) ""
        once_only "build.utility.smithing.title" "build.utility.smithing.description"
    ∷ build_option_def "build.utility.alchemy" BuildDiscipline.utility "livelihood"
        "build.theme.utility.livelihood" "standard" slotted 25 same_or_wildcard
        BuildEffectType.actor_value "alchemy_modifier" (float (pos 30)) (float (pos 5)) "" once_only
        "build.utility.alchemy.title" "build.utility.alchemy.description"
    ∷ build_option_def "build.utility.meditation" BuildDiscipline.utility "livelihood"
        "build.theme.utility.livelihood" "standard" slotted 30 same_discipline_only
        BuildEffectType.actor_value "meditation_bundle" (float (pos 80)) (float (pos 40)) ""
        once_only "build.utility.meditation.title" "build.utility.meditation.description"
    ∷ build_option_def "build.utility.enchanting" BuildDiscipline.utility "livelihood"
        "build.theme.utility.livelihood" "special" slotted 35 same_or_wildcard
        BuildEffectType.actor_value "enchanting_modifier" (float (pos 30)) (float (pos 5)) ""
        once_only "build.utility.enchanting.title" "build.utility.enchanting.description"
    ∷ build_option_def "build.utility.magicka" BuildDiscipline.utility "livelihood"
        "build.theme.utility.livelihood" "special" slotted 30 same_discipline_only
        BuildEffectType.actor_value "magicka_well_bundle" (float (pos 12000)) (float (pos 4000)) ""
        once_only "build.utility.magicka.title" "build.utility.magicka.description"
    ∷ build_option_def "build.utility.hauler" BuildDiscipline.utility "livelihood"
        "build.theme.utility.livelihood" "standard" slotted 30 same_discipline_only
        BuildEffectType.actor_value "hauler_bundle" (float (pos 6000)) (float (pos 2000)) ""
        once_only "build.utility.hauler.title" "build.utility.hauler.description"
    ∷ []

abbrev pub exploration_options : List BuildOptionDef
unfolding build_option_def
exploration_options =
    build_option_def "build.utility.mobility" BuildDiscipline.utility "exploration"
      "build.theme.utility.exploration" "signpost" slotted 20 same_discipline_only
      BuildEffectType.actor_value "speed_mult" (float (pos 2000)) (float (pos 150)) "" once_only
      "build.utility.mobility.title" "build.utility.mobility.description"
    ∷ build_option_def "build.utility.wayfinder" BuildDiscipline.utility "exploration"
        "build.theme.utility.exploration" "standard" slotted 30 same_discipline_only
        BuildEffectType.actor_value "stamina_rate" (float (pos 50)) (float (pos 10)) "" once_only
        "build.utility.wayfinder.title" "build.utility.wayfinder.description"
    ∷ build_option_def "build.utility.echo" BuildDiscipline.utility "exploration"
        "build.theme.utility.exploration" "special" slotted 35 same_or_wildcard
        BuildEffectType.actor_value "shout_recovery_mult" (float (negsuc 6)) (float (negsuc 1)) ""
        once_only "build.utility.echo.title" "build.utility.echo.description"
    ∷ []

abbrev pub trickery_options : List BuildOptionDef
unfolding build_option_def
trickery_options =
    build_option_def "build.utility.sneak" BuildDiscipline.utility "trickery"
      "build.theme.utility.trickery" "signpost" slotted 10 same_discipline_only
      BuildEffectType.actor_value "sneaking_modifier" (float (pos 30)) (float (pos 5)) "" once_only
      "build.utility.sneak.title" "build.utility.sneak.description"
    ∷ build_option_def "build.utility.lockpicking" BuildDiscipline.utility "trickery"
        "build.theme.utility.trickery" "standard" slotted 15 same_discipline_only
        BuildEffectType.actor_value "lockpicking_modifier" (float (pos 30)) (float (pos 5)) ""
        once_only "build.utility.lockpicking.title" "build.utility.lockpicking.description"
    ∷ build_option_def "build.utility.pickpocket" BuildDiscipline.utility "trickery"
        "build.theme.utility.trickery" "standard" slotted 20 same_discipline_only
        BuildEffectType.actor_value "pickpocket_modifier" (float (pos 30)) (float (pos 5)) ""
        once_only "build.utility.pickpocket.title" "build.utility.pickpocket.description"
    ∷ build_option_def "build.utility.conjuration" BuildDiscipline.utility "trickery"
        "build.theme.utility.trickery" "special" slotted 25 same_or_wildcard
        BuildEffectType.actor_value "conjuration_modifier" (float (pos 30)) (float (pos 5)) ""
        once_only "build.utility.conjuration.title" "build.utility.conjuration.description"
    ∷ build_option_def "build.utility.illusion" BuildDiscipline.utility "trickery"
        "build.theme.utility.trickery" "special" slotted 30 same_or_wildcard
        BuildEffectType.actor_value "illusion_modifier" (float (pos 30)) (float (pos 5)) ""
        once_only "build.utility.illusion.title" "build.utility.illusion.description"
    ∷ []
