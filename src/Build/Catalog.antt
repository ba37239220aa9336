-- ===== src/Build/Catalog.antt =====
-- src/BuildOptionCatalog.cpp: the option table and the slot layout. The runs of options stand in
-- the children, a file for each discipline.
mod Attack
mod Defense
mod Utility
use codex_of_power_ng.Base.{List, [], ◌∷◌, ◌++◌}
use codex_of_power_ng.Build.Types.{
  BuildOptionDef, BuildSlotId, attack1, attack2, defense1, utility1, utility2, wildcard1,
}
use Attack.{devastation_options, precision_options, fury_options}
use Defense.{guard_options, bastion_options, guard_late_options, resistance_options}
use Utility.{livelihood_options, exploration_options, trickery_options}

-- `kBuildOptions`, which `GetBuildOptionCatalog` returns.
unfoldable pub build_option_catalog : List BuildOptionDef
build_option_catalog =
    devastation_options
    ++ (precision_options
        ++ (fury_options
            ++ (guard_options
                ++ (bastion_options
                    ++ (guard_late_options
                        ++ (resistance_options
                            ++ (livelihood_options
                                ++ (exploration_options ++ trickery_options))))))))

-- `kInitialSlotLayout`
abbrev pub initial_build_slot_layout : List BuildSlotId
initial_build_slot_layout = attack1 ∷ attack2 ∷ defense1 ∷ utility1 ∷ utility2 ∷ wildcard1 ∷ []
