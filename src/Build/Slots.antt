-- ===== src/Build/Slots.antt =====
-- The lookup and compatibility helpers that BuildStateStore.cpp, BuildProgression.cpp and
-- BuildEffectRuntime.cpp each define in the same words, and the array of active slots.
use text.Mathlib.Text.{◌==◌ as str_eq}
use codex_of_power_ng.Base.{
  Bool, true, false, ◌||◌, not, Option, none, some, List, [], ◌∷◌, String, if◌then◌else◌,
}
use codex_of_power_ng.Build.Types.{
  BuildDiscipline, BuildSlotKind, BuildSlotId, attack1, attack2, defense1, utility1, utility2,
  wildcard1, BuildSlotCompatibility, same_discipline_only, wildcard_only, same_or_wildcard,
  BuildOptionDef, discipline_eq,
}
use codex_of_power_ng.Build.Catalog.{build_option_catalog}

pub find_in : List BuildOptionDef → String → Option BuildOptionDef
find_in [] option_id = none
find_in (option ∷ rest) option_id =
    if str_eq option.id option_id then some option else find_in rest option_id

unfoldable pub find_option : String → Option BuildOptionDef
unfolding find_in build_option_catalog
find_option option_id = find_in build_option_catalog option_id

unfoldable pub slot_kind_for_id : BuildSlotId → BuildSlotKind
slot_kind_for_id attack1 = BuildSlotKind.attack
slot_kind_for_id attack2 = BuildSlotKind.attack
slot_kind_for_id defense1 = BuildSlotKind.defense
slot_kind_for_id utility1 = BuildSlotKind.utility
slot_kind_for_id utility2 = BuildSlotKind.utility
slot_kind_for_id wildcard1 = BuildSlotKind.wildcard

abbrev pub compatibility_eq : BuildSlotCompatibility → BuildSlotCompatibility → Bool
compatibility_eq same_discipline_only same_discipline_only = true
compatibility_eq wildcard_only wildcard_only = true
compatibility_eq same_or_wildcard same_or_wildcard = true
compatibility_eq _ _ = false

matches_discipline : BuildSlotKind → BuildDiscipline → Bool
matches_discipline BuildSlotKind.attack d = discipline_eq d BuildDiscipline.attack
matches_discipline BuildSlotKind.defense d = discipline_eq d BuildDiscipline.defense
matches_discipline BuildSlotKind.utility d = discipline_eq d BuildDiscipline.utility
matches_discipline BuildSlotKind.wildcard d = false

compatible_kind : BuildOptionDef → BuildSlotKind → Bool
unfolding matches_discipline
compatible_kind option BuildSlotKind.wildcard =
    compatibility_eq option.slot_compatibility wildcard_only
    || compatibility_eq option.slot_compatibility same_or_wildcard
compatible_kind option kind =
    if not (matches_discipline kind option.discipline)
    then false
    else compatibility_eq option.slot_compatibility same_discipline_only
      || compatibility_eq option.slot_compatibility same_or_wildcard

unfoldable pub is_slot_compatible : BuildOptionDef → BuildSlotId → Bool
unfolding compatible_kind slot_kind_for_id
is_slot_compatible option slot_id = compatible_kind option (slot_kind_for_id slot_id)

-- `std::array<std::string, kBuildSlotCount>`, by `ToIndex`. An empty text is an empty slot.
pub record Slots : Type 0 where
  pub at0 : String
  pub at1 : String
  pub at2 : String
  pub at3 : String
  pub at4 : String
  pub at5 : String

-- `{}`
abbrev pub no_slots : Slots
no_slots = record { at0 = ""; at1 = ""; at2 = ""; at3 = ""; at4 = ""; at5 = "" }

abbrev pub slot_at : Slots → BuildSlotId → String
slot_at s attack1 = s.at0
slot_at s attack2 = s.at1
slot_at s defense1 = s.at2
slot_at s utility1 = s.at3
slot_at s utility2 = s.at4
slot_at s wildcard1 = s.at5

abbrev pub set_slot : BuildSlotId → String → Slots → Slots
set_slot attack1 v s = record s { at0 = v }
set_slot attack2 v s = record s { at1 = v }
set_slot defense1 v s = record s { at2 = v }
set_slot utility1 v s = record s { at3 = v }
set_slot utility2 v s = record s { at4 = v }
set_slot wildcard1 v s = record s { at5 = v }

abbrev pub map_slots : (String → String) → Slots → Slots
map_slots f s = record {
  at0 = f s.at0;
  at1 = f s.at1;
  at2 = f s.at2;
  at3 = f s.at3;
  at4 = f s.at4;
  at5 = f s.at5;
}

abbrev pub slot_id_eq : BuildSlotId → BuildSlotId → Bool
slot_id_eq attack1 attack1 = true
slot_id_eq attack2 attack2 = true
slot_id_eq defense1 defense1 = true
slot_id_eq utility1 utility1 = true
slot_id_eq utility2 utility2 = true
slot_id_eq wildcard1 wildcard1 = true
slot_id_eq _ _ = false
