-- ===== src/Tests/Builder.antt =====
-- The quick list of a small inventory.
use codex_of_power_ng.Base.{true, false, some, none, Option, List, [], ◌∷◌}
use codex_of_power_ng.Base.Int.{pos}
use codex_of_power_ng.Build.Progression.FormTypes.{weapon}
use codex_of_power_ng.Registration.Game.{Game}
use codex_of_power_ng.Registration.QuickList.Builder.{QuickListInput, InventoryEntry}

-- Weapons only, without templates.
abbrev armoury : Game
armoury = record {
  is_form = λ id. true;
  form_type = λ id. weapon;
  form_name = λ id. "axe";
  is_key = λ id. false;
  is_lockpick = λ id. false;
  is_gold = λ id. false;
  template_weapon = λ id. none;
}

abbrev input : QuickListInput
input = record {
  game = armoury;
  excluded = 5 ∷ [];
  variant_base = (12, 10) ∷ [];
  settings = record {
    normalize_registration = true;
    require_tcc_displayed = false;
    protect_favorites = true;
  };
  tcc_lists = record { master = none; displayed = none };
  blocked_items = 6 ∷ [];
  registered_keys = 7 ∷ [];
  quest_protected = [];
  item_count = λ id. pos 2;
  unnamed = "(unnamed)";
}

-- An axe, its variant, an excluded, a blocked and a registered item.
abbrev entries : List (Option InventoryEntry)
entries =
    some (record { object = some 10; is_quest_object = false; extra_lists = [] })
    ∷ some (record { object = some 12; is_quest_object = false; extra_lists = [] })
    ∷ none
    ∷ some (record { object = some 5; is_quest_object = false; extra_lists = [] })
    ∷ some (record { object = some 6; is_quest_object = false; extra_lists = [] })
    ∷ some (record { object = some 7; is_quest_object = false; extra_lists = [] })
    ∷ []
