-- ===== src/Registration/QuickList/Builder.antt =====
-- src/RegistrationQuickListBuilder.cpp: which items of the inventory the quick list shows, and which
-- of them it disables. The inventory is read from the game; `std::sort` and the text for an item
-- without a name are arguments.
pub mod Listed
pub mod Complete
pub mod Sound
use codex_of_power_ng.Base.{
  ℕ, ◌+◌, Bool, true, false, not, ◌&&◌, ◌||◌, Option, none, some, List, [], ◌∷◌, ◌++◌, String, ltb,
  ◌==◌, is_empty, if◌then◌else◌,
}
use codex_of_power_ng.Base.Int.{ℤ, pos, leb_ℤ}
use codex_of_power_ng.Base.Keyed.{member}
use codex_of_power_ng.Build.Progression.FormTypes.{
  group_from_form_type, resolve_build_points_for_form_type, unknown_group,
}
use codex_of_power_ng.Inventory.{ExtraList, RemoveSelection, select_safe_removal}
use codex_of_power_ng.State.{FormId}
use codex_of_power_ng.Registration.Game.{Game}
use codex_of_power_ng.Registration.Keys.{get_register_key}
use codex_of_power_ng.Registration.Exclusion.{is_excluded_by_map, is_intrinsic_excluded}
use codex_of_power_ng.Registration.TccGate.{TccLists, TccGateDecision, allow, evaluate_tcc_gate}

pub record ListItem : Type 0 where
  pub form_id : FormId
  pub reg_key : FormId
  pub group : ℕ
  pub total_count : ℤ
  pub safe_count : ℕ
  pub excluded : Bool
  pub registered : Bool
  pub blocked : Bool
  pub build_points_centi : ℕ
  pub disabled_reason : String
  pub name : String

pub record Settings : Type 0 where
  pub normalize_registration : Bool
  pub require_tcc_displayed : Bool
  pub protect_favorites : Bool

-- `RE::InventoryEntryData`: `GetObject()`, `IsQuestObject()` and `extraLists`.
pub record InventoryEntry : Type 0 where
  pub object : Option FormId
  pub is_quest_object : Bool
  pub extra_lists : List (Option ExtraList)

-- What one build of the list reads: the arguments of `BuildQuickListEligibleItems`, the game, the
-- maps, and `GetItemCount` of the player.
pub record QuickListInput : Type 0 where
  pub game : Game
  pub excluded : List FormId
  pub variant_base : List (FormId × FormId)
  pub settings : Settings
  pub tcc_lists : TccLists
  pub blocked_items : List FormId
  pub registered_keys : List FormId
  pub quest_protected : List FormId
  pub item_count : FormId → ℤ
  pub unnamed : String

abbrev pub is_allow : TccGateDecision → Bool
is_allow allow = true
is_allow _ = false

unfoldable pub determine_disabled_reason : Bool → TccGateDecision → RemoveSelection → String
determine_disabled_reason quest_protected tcc_gate removal =
    if quest_protected
    then "quest_protected"
    else if not (is_allow tcc_gate)
    then "not_actionable"
    else if ltb 0 removal.safe_count
    then ""
    else if removal.blocked_by_favorite
    then "favorite_protected"
    else "not_actionable"

unfoldable pub is_excluded_fast : QuickListInput → FormId → Bool
is_excluded_fast input item =
    if is_excluded_by_map input.excluded item || member item input.blocked_items
    then true
    else is_intrinsic_excluded input.game item

unfoldable pub get_discovery_group_fast : QuickListInput → FormId → ℕ
unfolding is_excluded_fast
get_discovery_group_fast input item =
    if is_excluded_fast input item
    then unknown_group
    else group_from_form_type (input.game.form_type item)

unfoldable pub best_item_name : Game → FormId → FormId → String
best_item_name game primary fallback =
    if not (is_empty (game.form_name primary))
    then game.form_name primary
    else if not (is_empty (game.form_name fallback))
    then game.form_name fallback
    else ""

-- The item of an entry that passed the guards.
unfoldable pub make_list_item : QuickListInput → InventoryEntry → FormId → FormId → ℕ → ListItem
unfolding determine_disabled_reason best_item_name
make_list_item input entry obj reg_key group =
    let total_count = input.item_count obj in
    let removal =
      select_safe_removal (some entry.extra_lists) total_count input.settings.protect_favorites in
    let quest_protected =
      entry.is_quest_object
      || (member reg_key input.quest_protected || member obj input.quest_protected) in
    let tcc_gate =
      evaluate_tcc_gate input.settings.require_tcc_displayed input.tcc_lists obj reg_key in
    let disabled_reason = determine_disabled_reason quest_protected tcc_gate removal in
    let best = best_item_name input.game reg_key obj in
    record {
      form_id = obj;
      reg_key = reg_key;
      group = group;
      total_count = total_count;
      safe_count = if not (is_empty disabled_reason) then 0 else removal.safe_count;
      excluded = false;
      registered = false;
      blocked = not (is_empty disabled_reason);
      build_points_centi = resolve_build_points_for_form_type (input.game.form_type reg_key);
      disabled_reason = disabled_reason;
      name = if is_empty best then input.unnamed else best;
    }

-- The guards of `AppendEligibleItem` for an object and its key, on the keys seen so far and the
-- list.
unfoldable pub append_keyed :
    QuickListInput
    → InventoryEntry
    → FormId
    → FormId
    → List FormId × List ListItem
    → List FormId × List ListItem
unfolding is_excluded_fast get_discovery_group_fast make_list_item
append_keyed input entry obj reg_key (seen, all) =
    if ltb 5 (get_discovery_group_fast input reg_key)
    then (seen, all)
    else if is_excluded_fast input obj || not (reg_key == obj) && is_excluded_fast input reg_key
    then (seen, all)
    else if member reg_key input.registered_keys || member obj input.registered_keys
    then (seen, all)
    else if member reg_key seen
    then (seen, all)
    else if leb_ℤ (input.item_count obj) (pos 0)
    then (reg_key ∷ seen, all)
    else (
      reg_key ∷ seen,
      all ++ (make_list_item input entry obj reg_key (get_discovery_group_fast input reg_key) ∷ []),
    )

-- Both null tests are patterns here: of the entry, and of its object.
unfoldable pub append_eligible_item :
    QuickListInput
    → Option InventoryEntry
    → List FormId × List ListItem
    → List FormId × List ListItem
unfolding append_keyed
append_eligible_item input none acc = acc
append_eligible_item input (some entry) acc = elim entry.object [
  | none ↦ acc
  | some obj ↦
      append_keyed input entry obj
        (get_register_key input.settings.normalize_registration input.game input.variant_base obj)
        acc
]

unfoldable pub collect_eligible_items :
    QuickListInput
    → List (Option InventoryEntry)
    → List FormId × List ListItem
    → List FormId × List ListItem
unfolding append_eligible_item
collect_eligible_items input [] acc = acc
collect_eligible_items input (entry ∷ rest) acc =
    collect_eligible_items input rest (append_eligible_item input entry acc)

unfoldable pub build_quick_list_eligible_items :
    (List ListItem → List ListItem) → QuickListInput → List (Option InventoryEntry) → List ListItem
unfolding collect_eligible_items
build_quick_list_eligible_items sort input entries =
    sort ((collect_eligible_items input entries ([], [])).1)
