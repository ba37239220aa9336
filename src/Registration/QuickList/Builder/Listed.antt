-- ===== src/Registration/QuickList/Builder/Listed.antt =====
-- src/RegistrationQuickListBuilder.cpp: how an item of the quick list shows an entry of the inventory.
use codex_of_power_ng.Base.{
  ℕ, ◌≡◌, ◌≤◌, ◌<◌, ◌⊎◌, Bool, true, false, not, ◌||◌, ◌&&◌, ap, sym, ◌∙◌, Option, some, List, [],
  ◌∷◌, ltb, is_empty, if◌then◌else◌, arith, refl, ◌↔◌,
}
use codex_of_power_ng.Base.Keyed.{member}
use codex_of_power_ng.Inventory.{RemoveSelection, select_safe_removal}
use codex_of_power_ng.State.{FormId}
use codex_of_power_ng.Registration.Keys.{get_register_key}
use codex_of_power_ng.Registration.TccGate.{
  TccGateDecision, allow, block_not_displayed, block_unavailable, evaluate_tcc_gate,
}
use codex_of_power_ng.Registration.QuickList.Builder.{
  ListItem, QuickListInput, InventoryEntry, determine_disabled_reason, is_allow, is_excluded_fast,
  make_list_item,
}

abbrev pub key_in : QuickListInput → FormId → FormId
key_in input obj =
    get_register_key input.settings.normalize_registration input.game input.variant_base obj

-- What holds of the ids of a listed item.
abbrev pub IsEligible : QuickListInput → FormId → FormId → ℕ → Type 0
IsEligible input obj reg_key group =
    (group ≤ 5)
    × (((is_excluded_fast input obj ≡ false) × (is_excluded_fast input reg_key ≡ false))
        × ((member reg_key input.registered_keys ≡ false)
            × (member obj input.registered_keys ≡ false)))

-- Whether something of an entry may be taken away: no quest protects it, the museum lets it go, and
-- the search for a safe removal finds some.
abbrev pub removal_of : QuickListInput → InventoryEntry → FormId → RemoveSelection
removal_of input entry obj =
    select_safe_removal (some entry.extra_lists) (input.item_count obj)
      input.settings.protect_favorites

abbrev pub IsFree : QuickListInput → InventoryEntry → FormId → FormId → Type 0
IsFree input entry obj reg_key =
    ((entry.is_quest_object ≡ false)
      × ((member reg_key input.quest_protected ≡ false)
          × (member obj input.quest_protected ≡ false)))
    × ((evaluate_tcc_gate input.settings.require_tcc_displayed input.tcc_lists obj reg_key ≡ allow)
        × (0 < (removal_of input entry obj).safe_count))

abbrev pub HasEntry : List (Option InventoryEntry) → InventoryEntry → Type 0
HasEntry [] entry = ⊥
HasEntry (e ∷ entries) entry = (e ≡ some entry) ⊎ HasEntry entries entry

-- How an item shows an entry.
abbrev pub Shows : QuickListInput → InventoryEntry → ListItem → Type 0
Shows input entry item =
    ((item.blocked ≡ false) ↔ IsFree input entry item.form_id item.reg_key)
    × ((item.blocked ≡ false → item.safe_count ≡ (removal_of input entry item.form_id).safe_count)
        × (item.blocked ≡ true → item.safe_count ≡ 0))

-- An item that comes from an entry with a property.
abbrev pub IsListed : QuickListInput → (InventoryEntry → Type 0) → ListItem → Type 0
IsListed input From item =
    IsEligible input item.form_id item.reg_key item.group
    × ((item.reg_key ≡ key_in input item.form_id)
        × ((entry : InventoryEntry) × (From entry
              × ((entry.object ≡ some item.form_id) × Shows input entry item))))

-- The choice of the reason: there is none exactly if nothing stands against the item.
no_reason :
    (protected allowed some_safe favorite : Bool)
    → is_empty (
        if protected
        then "quest_protected"
        else if not allowed
        then "not_actionable"
        else if some_safe
        then ""
        else if favorite
        then "favorite_protected"
        else "not_actionable")
      ≡ not protected && (allowed && some_safe)
no_reason true allowed some_safe favorite = refl
no_reason false false some_safe favorite = refl
no_reason false true true favorite = refl
no_reason false true false true = refl
no_reason false true false false = refl

is_allow_iff : (gate : TccGateDecision) → (is_allow gate ≡ true) ↔ (gate ≡ allow)
is_allow_iff allow = ((λ e. refl), λ e. refl)
is_allow_iff block_not_displayed = ((λ e. ground arith), λ e. ap is_allow e)
is_allow_iff block_unavailable = ((λ e. ground arith), λ e. ap is_allow e)

enabled_iff :
    (object key item : Bool) (gate : TccGateDecision) (safe : ℕ)
    → (not (not (object || (key || item)) && (is_allow gate && ltb 0 safe)) ≡ false)
      ↔ (((object ≡ false) × ((key ≡ false) × (item ≡ false))) × ((gate ≡ allow) × (0 < safe)))
enabled_iff object key item gate safe = ground (arith, is_allow_iff gate)

-- The safe count that is shown: none of a blocked item.
shown_count :
    (blocked : Bool) (safe : ℕ)
    → (blocked ≡ false → (if blocked then 0 else safe) ≡ safe)
      × (blocked ≡ true → (if blocked then 0 else safe) ≡ 0)
shown_count true safe = ((λ e. ground arith), λ e. refl)
shown_count false safe = ((λ e. refl), λ e. ground arith)

pub make_list_item-Shows :
    (input : QuickListInput) (entry : InventoryEntry) (obj k : FormId) (group : ℕ)
    → Shows input entry (make_list_item input entry obj k group)
unfolding make_list_item determine_disabled_reason
make_list_item-Shows input entry obj k group =
    let removal = removal_of input entry obj in
    let quest =
      entry.is_quest_object
      || (member k input.quest_protected || member obj input.quest_protected) in
    let gate = evaluate_tcc_gate input.settings.require_tcc_displayed input.tcc_lists obj k in
    let reason =
      no_reason quest (is_allow gate) (ltb 0 removal.safe_count) removal.blocked_by_favorite in
    let enabled =
      enabled_iff entry.is_quest_object (member k input.quest_protected)
        (member obj input.quest_protected) gate removal.safe_count in
    (
      ((λ e. enabled.0 (ap not (sym reason) ∙ e)), λ f. ap not reason ∙ enabled.1 f),
      shown_count (not (is_empty (determine_disabled_reason quest gate removal)))
          removal.safe_count,
    )
