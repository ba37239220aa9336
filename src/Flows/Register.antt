-- ===== src/Flows/Register.antt =====
-- src/RegistrationQuickRegister.cpp: TryRegisterItem. Of the result's message only its reason is kept.
use codex_of_power_ng.Base.{
  ℕ, Bool, false, not, ◌&&◌, ◌||◌, Option, none, some, List, [], ◌∷◌, ltb, ◌==◌, is_empty,
  if◌then◌else◌,
}
use codex_of_power_ng.Base.Int.{leb_ℤ}
use codex_of_power_ng.Build.Progression.Contribution.{
  make_registration_contribution, apply_registration_contribution,
}
use codex_of_power_ng.Build.Progression.FormTypes.{group_from_form_type, unknown_group}
use codex_of_power_ng.Effects.Sync.{sync_current_build_effects_to_player}
use codex_of_power_ng.Flows.Input.{FlowInput, FlowState}
use codex_of_power_ng.Game.{GameCall, remove_item}
use codex_of_power_ng.Inventory.{select_safe_removal}
use codex_of_power_ng.Registration.Exclusion.{is_excluded_form, is_excluded_or_blocked}
use codex_of_power_ng.Registration.Keys.{get_register_key}
use codex_of_power_ng.Registration.QuickList.{invalidate_quick_register_cache}
use codex_of_power_ng.Registration.QuickList.Builder.{InventoryEntry, best_item_name}
use codex_of_power_ng.Registration.Store.{
  block_pair, insert_registered, is_registered_either, push_undo_record,
}
use codex_of_power_ng.Registration.TccGate.{
  TccGateDecision, allow, block_not_displayed, block_unavailable, evaluate_tcc_gate,
}
use codex_of_power_ng.State.{FormId, RuntimeState, BuildScoreContribution}

pub data RegisterOutcome : Type 0 where
  player_unavailable invalid_form_id excluded_item quest_item already_registered not_discoverable :
      RegisterOutcome
  not_displayed gate_unavailable not_in_inventory unnamed_item protected_item cannot_destroy :
      RegisterOutcome
  registered : FormId → ℕ → ℕ → RegisterOutcome

-- The register key, which is never null for a form that is not.
abbrev pub key_of : FlowInput → FormId → FormId
key_of w item = get_register_key w.settings.normalize_registration w.game w.variant_base item

unfoldable pub get_discovery_group : FlowInput → RuntimeState → FormId → ℕ
get_discovery_group w state form =
    if is_excluded_form w.game w.excluded state form
    then unknown_group
    else group_from_form_type (w.game.form_type form)

abbrev pub is_protected : (FormId → Bool) → FormId → FormId → Bool
is_protected quest_protected item key =
    quest_protected item || (not (key == item) && quest_protected key)

abbrev pub gate_outcome : TccGateDecision → Option RegisterOutcome
gate_outcome allow = none
gate_outcome block_not_displayed = some not_displayed
gate_outcome block_unavailable = some gate_unavailable

-- The guards before the inventory is searched, in their order.
unfoldable pub refusal : FlowInput → RuntimeState → FormId → Option RegisterOutcome
unfolding get_discovery_group
refusal w state item =
    if not w.has_player
    then some player_unavailable
    else if not (w.is_bound item)
    then some invalid_form_id
    else if is_excluded_or_blocked w.game w.excluded state item (key_of w item)
    then some excluded_item
    else if is_protected w.quest_protected item (key_of w item)
    then some quest_item
    else if is_registered_either (key_of w item) item state
    then some already_registered
    else if ltb 5 (get_discovery_group w state (key_of w item))
    then some not_discoverable
    else gate_outcome
        (evaluate_tcc_gate w.settings.require_tcc_displayed w.tcc_lists item (key_of w item))

abbrev is_object : Option FormId → FormId → Bool
is_object none item = false
is_object (some object) item = object == item

-- The first entry of the item.
unfoldable pub find_entry : FormId → List (Option InventoryEntry) → Option InventoryEntry
find_entry item [] = none
find_entry item (none ∷ entries) = find_entry item entries
find_entry item (some e ∷ entries) =
    if is_object e.object item then some e else find_entry item entries

-- `ApplyRegistrationContribution` and the sync, where there is a contribution.
unfoldable pub apply_contribution :
    FlowInput
    → Option BuildScoreContribution
    → RuntimeState × List GameCall
    → RuntimeState × List GameCall
apply_contribution w none (state, calls) = (state, calls)
apply_contribution w (some c) (state, calls) =
    sync_current_build_effects_to_player w.float_ops w.actor_values w.sort_totals w.order_values
      w.player_values ((apply_registration_contribution c state).0, calls)

module _ {A : Type 0} where
  -- After the item is gone.
  unfoldable pub complete_registration :
      FlowInput → FormId → FlowState A → FlowState A × RegisterOutcome
  unfolding apply_contribution
  complete_registration w item s =
      let key = key_of w item in
      let group = get_discovery_group w s.runtime key in
      let (inserted, total) = insert_registered key group s.runtime in
      let contribution = make_registration_contribution group (w.game.form_type key) in
      let (applied, calls) = apply_contribution w contribution (inserted, s.calls) in
      let pushed =
        push_undo_record
          (record {
            action_id = 0;
            form_id = item;
            reg_key = key;
            group = group;
            build_contribution = contribution;
            reward_deltas = [];
          })
          applied in
      (
        record {
          runtime = pushed.0;
          calls = calls;
          quick_list = invalidate_quick_register_cache s.quick_list;
        },
        registered key group total,
      )

  abbrev pub block : FlowInput → FormId → FlowState A → FlowState A
  block w item s = record s { runtime = block_pair (key_of w item) item s.runtime }

  unfoldable pub remove_and_complete :
      FlowInput → FormId → InventoryEntry → FlowState A → FlowState A × RegisterOutcome
  unfolding complete_registration
  remove_and_complete w item entry s =
      let removal =
        select_safe_removal (some entry.extra_lists) (w.item_count s.calls item)
          w.settings.protect_favorites in
      if is_empty (best_item_name w.game (key_of w item) item)
      then (block w item s, unnamed_item)
      else if removal.safe_count == 0
      then (s, protected_item)
      else let removed : FlowState A = record s {
        calls = remove_item item removal.extra_list ∷ s.calls;
      } in
        if leb_ℤ (w.item_count s.calls item) (w.item_count removed.calls item)
        then (block w item removed, cannot_destroy)
        else complete_registration w item removed

  unfoldable pub register_entry :
      FlowInput → FormId → Option InventoryEntry → FlowState A → FlowState A × RegisterOutcome
  unfolding remove_and_complete
  register_entry w item none s = (s, not_in_inventory)
  register_entry w item (some entry) s =
      if entry.is_quest_object || is_protected w.quest_protected_later item (key_of w item)
      then (s, quest_item)
      else remove_and_complete w item entry s

  unfoldable pub register_unless :
      FlowInput → FormId → Option RegisterOutcome → FlowState A → FlowState A × RegisterOutcome
  unfolding register_entry find_entry
  register_unless w item (some outcome) s = (s, outcome)
  register_unless w item none s = register_entry w item (find_entry item w.inventory) s

  unfoldable pub try_register_item :
      FlowInput → FormId → FlowState A → FlowState A × RegisterOutcome
  unfolding register_unless refusal
  try_register_item w item s = register_unless w item (refusal w s.runtime item) s
