-- ===== src/Tests/Flows.antt =====
-- An axe that is registered and given back.
use codex_of_power_ng.Base.{
  ℕ, ◌+◌, ◌-◌, ◌≡◌, Bool, true, false, not, ◌==◌, if◌then◌else◌, none, some, some-injective, List,
  [], ◌∷◌, refl, arith, subst, ◌⊎◌, inr,
}
use codex_of_power_ng.Base.Int.{pos}
use codex_of_power_ng.Base.Keyed.{lookup}
use codex_of_power_ng.Build.History.{initial_state-IsSound}
use codex_of_power_ng.Build.Progression.Contribution.{
  make_registration_contribution, apply_registration_contribution,
}
use codex_of_power_ng.Build.Progression.FormTypes.{weapon, group_from_form_type}
use codex_of_power_ng.Build.Progression.RoundTrip.{NoOverflow}
use codex_of_power_ng.Build.StateStore.{score_for_discipline, build_points_for_discipline}
use codex_of_power_ng.Effects.Sync.{sync_current_build_effects_to_player}
use codex_of_power_ng.Flows.FailedUndo.{HasSameItems, try_undo_failed}
use codex_of_power_ng.Flows.Input.{FlowInput, FlowState}
use codex_of_power_ng.Flows.Register.{try_register_item, get_discovery_group, refusal}
use codex_of_power_ng.Flows.Registered.{contribution}
use codex_of_power_ng.Flows.RoundTrip.{register-undo}
use codex_of_power_ng.Flows.Runtime.{is_success}
use codex_of_power_ng.Flows.Undo.{try_undo_registration}
use codex_of_power_ng.Flows.Undone.{is_undone}
use codex_of_power_ng.Game.{
  GameCall, remove_item, add_object, restore_actor_value, update_weapon_abilities,
  schedule_carry_weight_resync,
}
use codex_of_power_ng.Inventory.{select_safe_removal}
use codex_of_power_ng.Registration.Exclusion.{is_excluded_form, is_excluded_or_blocked}
use codex_of_power_ng.Registration.Keys.{get_register_key, walk_variants, variant_step}
use codex_of_power_ng.Registration.Store.{
  is_registered_either, is_blocked, push_undo_record, pop_latest_undo_record, pop_back,
  remove_registered, insert_registered,
}
use codex_of_power_ng.Registration.QuickList.Builder.{best_item_name}
use codex_of_power_ng.Registration.Store.History.{kept}
use codex_of_power_ng.Registration.TccGate.{evaluate_tcc_gate}
use codex_of_power_ng.State.{UndoRecord, initial_state, BuildScoreContribution}
use codex_of_power_ng.State.{FormId}
use codex_of_power_ng.Tests.Values.{some_floats, some_actor_values}

-- Three axes at first, one less for each removal and one more for each gift.
held : List GameCall → ℕ
held [] = 3
held (remove_item id extra ∷ calls) = held calls - 1
held (add_object id ∷ calls) = held calls + 1
held (restore_actor_value av delta ∷ calls) = held calls
held (update_weapon_abilities ∷ calls) = held calls
held (schedule_carry_weight_resync ∷ calls) = held calls

-- A weapon, by its number, which a game can name or not.
abbrev axe_owner : Bool → FlowInput
axe_owner is_named = record {
  game = record {
    is_form = λ id. not (id == 0);
    form_type = λ id. weapon;
    form_name = λ id. if is_named then "axe" else "";
    is_key = λ id. false;
    is_lockpick = λ id. false;
    is_gold = λ id. false;
    template_weapon = λ id. none;
  };
  is_bound = λ id. not (id == 0);
  excluded = [];
  variant_base = [];
  settings = record {
    normalize_registration = true;
    require_tcc_displayed = false;
    protect_favorites = true;
  };
  tcc_lists = record { master = none; displayed = none };
  quest_protected = λ id. false;
  quest_protected_later = λ id. false;
  has_player = true;
  inventory =
      none ∷ some (record { object = some 77; is_quest_object = false; extra_lists = [] }) ∷ [];
  item_count = λ calls id. pos (held calls);
  player_values = record { has_owner = true; actor_value = λ calls av. 100 };
  float_ops = some_floats;
  actor_values = some_actor_values;
  sort_totals = λ totals. totals;
  order_values = λ values. values;
}

abbrev start : FlowState FormId
start = record {
  runtime = initial_state;
  calls = [];
  quick_list = record {
    cache = record { all_eligible = []; generation = 1; built_at_ms = 0; settings_mask = 0 };
    current_generation = 1;
  };
}

axe_registered : is_success ((try_register_item (axe_owner true) 77 start).1) ≡ true
unfolding try_register_item refusal held is_excluded_or_blocked is_excluded_form is_blocked
    is_registered_either evaluate_tcc_gate get_discovery_group get_register_key walk_variants
    variant_step group_from_form_type select_safe_removal best_item_name
axe_registered = refl

abbrev taken : FlowState FormId
taken = (try_register_item (axe_owner true) 77 start).0

axe_undone : is_undone ((try_undo_registration (axe_owner true) 1 taken).1) ≡ true
unfolding try_undo_registration try_register_item refusal held is_excluded_or_blocked
    is_excluded_form is_blocked is_registered_either evaluate_tcc_gate get_discovery_group
    get_register_key walk_variants variant_step group_from_form_type select_safe_removal
    best_item_name pop_latest_undo_record push_undo_record remove_registered insert_registered
    sync_current_build_effects_to_player apply_registration_contribution
    make_registration_contribution pop_back
axe_undone = refl

axe_has_room :
    (c : BuildScoreContribution)
    → contribution (axe_owner true) 77 initial_state ≡ some c
    → NoOverflow c initial_state
unfolding make_registration_contribution get_discovery_group is_excluded_form is_blocked
    group_from_form_type get_register_key walk_variants variant_step score_for_discipline
    build_points_for_discipline
axe_has_room c e =
    subst (λ d. NoOverflow d initial_state) (some-injective _ c e) (omega arith, omega arith)

register-undo_example :
    let after = (try_undo_registration (axe_owner true) 1 taken).0.runtime in
    after ≡ record initial_state {
      undo_history = kept [];
      undo_next_action_id = 1 + 1;
      build_applied_effect_totals = after.build_applied_effect_totals;
    }
register-undo_example =
    register-undo (axe_owner true) (axe_owner true) 77 start
      (omega arith, (omega arith, omega arith)) (omega arith) initial_state-IsSound.build
      axe_has_room axe_registered axe_undone

-- A registration to undo, without a player.
abbrev with_axe : FlowState FormId
with_axe = record start {
  runtime = record initial_state {
    registered_items = (12, 0) ∷ (77, 0) ∷ [];
    undo_history =
        record {
          action_id = 4;
          form_id = 77;
          reg_key = 77;
          group = 0;
          build_contribution = none;
          reward_deltas = [];
        }
        ∷ [];
    undo_next_action_id = 5;
  };
}

abbrev no_player : FlowInput
no_player = record (axe_owner true) { has_player = false }

undo_refused : is_undone ((try_undo_registration no_player 4 with_axe).1) ≡ false
unfolding try_undo_registration pop_latest_undo_record remove_registered pop_back
undo_refused = refl

axe_matches :
    (r : UndoRecord)
    → (pop_latest_undo_record 4 with_axe.runtime).1 ≡ some r
    → (lookup r.reg_key with_axe.runtime.registered_items ≡ none)
      ⊎ (lookup r.reg_key with_axe.runtime.registered_items ≡ some r.group)
unfolding pop_latest_undo_record pop_back
axe_matches r e =
    subst
      (λ q.
        (lookup q.reg_key with_axe.runtime.registered_items ≡ none)
        ⊎ (lookup q.reg_key with_axe.runtime.registered_items ≡ some q.group))
      (some-injective _ r e) (inr refl)

try_undo_failed_example :
    HasSameItems ((try_undo_registration no_player 4 with_axe).0.runtime) with_axe.runtime
try_undo_failed_example =
    try_undo_failed no_player 4 with_axe (omega arith, ((omega arith, omega arith), omega arith))
      (refl, (refl, tt)) axe_matches undo_refused
