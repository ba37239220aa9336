-- ===== src/Flows/Undo.antt =====
-- src/RegistrationUndo.cpp: TryUndoRegistration. Of the result's message only its reason is kept.
use codex_of_power_ng.Base.{
  ℕ, Bool, true, false, not, ◌&&◌, ◌||◌, Option, none, some, List, [], ◌∷◌, ltb, if◌then◌else◌,
}
use codex_of_power_ng.Base.Int.{pos, ltb_ℤ, leb_ℤ}
use codex_of_power_ng.Build.Progression.Rollback.{rollback_registration_contribution_detailed}
use codex_of_power_ng.Effects.Sync.{is_small, sync_current_build_effects_to_player}
use codex_of_power_ng.Flows.Input.{FlowInput, FlowState}
use codex_of_power_ng.Game.{FloatOps, GameCall, add_object}
use codex_of_power_ng.Registration.QuickList.{invalidate_quick_register_cache}
use codex_of_power_ng.Registration.Store.{
  insert_registered, remove_registered, pop_latest_undo_record, restore_undo_record,
  registered_count,
}
use codex_of_power_ng.Rewards.Totals.{rollback_reward_deltas}
use codex_of_power_ng.State.{FormId, RuntimeState, UndoRecord, RewardDelta, BuildScoreContribution}

-- `undone` has the total of the registered items, and whether the message warns of a rollback that
-- changed nothing.
pub data UndoOutcome : Type 0 where
  only_latest missing_registration player_unavailable item_missing restore_failed : UndoOutcome
  undone : FormId → ℕ → Bool → UndoOutcome

abbrev pub resolve_undo_item_object : FlowInput → UndoRecord → Option FormId
resolve_undo_item_object w r =
    if w.is_bound r.form_id
    then some r.form_id
    else if w.is_bound r.reg_key
    then some r.reg_key
    else none

unfoldable pub rollback_failed_undo : UndoRecord → RuntimeState → RuntimeState
rollback_failed_undo r state = restore_undo_record r (insert_registered r.reg_key r.group state).0

abbrev pub any_sizable : FloatOps → List RewardDelta → Bool
any_sizable fl [] = false
any_sizable fl (d ∷ deltas) = not (is_small fl d.delta) || any_sizable fl deltas

-- The rollback of the contribution, else that of the reward deltas; with the warning.
unfoldable pub rollback_progress :
    FlowInput
    → UndoRecord
    → Option BuildScoreContribution
    → RuntimeState × List GameCall
    → (RuntimeState × List GameCall) × Bool
rollback_progress w r (some c) (state, calls) =
    let rolled = rollback_registration_contribution_detailed c state in
    let had_target = ltb_ℤ (pos 0) c.record_delta || ltb_ℤ (pos 0) c.points_delta_centi in
    let applied = rolled.1.score_changed || ltb 0 rolled.1.deactivated_slots in
    (
      sync_current_build_effects_to_player w.float_ops w.actor_values w.sort_totals w.order_values
          w.player_values (rolled.0, calls),
      had_target && not applied,
    )
rollback_progress w r none (state, calls) =
    let rolled =
      rollback_reward_deltas w.float_ops w.actor_values w.player_values.has_owner r.reward_deltas
        (state, calls) in
    (rolled.0, any_sizable w.float_ops r.reward_deltas && not (ltb 0 rolled.1))

module _ {A : Type 0} where
  unfoldable pub complete_undo : FlowInput → UndoRecord → FlowState A → FlowState A × UndoOutcome
  unfolding rollback_progress
  complete_undo w r s =
      let rolled = rollback_progress w r r.build_contribution (s.runtime, s.calls) in
      (
        record {
          runtime = rolled.0.0;
          calls = rolled.0.1;
          quick_list = invalidate_quick_register_cache s.quick_list;
        },
        undone r.reg_key (registered_count (rolled.0.0)) rolled.1,
      )

  abbrev pub fail_undo : UndoRecord → UndoOutcome → FlowState A → FlowState A × UndoOutcome
  fail_undo r outcome s = (record s { runtime = rollback_failed_undo r s.runtime }, outcome)

  unfoldable pub give_back :
      FlowInput → UndoRecord → Option FormId → FlowState A → FlowState A × UndoOutcome
  unfolding complete_undo rollback_failed_undo
  give_back w r none s = fail_undo r item_missing s
  give_back w r (some item) s =
      let given : FlowState A = record s { calls = add_object item ∷ s.calls } in
      if leb_ℤ (w.item_count given.calls item) (w.item_count s.calls item)
      then fail_undo r restore_failed given
      else complete_undo w r given

  unfoldable pub undo_removed :
      FlowInput → UndoRecord → Bool → FlowState A → FlowState A × UndoOutcome
  unfolding give_back rollback_failed_undo
  undo_removed w r false s =
      (record s { runtime = restore_undo_record r s.runtime }, missing_registration)
  undo_removed w r true s =
      if not w.has_player
      then fail_undo r player_unavailable s
      else give_back w r (resolve_undo_item_object w r) s

  unfoldable pub undo_record :
      FlowInput → Option UndoRecord → FlowState A → FlowState A × UndoOutcome
  unfolding undo_removed
  undo_record w none s = (s, only_latest)
  undo_record w (some r) s =
      let (removed, found) = remove_registered r.reg_key s.runtime in
      undo_removed w r found (record s { runtime = removed })

  unfoldable pub try_undo_registration : FlowInput → ℕ → FlowState A → FlowState A × UndoOutcome
  unfolding undo_record
  try_undo_registration w action_id s =
      let (popped, found) = pop_latest_undo_record action_id s.runtime in
      undo_record w found (record s { runtime = popped })
