-- ===== src/Rewards/Totals.antt =====
-- include/CodexOfPowerNG/RewardStateStoreOps.h and src/RewardStateStore.cpp: the operations on the
-- reward totals; and RollbackRewardDeltas of src/Rewards.cpp, which takes deltas back.
use codex_of_power_ng.Base.{
  ℕ, ◌+◌, ◌-◌, Bool, true, false, not, ◌||◌, List, [], ◌∷◌, ◌++◌, length, ltb, ◌==◌, is_some,
  if◌then◌else◌,
}
use codex_of_power_ng.Base.Keyed.{lookup, assign, erase}
use codex_of_power_ng.Effects.Totals.{total_of}
use codex_of_power_ng.Effects.Sync.{is_small}
use codex_of_power_ng.Game.{
  FloatOps, ActorValues, GameCall, restore_actor_value, schedule_carry_weight_resync,
}
use codex_of_power_ng.Rewards.Caps.{clamp_reward_total, actor_applied_reward_total}
use codex_of_power_ng.State.{ActorValue, Float32, RewardDelta, RuntimeState}

pub record RewardTotalTransition : Type 0 where
  pub existed_before : Bool
  pub previous_total : Float32
  pub next_total : Float32

-- The sign bit of a single.
abbrev pub negated : Float32 → Float32
negated x = if ltb x 0x8000_0000 then x + 0x8000_0000 else x - 0x8000_0000

module _ (fl : FloatOps) where
  -- The store's `Set`.
  unfoldable pub set_total :
      ActorValue → Float32 → List (ActorValue × Float32) → List (ActorValue × Float32)
  set_total av total totals = if is_small fl total then erase av totals else assign av total totals

module _ (fl : FloatOps) (avs : ActorValues) where
  unfoldable pub adjust_clamped :
      ActorValue → Float32 → RuntimeState → RuntimeState × RewardTotalTransition
  unfolding set_total clamp_reward_total
  adjust_clamped av delta state =
      let found = lookup av state.reward_totals in
      let next = clamp_reward_total avs fl av (fl.fadd (total_of found) delta) in
      (
        record state { reward_totals = set_total fl av next state.reward_totals },
        record {
          existed_before = is_some found;
          previous_total = total_of found;
          next_total = next;
        },
      )

  -- One delta of the loop: the change of the total, and what the player's value is to be changed by.
  abbrev rollback_step : RewardTotalTransition → ActorValue → List RewardDelta
  rollback_step t av =
      let applied =
        fl.fsub (actor_applied_reward_total avs fl av t.next_total)
          (actor_applied_reward_total avs fl av t.previous_total) in
      if not t.existed_before
      then []
      else if is_small fl applied
      then []
      else record { av = av; delta = applied } ∷ []

  unfoldable pub rollback_totals : List RewardDelta → RuntimeState → RuntimeState × List RewardDelta
  unfolding adjust_clamped actor_applied_reward_total
  rollback_totals [] state = (state, [])
  rollback_totals (d ∷ deltas) state =
      if is_small fl d.delta
      then rollback_totals deltas state
      else let adjusted = adjust_clamped d.av (negated d.delta) state in
        let rest = rollback_totals deltas (adjusted.0) in
        (rest.0, rollback_step adjusted.1 d.av ++ rest.1)

  abbrev restore_all : List RewardDelta → List GameCall → List GameCall
  restore_all [] calls = calls
  restore_all (d ∷ deltas) calls = restore_all deltas (restore_actor_value d.av d.delta ∷ calls)

  abbrev touches_carry_weight : List RewardDelta → Bool
  touches_carry_weight [] = false
  touches_carry_weight (d ∷ deltas) = d.av == avs.carry_weight || touches_carry_weight deltas

  abbrev resync_if : Bool → List GameCall → List GameCall
  resync_if true calls = schedule_carry_weight_resync ∷ calls
  resync_if false calls = calls

  abbrev is_nil_deltas : List RewardDelta → Bool
  is_nil_deltas [] = true
  is_nil_deltas (d ∷ deltas) = false

  -- The number of adjustments comes with the state and the calls.
  unfoldable pub rollback_reward_deltas :
      Bool → List RewardDelta → RuntimeState × List GameCall → (RuntimeState × List GameCall) × ℕ
  unfolding rollback_totals
  rollback_reward_deltas has_owner deltas (state, calls) =
      if is_nil_deltas deltas || not has_owner
      then ((state, calls), 0)
      else let (after, adjustments) = rollback_totals deltas state in
        (
          (after, resync_if (touches_carry_weight adjustments) (restore_all adjustments calls)),
          length adjustments,
        )
