-- ===== src/Effects/Sync.antt =====
-- src/BuildEffectRuntime.cpp: SyncCurrentBuildEffectsToPlayer. The game is the list of the calls made
-- to it, and what it answers to them.
use codex_of_power_ng.Base.{Bool, false, not, ◌||◌, List, [], ◌∷◌, ◌==◌, if◌then◌else◌}
use codex_of_power_ng.Base.Keyed.{lookup, assign, emplace, erase, insert}
use codex_of_power_ng.Effects.Totals.{
  compute_derived_build_actor_value_totals, snapshot_current_build_runtime, total_of,
}
use codex_of_power_ng.Game.{
  FloatOps, ActorValues, GameCall, restore_actor_value, update_weapon_abilities,
}
use codex_of_power_ng.Rewards.Caps.{reward_cap_epsilon}
use codex_of_power_ng.State.{ActorValue, Float32, RuntimeState}

-- `0.30f`
abbrev shout_recovery_min_value : Float32
shout_recovery_min_value = 0x3e99_999a

-- The player: whether there is one that owns actor values, and what a value is after some calls.
pub record PlayerValues : Type 0 where
  pub has_owner : Bool
  pub actor_value : List GameCall → ActorValue → Float32

-- `desiredTotals.emplace` of each entry.
abbrev pub emplace_all :
    List (ActorValue × Float32) → List (ActorValue × Float32) → List (ActorValue × Float32)
emplace_all [] totals = totals
emplace_all ((av, total) ∷ rest) totals = emplace_all rest (emplace av total totals)

abbrev pub insert_keys : List (ActorValue × Float32) → List ActorValue → List ActorValue
insert_keys [] keys = keys
insert_keys ((av, total) ∷ rest) keys = insert_keys rest (insert av keys)

-- The state of the loop: the next totals, the calls, and whether the weapons are to be refreshed.
pub record SyncState : Type 0 where
  pub next : List (ActorValue × Float32)
  pub calls : List GameCall
  pub refresh : Bool

-- The weapons in both hands are refreshed at the end, which is one call here.
abbrev pub refreshed : SyncState → List GameCall
refreshed w = if w.refresh then update_weapon_abilities ∷ w.calls else w.calls

module _ (fl : FloatOps) where
  abbrev pub is_small : Float32 → Bool
  is_small x = fl.fle (fl.fabs x) reward_cap_epsilon

  -- Totals within the tolerance of zero are not kept.
  abbrev pub keep_total :
      ActorValue → Float32 → List (ActorValue × Float32) → List (ActorValue × Float32)
  keep_total av total totals = if is_small total then erase av totals else assign av total totals

module _ (fl : FloatOps) (avs : ActorValues) where
  unfoldable pub clamp_build_sync_delta : ActorValue → Float32 → Float32 → Float32
  clamp_build_sync_delta av current_value desired_delta =
      if not (fl.is_finite current_value) || not (fl.is_finite desired_delta)
      then 0
      else if not (av == avs.shout_recovery_mult) || fl.fle 0 desired_delta
      then desired_delta
      else if fl.fle current_value (fl.fadd shout_recovery_min_value reward_cap_epsilon)
      then 0
      else if fl.flt (fl.fadd current_value desired_delta) shout_recovery_min_value
      then fl.fsub shout_recovery_min_value current_value
      else desired_delta

  unfoldable pub sync_value :
      PlayerValues
      → List (ActorValue × Float32)
      → List (ActorValue × Float32)
      → ActorValue
      → SyncState
      → SyncState
  unfolding clamp_build_sync_delta
  sync_value player current desired av w =
      let current_total = total_of (lookup av current) in
      let desired_delta = fl.fsub (total_of (lookup av desired)) current_total in
      let delta = clamp_build_sync_delta av (player.actor_value w.calls av) desired_delta in
      if is_small fl delta
      then record w { next = keep_total fl av current_total w.next }
      else record {
        next = keep_total fl av (fl.fadd current_total delta) w.next;
        calls = restore_actor_value av delta ∷ w.calls;
        refresh = av == avs.attack_damage_mult || (av == avs.weapon_speed_mult || w.refresh);
      }

  unfoldable pub sync_values :
      PlayerValues
      → List (ActorValue × Float32)
      → List (ActorValue × Float32)
      → List ActorValue
      → SyncState
      → SyncState
  unfolding sync_value
  sync_values player current desired [] w = w
  sync_values player current desired (av ∷ rest) w =
      sync_values player current desired rest (sync_value player current desired av w)

  -- `sort` is `std::sort` of the totals by key, `order` the order in which the hash set of the values
  -- gives its keys.
  unfoldable pub sync_current_build_effects_to_player :
      (List (ActorValue × Float32) → List (ActorValue × Float32))
      → (List ActorValue → List ActorValue)
      → PlayerValues
      → RuntimeState × List GameCall
      → RuntimeState × List GameCall
  unfolding compute_derived_build_actor_value_totals sync_values
  sync_current_build_effects_to_player sort order player (state, calls) =
      if not player.has_owner
      then (state, calls)
      else let desired =
          emplace_all
            (compute_derived_build_actor_value_totals fl avs sort
              (snapshot_current_build_runtime state))
            [] in
        let current = state.build_applied_effect_totals in
        let values = order (insert_keys desired (insert_keys current [])) in
        let done =
          sync_values player current desired values
            (record { next = current; calls = calls; refresh = false }) in
        (record state { build_applied_effect_totals = done.next }, refreshed done)
