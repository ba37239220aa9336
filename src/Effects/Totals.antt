-- ===== src/Effects/Totals.antt =====
-- src/BuildEffectRuntime.cpp: the totals that the active options ask for.
use codex_of_power_ng.Base.{
  ℕ, Bool, true, false, not, ◌||◌, Option, none, some, List, [], ◌∷◌, String, is_empty, ltb,
  if◌then◌else◌,
}
use text.Mathlib.Text.{◌==◌ as str_eq}
use codex_of_power_ng.Base.Keyed.{lookup, assign}
use codex_of_power_ng.Build.Magnitude.{EffectPart, get_resolved_build_effect_bundle}
use codex_of_power_ng.Build.Slots.{Slots, slot_at, find_option, is_slot_compatible}
use codex_of_power_ng.Build.Types.{
  BuildDiscipline, BuildSlotId, BuildOptionDef, attack1, attack2, defense1, utility1, utility2,
  wildcard1, once_only, BuildStackRule,
}
use codex_of_power_ng.Effects.Deltas.{resolve_actor_value_deltas}
use codex_of_power_ng.Game.{FloatOps, ActorValues}
use codex_of_power_ng.Rewards.Caps.{reward_cap_epsilon}
use codex_of_power_ng.State.{ActorValue, Float32, RuntimeState}

pub record BuildRuntimeSnapshot : Type 0 where
  pub attack_score : ℕ
  pub defense_score : ℕ
  pub utility_score : ℕ
  pub attack_build_points_centi : ℕ
  pub defense_build_points_centi : ℕ
  pub utility_build_points_centi : ℕ
  pub active_build_slots : Slots

abbrev pub snapshot_current_build_runtime : RuntimeState → BuildRuntimeSnapshot
snapshot_current_build_runtime state = record {
  attack_score = state.attack_score;
  defense_score = state.defense_score;
  utility_score = state.utility_score;
  attack_build_points_centi = state.attack_build_points_centi;
  defense_build_points_centi = state.defense_build_points_centi;
  utility_build_points_centi = state.utility_build_points_centi;
  active_build_slots = state.active_build_slots;
}

abbrev pub points_for : BuildRuntimeSnapshot → BuildDiscipline → ℕ
points_for s BuildDiscipline.attack = s.attack_build_points_centi
points_for s BuildDiscipline.defense = s.defense_build_points_centi
points_for s BuildDiscipline.utility = s.utility_build_points_centi
points_for s (BuildDiscipline.other n) = 0

abbrev pub initial_slot_layout : List BuildSlotId
initial_slot_layout = attack1 ∷ attack2 ∷ defense1 ∷ utility1 ∷ utility2 ∷ wildcard1 ∷ []

abbrev pub has_text : String → List String → Bool
has_text t [] = false
has_text t (u ∷ us) = str_eq u t || has_text t us

abbrev is_once_only : BuildStackRule → Bool
is_once_only once_only = true

-- The value, zero for an actor value that the map does not have.
abbrev pub total_of : Option Float32 → Float32
total_of none = 0
total_of (some total) = total

module _ (fl : FloatOps) (avs : ActorValues) where
  unfoldable pub add_deltas :
      List (ActorValue × Float32) → List (ActorValue × Float32) → List (ActorValue × Float32)
  add_deltas [] totals = totals
  add_deltas ((av, delta) ∷ deltas) totals =
      add_deltas deltas (assign av (fl.fadd (total_of (lookup av totals)) delta) totals)

  unfoldable pub accumulate_effects :
      List EffectPart → List (ActorValue × Float32) → List (ActorValue × Float32)
  unfolding add_deltas resolve_actor_value_deltas
  accumulate_effects [] totals = totals
  accumulate_effects (part ∷ parts) totals = accumulate_effects parts (
      add_deltas (resolve_actor_value_deltas fl avs part.effect_type part.effect_key part.magnitude)
        totals)

  -- One slot whose text names an option; the ids of the options that count only once are kept.
  abbrev apply_option :
      BuildRuntimeSnapshot
      → BuildSlotId
      → Option BuildOptionDef
      → List String × List (ActorValue × Float32)
      → List String × List (ActorValue × Float32)
  apply_option s slot_id none (applied, totals) = (applied, totals)
  apply_option s slot_id (some option) (applied, totals) =
      let points = points_for s option.discipline in
      if ltb points option.unlock_points_centi
      then (applied, totals)
      else if not (is_slot_compatible option slot_id)
      then (applied, totals)
      else if is_once_only option.stack_rule
      then (if has_text option.id applied then (applied, totals) else (
        option.id ∷ applied,
        accumulate_effects (get_resolved_build_effect_bundle fl option points) totals,
      ))
      else (applied, accumulate_effects (get_resolved_build_effect_bundle fl option points) totals)

  unfoldable pub apply_slots :
      BuildRuntimeSnapshot
      → List BuildSlotId
      → List String × List (ActorValue × Float32)
      → List String × List (ActorValue × Float32)
  unfolding accumulate_effects get_resolved_build_effect_bundle is_slot_compatible find_option
  apply_slots s [] acc = acc
  apply_slots s (slot_id ∷ slots) acc =
      let option_id = slot_at s.active_build_slots slot_id in
      apply_slots s slots
        (if is_empty option_id then acc else apply_option s slot_id (find_option option_id) acc)

  -- The totals that are worth a call.
  unfoldable pub sizable : List (ActorValue × Float32) → List (ActorValue × Float32)
  sizable [] = []
  sizable ((av, total) ∷ totals) =
      if fl.fle (fl.fabs total) reward_cap_epsilon
      then sizable totals
      else (av, total) ∷ sizable totals

  -- `std::sort` by the actor value is an argument.
  unfoldable pub compute_derived_build_actor_value_totals :
      (List (ActorValue × Float32) → List (ActorValue × Float32))
      → BuildRuntimeSnapshot
      → List (ActorValue × Float32)
  unfolding apply_slots sizable
  compute_derived_build_actor_value_totals sort s =
      sort (sizable ((apply_slots s initial_slot_layout ([], [])).1))
