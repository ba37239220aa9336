-- ===== src/Effects/Deltas.antt =====
-- src/BuildEffectRuntime.cpp: the actor values that one part of an option's effect changes.
use text.Mathlib.Text.{◌==◌ as str_eq}
use codex_of_power_ng.Base.{List, [], ◌∷◌, String, if◌then◌else◌}
use codex_of_power_ng.Build.Types.{
  BuildEffectType, BuildMagnitude, actor_value, carry_weight, economy, float, int32,
}
use codex_of_power_ng.Game.{FloatOps, ActorValues}
use codex_of_power_ng.State.{ActorValue, Float32}

-- `100.0f`
abbrev hundred : Float32
hundred = 0x42c8_0000

-- `0.05f`
abbrev speechcraft_scale : Float32
speechcraft_scale = 0x3d4c_cccd

module _ (fl : FloatOps) (avs : ActorValues) where
  value_deltas : String → Float32 → List (ActorValue × Float32)
  value_deltas key amount =
      if str_eq key "attack_damage_mult"
      then (avs.attack_damage_mult, fl.fdiv amount hundred) ∷ []
      else if str_eq key "weapon_speed_mult"
      then (avs.weapon_speed_mult, fl.fdiv amount hundred) ∷ []
      else if str_eq key "critical_chance"
      then (avs.critical_chance, amount) ∷ []
      else if str_eq key "melee_damage"
      then (avs.melee_damage, amount) ∷ []
      else if str_eq key "unarmed_damage"
      then (avs.unarmed_damage, amount) ∷ []
      else if str_eq key "stamina"
      then (avs.stamina, amount) ∷ []
      else if str_eq key "stamina_rate"
      then (avs.stamina_rate, amount) ∷ []
      else if str_eq key "destruction_modifier"
      then (avs.destruction_modifier, amount) ∷ []
      else if str_eq key "damage_resist"
      then (avs.damage_resist, amount) ∷ []
      else if str_eq key "block_power_modifier"
      then (avs.block_power_modifier, amount) ∷ []
      else if str_eq key "health"
      then (avs.health, amount) ∷ []
      else if str_eq key "heal_rate"
      then (avs.heal_rate, amount) ∷ []
      else if str_eq key "restoration_modifier"
      then (avs.restoration_modifier, amount) ∷ []
      else if str_eq key "reflect_damage"
      then (avs.reflect_damage, amount) ∷ []
      else if str_eq key "alteration_modifier"
      then (avs.alteration_modifier, amount) ∷ []
      else if str_eq key "magic_resist_bundle"
      then (avs.resist_magic, amount) ∷ []
      else if str_eq key "elemental_resist_bundle"
      then (avs.resist_fire, amount) ∷ (avs.resist_frost, amount) ∷ (avs.resist_shock, amount) ∷ []
      else if str_eq key "status_resist_bundle"
      then (avs.poison_resist, amount) ∷ (avs.resist_disease, amount) ∷ []
      else if str_eq key "absorb_chance"
      then (avs.absorb_chance, amount) ∷ []
      else if str_eq key "smithing_modifier"
      then (avs.smithing_modifier, amount) ∷ []
      else if str_eq key "alchemy_modifier"
      then (avs.alchemy_modifier, amount) ∷ []
      else if str_eq key "enchanting_modifier"
      then (avs.enchanting_modifier, amount) ∷ []
      else if str_eq key "magicka"
      then (avs.magicka, amount) ∷ []
      else if str_eq key "magicka_rate"
      then (avs.magicka_rate, amount) ∷ []
      else if str_eq key "lockpicking_modifier"
      then (avs.lockpicking_modifier, amount) ∷ []
      else if str_eq key "pickpocket_modifier"
      then (avs.pickpocket_modifier, amount) ∷ []
      else if str_eq key "sneaking_modifier"
      then (avs.sneaking_modifier, amount) ∷ []
      else if str_eq key "conjuration_modifier"
      then (avs.conjuration_modifier, amount) ∷ []
      else if str_eq key "illusion_modifier"
      then (avs.illusion_modifier, amount) ∷ []
      else if str_eq key "speed_mult"
      then (avs.speed_mult, fl.fdiv amount hundred) ∷ []
      else if str_eq key "shout_recovery_mult"
      then (avs.shout_recovery_mult, amount) ∷ []
      else []

  -- Each kind of effect wants its alternative of the magnitude.
  unfoldable pub resolve_actor_value_deltas :
      BuildEffectType → String → BuildMagnitude Float32 → List (ActorValue × Float32)
  unfolding value_deltas
  resolve_actor_value_deltas actor_value key (float amount) = value_deltas key amount
  resolve_actor_value_deltas carry_weight key (float amount) =
      if str_eq key "carry_weight" then (avs.carry_weight, amount) ∷ [] else []
  resolve_actor_value_deltas economy key (int32 amount) =
      if str_eq key "speechcraft_modifier"
      then (avs.speechcraft_modifier, fl.fmul (fl.of_int32 amount) speechcraft_scale) ∷ []
      else []
  resolve_actor_value_deltas _ key _ = []
