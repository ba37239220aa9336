-- ===== src/Rewards/Caps.antt =====
-- include/CodexOfPowerNG/RewardCaps.h: the caps of the reward totals. Floats are their bits.
use codex_of_power_ng.Base.{Bool, not, Option, none, some, [], ◌∷◌, ◌==◌, if◌then◌else◌}
use codex_of_power_ng.Base.Keyed.{member}
use codex_of_power_ng.State.{ActorValue, Float32}
use codex_of_power_ng.Game.{FloatOps, ActorValues}

-- `0.001f`
abbrev pub reward_cap_epsilon : Float32
reward_cap_epsilon = 0x3a83_126f

-- `0.0001f`
abbrev pub skill_actor_snap_epsilon : Float32
skill_actor_snap_epsilon = 0x38d1_b717

module _ (avs : ActorValues) where
  unfoldable pub is_skill_actor_value : ActorValue → Bool
  is_skill_actor_value av = member av (
      avs.one_handed ∷ avs.two_handed ∷ avs.archery ∷ avs.heavy_armor ∷ avs.light_armor ∷ avs.block
      ∷ avs.alchemy ∷ avs.lockpicking ∷ avs.pickpocket ∷ [])

  -- The caps are `1.0f`, `50.0f`, `85.0f`, `80.0f` and `0.50f`.
  unfoldable pub try_get_reward_cap : ActorValue → Option Float32
  try_get_reward_cap av =
      if av == avs.attack_damage_mult
      then some 0x3f80_0000
      else if av == avs.critical_chance
      then some 0x4248_0000
      else if member av (
          avs.resist_magic ∷ avs.resist_fire ∷ avs.resist_frost ∷ avs.resist_shock
          ∷ avs.poison_resist ∷ avs.resist_disease ∷ [])
      then some 0x42aa_0000
      else if member av (avs.absorb_chance ∷ avs.reflect_damage ∷ [])
      then some 0x42a0_0000
      else if av == avs.speed_mult
      then some 0x3f00_0000
      else none

  module _ (fl : FloatOps) where
    capped : Option Float32 → Float32 → Float32
    capped none total = total
    capped (some cap) total = if fl.flt (fl.fadd cap reward_cap_epsilon) total then cap else total

    -- Every caller takes the default epsilon.
    unfoldable pub clamp_reward_total : ActorValue → Float32 → Float32
    unfolding capped try_get_reward_cap
    clamp_reward_total av total =
        if not (fl.is_finite total) then 0 else capped (try_get_reward_cap av) total

    unfoldable pub actor_applied_reward_total : ActorValue → Float32 → Float32
    unfolding clamp_reward_total is_skill_actor_value
    actor_applied_reward_total av total =
        let clamped = clamp_reward_total av total in
        if not (is_skill_actor_value av)
        then clamped
        else let rounded = fl.fround clamped in
          fl.ftrunc (
            if fl.fle (fl.fabs (fl.fsub clamped rounded)) skill_actor_snap_epsilon
            then rounded
            else clamped)
