-- ===== src/Game.antt =====
-- What the plugin takes from its surroundings and the repository does not hold: the arithmetic of
-- IEEE singles, which the compiler and the processor provide, and the numbers of the game's
-- `RE::ActorValue` enumerators.
use codex_of_power_ng.Base.{ℕ, Bool, Option}
use codex_of_power_ng.Base.Int.{ℤ}
use codex_of_power_ng.Inventory.{ExtraList}
use codex_of_power_ng.State.{Float32, ActorValue, FormId}

-- `of_int32` is `static_cast<float>` of a signed word, `of_uint32` of an unsigned one, and
-- `of_thousandths` is a decimal literal as the compiler rounds it. Comparisons are false on NaN.
pub record FloatOps : Type 0 where
  pub fadd : Float32 → Float32 → Float32
  pub fsub : Float32 → Float32 → Float32
  pub fmul : Float32 → Float32 → Float32
  pub fdiv : Float32 → Float32 → Float32
  pub fabs : Float32 → Float32
  pub fround : Float32 → Float32
  pub ftrunc : Float32 → Float32
  pub flt : Float32 → Float32 → Bool
  pub fle : Float32 → Float32 → Bool
  pub is_finite : Float32 → Bool
  pub of_int32 : ℤ → Float32
  pub of_uint32 : ℕ → Float32
  pub of_thousandths : ℤ → Float32

-- The numbers of the enumerators that the source names.
pub record ActorValues : Type 0 where
  pub one_handed : ActorValue
  pub two_handed : ActorValue
  pub archery : ActorValue
  pub block : ActorValue
  pub smithing_modifier : ActorValue
  pub heavy_armor : ActorValue
  pub light_armor : ActorValue
  pub pickpocket : ActorValue
  pub lockpicking : ActorValue
  pub alchemy : ActorValue
  pub critical_chance : ActorValue
  pub melee_damage : ActorValue
  pub unarmed_damage : ActorValue
  pub stamina : ActorValue
  pub stamina_rate : ActorValue
  pub health : ActorValue
  pub heal_rate : ActorValue
  pub magicka : ActorValue
  pub magicka_rate : ActorValue
  pub speed_mult : ActorValue
  pub carry_weight : ActorValue
  pub damage_resist : ActorValue
  pub resist_magic : ActorValue
  pub resist_fire : ActorValue
  pub resist_frost : ActorValue
  pub resist_shock : ActorValue
  pub poison_resist : ActorValue
  pub resist_disease : ActorValue
  pub reflect_damage : ActorValue
  pub absorb_chance : ActorValue
  pub shout_recovery_mult : ActorValue
  pub attack_damage_mult : ActorValue
  pub weapon_speed_mult : ActorValue
  pub block_power_modifier : ActorValue
  pub alchemy_modifier : ActorValue
  pub destruction_modifier : ActorValue
  pub restoration_modifier : ActorValue
  pub alteration_modifier : ActorValue
  pub conjuration_modifier : ActorValue
  pub illusion_modifier : ActorValue
  pub enchanting_modifier : ActorValue
  pub speechcraft_modifier : ActorValue
  pub lockpicking_modifier : ActorValue
  pub pickpocket_modifier : ActorValue
  pub sneaking_modifier : ActorValue

-- The calls that change the game. What the game answers to a query is some function of the calls
-- made so far, the newest one first, and so a parameter.
pub data GameCall : Type 0 where
  restore_actor_value : ActorValue → Float32 → GameCall
  update_weapon_abilities : GameCall
  remove_item : FormId → Option ExtraList → GameCall
  add_object : FormId → GameCall
  schedule_carry_weight_resync : GameCall
