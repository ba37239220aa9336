-- ===== src/Tests/Values.antt =====
-- Values for the parameters of the model: an arithmetic of singles and the numbers of actor values.
use codex_of_power_ng.Base.{◌+◌, ◌-◌, ◌*◌, ◌/◌, ltb, leb}
use codex_of_power_ng.Game.{FloatOps, ActorValues}

-- An arithmetic that is right on no number but orders the positive ones.
abbrev pub some_floats : FloatOps
some_floats = record {
  fadd = λ a b. a + b;
  fsub = λ a b. a - b;
  fmul = λ a b. a * b;
  fdiv = λ a b. a / b;
  fabs = λ a. a;
  fround = λ a. a;
  ftrunc = λ a. a;
  flt = λ a b. ltb a b;
  fle = λ a b. leb a b;
  is_finite = λ a. ltb a 0x7f80_0000;
  of_int32 = λ i. 0;
  of_uint32 = λ n. n;
  of_thousandths = λ i. 0;
}

abbrev pub some_actor_values : ActorValues
some_actor_values = record {
  one_handed = 100;
  two_handed = 101;
  archery = 102;
  block = 103;
  smithing_modifier = 104;
  heavy_armor = 105;
  light_armor = 106;
  pickpocket = 107;
  lockpicking = 108;
  alchemy = 109;
  critical_chance = 110;
  melee_damage = 111;
  unarmed_damage = 112;
  stamina = 113;
  stamina_rate = 114;
  health = 24;
  heal_rate = 115;
  magicka = 116;
  magicka_rate = 117;
  speed_mult = 30;
  carry_weight = 118;
  damage_resist = 119;
  resist_magic = 120;
  resist_fire = 121;
  resist_frost = 122;
  resist_shock = 123;
  poison_resist = 124;
  resist_disease = 125;
  reflect_damage = 126;
  absorb_chance = 127;
  shout_recovery_mult = 128;
  attack_damage_mult = 129;
  weapon_speed_mult = 130;
  block_power_modifier = 131;
  alchemy_modifier = 132;
  destruction_modifier = 133;
  restoration_modifier = 134;
  alteration_modifier = 135;
  conjuration_modifier = 136;
  illusion_modifier = 137;
  enchanting_modifier = 138;
  speechcraft_modifier = 139;
  lockpicking_modifier = 140;
  pickpocket_modifier = 141;
  sneaking_modifier = 142;
}
