-- ===== src/Save/Loader/Entries.antt =====
-- src/SerializationLoad.cpp: the records that are lists of form ids or of totals. A function gives
-- none where `Load` returns with an error. `remaining` only says how much is left to skip, and the
-- next record is found in any case, so it is not carried through these loops.
use codex_of_power_ng.Base.{
  ℕ, zero, suc, ◌-◌, ◌/◌, min, Bool, Option, none, some, List, [], ◌∷◌, ltb, ◌==◌, ◌>>=◌,
  if◌then◌else◌,
}
use codex_of_power_ng.Base.Keyed.{emplace, assign, insert, member}
use codex_of_power_ng.Rewards.Caps.{clamp_reward_total}
use codex_of_power_ng.State.{FormId, ActorValue, Float32}
use codex_of_power_ng.State.Snapshot.{Snapshot}
use codex_of_power_ng.Game.{ActorValues}
use codex_of_power_ng.Save.Bytes.{Bytes, get32}
use codex_of_power_ng.Save.Format.{LoadEnv, group_unknown, max_serialized_reward_entries}

-- `length < sizeof(count) || ReadRecordData(count) != sizeof(count)`
unfoldable pub read_count : ℕ → Bytes → Option (ℕ × Bytes)
read_count length bytes = if ltb length 4 then none else get32 bytes

abbrev pub emplace_resolved : Option FormId → ℕ → List (FormId × ℕ) → List (FormId × ℕ)
emplace_resolved none group items = items
emplace_resolved (some new_id) group items = emplace new_id group items

-- Version 1: the groups were not stored.
unfoldable pub read_registered_v1 :
    LoadEnv → ℕ → Bytes → List (FormId × ℕ) → Option (List (FormId × ℕ))
read_registered_v1 env zero bytes items = some items
read_registered_v1 env (suc n) bytes items = do
  (old_id, rest) ← get32 bytes
  read_registered_v1 env n rest (emplace_resolved (env.resolve_form_id old_id) group_unknown items)

unfoldable pub read_registered_v2 :
    LoadEnv → ℕ → Bytes → List (FormId × ℕ) → Option (List (FormId × ℕ))
read_registered_v2 env zero bytes items = some items
read_registered_v2 env (suc n) bytes items = do
  (old_id, rest) ← get32 bytes
  (group, rest') ← get32 rest
  read_registered_v2 env n rest' (emplace_resolved (env.resolve_form_id old_id) group items)

unfoldable pub registered_by_version :
    LoadEnv → ℕ → ℕ → ℕ → Bytes → List (FormId × ℕ) → Option (List (FormId × ℕ))
unfolding read_registered_v1 read_registered_v2
registered_by_version env version remaining count bytes items =
    if version == 1
    then read_registered_v1 env (min count (remaining / 4)) bytes items
    else if version == 2
    then read_registered_v2 env (min count (remaining / 8)) bytes items
    else some items

unfoldable pub load_registered : LoadEnv → ℕ → ℕ → Bytes → Snapshot → Option Snapshot
unfolding registered_by_version read_count
load_registered env version length bytes s = do
  (count, rest) ← read_count length bytes
  items ← registered_by_version env version (length - 4) count rest s.registered_items
  some (record s { registered_items = items })

abbrev pub insert_resolved : Option FormId → List FormId → List FormId
insert_resolved none ids = ids
insert_resolved (some new_id) ids = insert new_id ids

unfoldable pub read_ids : LoadEnv → ℕ → Bytes → List FormId → Option (List FormId)
read_ids env zero bytes ids = some ids
read_ids env (suc n) bytes ids = do
  (old_id, rest) ← get32 bytes
  read_ids env n rest (insert_resolved (env.resolve_form_id old_id) ids)

-- The record of the blocked and that of the notified items, whatever their version.
unfoldable pub load_ids : LoadEnv → ℕ → Bytes → List FormId → Option (List FormId)
unfolding read_ids read_count
load_ids env length bytes ids = do
  (count, rest) ← read_count length bytes
  read_ids env (min count ((length - 4) / 4)) rest ids

abbrev pub assign_supported :
    LoadEnv
    → Bool
    → ActorValue
    → Float32
    → List (ActorValue × Float32)
    → List (ActorValue × Float32)
assign_supported env supported av total totals =
    if supported
    then assign av (clamp_reward_total env.actor_values env.float_ops av total) totals
    else totals

-- The loop of both records of totals, with the test of the actor value.
unfoldable pub read_totals :
    LoadEnv
    → (ActorValue → Bool)
    → ℕ
    → Bytes
    → List (ActorValue × Float32)
    → Option (List (ActorValue × Float32))
read_totals env supported zero bytes totals = some totals
read_totals env supported (suc n) bytes totals = do
  (av, rest) ← get32 bytes
  (total, rest') ← get32 rest
  read_totals env supported n rest' (assign_supported env (supported av) av total totals)

unfoldable pub is_supported_reward_actor_value : ActorValues → ActorValue → Bool
is_supported_reward_actor_value avs av = member av (
    avs.one_handed ∷ avs.two_handed ∷ avs.archery ∷ avs.critical_chance ∷ avs.unarmed_damage
    ∷ avs.stamina_rate ∷ avs.stamina ∷ avs.speed_mult ∷ avs.carry_weight ∷ avs.damage_resist
    ∷ avs.health ∷ avs.resist_magic ∷ avs.resist_fire ∷ avs.resist_frost ∷ avs.resist_shock
    ∷ avs.heal_rate ∷ avs.reflect_damage ∷ avs.heavy_armor ∷ avs.smithing_modifier ∷ avs.light_armor
    ∷ avs.block ∷ avs.magicka ∷ avs.magicka_rate ∷ avs.poison_resist ∷ avs.resist_disease
    ∷ avs.alchemy_modifier ∷ avs.alchemy ∷ avs.destruction_modifier ∷ avs.restoration_modifier
    ∷ avs.alteration_modifier ∷ avs.conjuration_modifier ∷ avs.illusion_modifier
    ∷ avs.enchanting_modifier ∷ avs.absorb_chance ∷ avs.shout_recovery_mult
    ∷ avs.speechcraft_modifier ∷ avs.lockpicking_modifier ∷ avs.pickpocket_modifier
    ∷ avs.sneaking_modifier ∷ avs.lockpicking ∷ avs.pickpocket ∷ avs.attack_damage_mult ∷ [])

unfoldable pub is_supported_build_effect_actor_value : ActorValues → ActorValue → Bool
is_supported_build_effect_actor_value avs av = member av (
    avs.attack_damage_mult ∷ avs.weapon_speed_mult ∷ avs.critical_chance ∷ avs.damage_resist
    ∷ avs.block_power_modifier ∷ avs.health ∷ avs.carry_weight ∷ avs.speechcraft_modifier
    ∷ avs.speed_mult ∷ [])

-- At most 256 rewards are read, and those behind them skipped.
unfoldable pub load_rewards : LoadEnv → ℕ → Bytes → Snapshot → Option Snapshot
unfolding read_totals read_count
load_rewards env length bytes s = do
  (count, rest) ← read_count length bytes
  totals ←
      read_totals env (is_supported_reward_actor_value env.actor_values)
        (min (min count ((length - 4) / 8)) max_serialized_reward_entries) rest s.reward_totals
  some (record s { reward_totals = totals })

unfoldable pub load_build_applied_effects : LoadEnv → ℕ → ℕ → Bytes → Snapshot → Option Snapshot
unfolding read_totals read_count
load_build_applied_effects env version length bytes s =
    if version == 1
    then (do
      (count, rest) ← read_count length bytes
      totals ←
          read_totals env (is_supported_build_effect_actor_value env.actor_values)
            (min count ((length - 4) / 8)) rest s.build_applied_effect_totals
      some (record s { build_applied_effect_totals = totals }))
    else some s
