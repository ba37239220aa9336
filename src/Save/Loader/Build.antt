-- ===== src/Save/Loader/Build.antt =====
-- src/SerializationLoad.cpp: the records of the build: scores, slots and migration.
use codex_of_power_ng.Base.{
  ℕ, zero, suc, ◌+◌, ◌-◌, ◌%◌, not, ◌&&◌, Option, none, some, String, length, take, drop, ltb, leb,
  ◌==◌, ◌>>=◌, if◌then◌else◌,
}
use codex_of_power_ng.Build.Types.{BuildMigrationState, not_started, pending_cleanup, complete}
use codex_of_power_ng.Build.Slots.{Slots, no_slots}
use codex_of_power_ng.State.Snapshot.{Snapshot}
use codex_of_power_ng.Save.Bytes.{Bytes, get8, get32}
use codex_of_power_ng.Save.Format.{LoadEnv, TextCodec, max_serialized_build_slot_string_length}
use codex_of_power_ng.Save.Loader.Entries.{read_count}

abbrev pub read_points : ℕ → Bytes → Snapshot → Option Snapshot
read_points version bytes s =
    if leb 2 version
    then (do
      (attack, r1) ← get32 bytes
      (defense, r2) ← get32 r1
      (utility, r3) ← get32 r2
      some (record s {
        attack_build_points_centi = attack;
        defense_build_points_centi = defense;
        utility_build_points_centi = utility;
      }))
    else some s

-- Version 1 has the scores only.
unfoldable pub load_build_scores : ℕ → ℕ → Bytes → Snapshot → Option Snapshot
load_build_scores version len bytes s =
    if not (version == 1) && not (version == 2)
    then some s
    else if ltb len (12 + (if leb 2 version then 12 else 0))
    then none
    else (do
      (attack, r1) ← get32 bytes
      (defense, r2) ← get32 r1
      (utility, r3) ← get32 r2
      read_points version r3
          (record s { attack_score = attack; defense_score = defense; utility_score = utility }))

-- `ReadRecordData(value.data(), length) != length`
abbrev pub read_bytes : ℕ → Bytes → Option (Bytes × Bytes)
read_bytes n bytes = if ltb (length bytes) n then none else some (take n bytes, drop n bytes)

abbrev pub cut : ℕ → Bytes → Bytes
cut len value =
    if ltb max_serialized_build_slot_string_length len
    then take max_serialized_build_slot_string_length value
    else value

-- The text's bytes, once its length is known to fit.
abbrev pub read_text : TextCodec → ℕ → ℕ → Bytes → Option (String × (ℕ × Bytes))
read_text codec remaining len bytes = do
  (value, rest) ← read_bytes len bytes
  some (codec.decode (cut len value), (remaining - 4 - len, rest))

-- The text, what remains of the record, and the bytes behind it. A longer text is cut.
unfoldable pub read_string : TextCodec → ℕ → Bytes → Option (String × (ℕ × Bytes))
read_string codec remaining bytes = if ltb remaining 4 then none else (do
  (len, rest) ← get32 bytes
  if ltb (remaining - 4) len then none else read_text codec remaining len rest)

-- `if (i < maxSlots) activeBuildSlots[i] = value`
abbrev pub set_index : ℕ → String → Slots → Slots
set_index i v s =
    if i == 0
    then record s { at0 = v }
    else if i == 1
    then record s { at1 = v }
    else if i == 2
    then record s { at2 = v }
    else if i == 3
    then record s { at3 = v }
    else if i == 4
    then record s { at4 = v }
    else if i == 5
    then record s { at5 = v }
    else s

-- The loop, with the number of rounds left and the index of this one.
unfoldable pub read_slots : TextCodec → ℕ → ℕ → ℕ → Bytes → Slots → Option Slots
unfolding read_string
read_slots codec zero i remaining bytes slots = some slots
read_slots codec (suc n) i remaining bytes slots = if remaining == 0 then some slots else (do
  (value, (remaining', rest)) ← read_string codec remaining bytes
  read_slots codec n (i + 1) remaining' rest (set_index i value slots))

unfoldable pub load_build_slots : LoadEnv → ℕ → ℕ → Bytes → Snapshot → Option Snapshot
unfolding read_slots read_count
load_build_slots env version len bytes s = if not (version == 1) then some s else (do
  (count, rest) ← read_count len bytes
  slots ← read_slots env.codec count 0 (len - 4) rest no_slots
  some (record s { active_build_slots = slots }))

-- The cast to the enumeration keeps the lowest byte.
abbrev pub migration_state_of_byte : ℕ → BuildMigrationState
migration_state_of_byte n =
    if n == 0
    then not_started
    else if n == 1
    then pending_cleanup
    else if n == 2
    then complete
    else BuildMigrationState.other n

unfoldable pub load_build_migration : ℕ → ℕ → Bytes → Snapshot → Option Snapshot
load_build_migration version len bytes s =
    if not (version == 1) then some s else if ltb len 14 then none else (do
      (migration_version, r1) ← get32 bytes
      (raw, r2) ← get32 r1
      (notice, r3) ← get8 r2
      (migrated, r4) ← get8 r3
      (unresolved, r5) ← get32 r4
      some (record s {
        build_migration_version = migration_version;
        build_migration_state = migration_state_of_byte (raw % 256);
        build_migration_notice = record {
          needs_notice = not (notice == 0);
          legacy_rewards_migrated = not (migrated == 0);
          unresolved_historical_registrations = unresolved;
        };
      }))
